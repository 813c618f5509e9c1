-- ===== src/Cache/Files.antt =====
-- cache/src/main.rs: the files that a narinfo names, and requests that are refused.
use procurator.Prelude.{ℕ, ◌<◌, ◌⊎◌, String, ◌<>◌, ◌≡◌, ap, ◌∙◌, false, some, [], ◌∷◌, err, arith}
use Prim.Native.Char.{Char, code}
use text.Mathlib.TextLemmas.{nil-append, cons-append, append_assoc}
use procurator.Cache.Parts.{strip_suffix-append, rsplit_once-append}
use procurator.Prelude.Strings.{strip_suffix, rsplit_once, has_char}
use procurator.Cache.Host.{NixServeState, Host, bad_request}
use procurator.Cache.Serve.{
  is_hash_part, nar_file, nar_parts, narinfo_of, narinfo, nar_of, nar_handler,
}

-- The handler of NARs takes apart a file's name as it was put together.
strip_suffix-nar_file :
    (hash_part hash2 : String)
    → strip_suffix (nar_file hash_part hash2) ".nar" ≡ some (hash_part <> ("-" <> hash2))
unfolding nar_file
strip_suffix-nar_file hash_part hash2 =
    let stem = hash_part <> ("-" <> hash2) in
    let same : stem <> ".nar" ≡ hash_part <> ("-" <> (hash2 <> ".nar")) =
      append_assoc hash_part ("-" <> hash2) ".nar"
      ∙ ap (λ t. hash_part <> t) (append_assoc "-" hash2 ".nar") in
    rw (← same) (strip_suffix-append stem ".nar")

nar_parts_dash :
    (hash_part hash2 : String)
    → has_char b'-' hash2 ≡ false
    → nar_parts (hash_part <> ("-" <> hash2)) ≡ (hash_part, some hash2)
unfolding nar_parts
nar_parts_dash hash_part hash2 h =
    let same : "-" <> hash2 ≡ String.◌∷◌ "-" hash2 =
      cons-append "-" "" hash2 ∙ ap (String.◌∷◌ "-") (nil-append hash2) in
    let parts : rsplit_once b'-' (hash_part <> ("-" <> hash2)) ≡ some (hash_part, hash2) =
      rw same (rsplit_once-append "-" hash_part hash2 h) in
    ground (arith, parts)

-- The code of a character that is neither a digit nor a lower case letter.
abbrev pub IsForeign : ℕ → Type 0
IsForeign n = (n < 48) ⊎ ((57 < n) × (n < 97)) ⊎ (122 < n)

is_hash_part-IsForeign :
    (before after : String) (c : Char)
    → IsForeign (code c)
    → is_hash_part (before <> String.◌∷◌ c after) ≡ false
unfolding is_hash_part
is_hash_part-IsForeign String.[] after c h = rw (nil-append (String.◌∷◌ c after)) (ground arith)
is_hash_part-IsForeign (String.◌∷◌ d s) after c h =
    rw (cons-append d s (String.◌∷◌ c after)) (ground (arith, is_hash_part-IsForeign s after c h))

module _ (H : Host) (state : NixServeState) where
  nar_handler_of :
      (file filename : String) (w : H.World)
      → strip_suffix file ".nar" ≡ some filename
      → nar_handler H state file w ≡ nar_of H state (nar_parts filename) w
  unfolding nar_handler
  nar_handler_of file filename w h = ground arith

  -- A request is refused with 400, without any command, when its hash part has, at any place, a
  -- character whose code is neither that of a digit (48 to 57) nor of a lower case letter (97 to
  -- 122). This holds of a narinfo's request and of one for the NAR file of such a hash part and of
  -- any hash without a dash.
  pub refused_hash_part :
      (before after hash2 : String) (c : Char) (w : H.World)
      → IsForeign (code c)
      → has_char b'-' hash2 ≡ false
      → let hash_part = before <> String.◌∷◌ c after in
        (narinfo H state (hash_part <> ".narinfo") w ≡ (err bad_request, w))
        × (nar_handler H state (nar_file hash_part hash2) w ≡ (err bad_request, w))
  unfolding narinfo narinfo_of nar_of
  refused_hash_part before after hash2 c w foreign plain =
      let hash_part = before <> String.◌∷◌ c after in
      let refused = is_hash_part-IsForeign before after c foreign in
      let parts = nar_parts_dash hash_part hash2 plain in
      (
        ground (arith, strip_suffix-append hash_part ".narinfo"),
        nar_handler_of (nar_file hash_part hash2) (hash_part <> ("-" <> hash2)) w
              (strip_suffix-nar_file hash_part hash2)
            ∙ ground (arith, parts),
      )
