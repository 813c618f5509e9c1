-- ===== src/Cache/Serve.antt =====
-- cache/src/main.rs: the handlers of the routes.
use procurator.Prelude.{
  ℕ, String, ◌<>◌, ◌+◌, Bool, true, ◌&&◌, ◌||◌, Option, none, some, List, [], ◌∷◌, str_eq,
  if◌then◌else◌, leb, ◌==◌, Result, ok, err, map_err, Eff, ◌>>=◌, pure, fail, map,
}
use Prim.Native.Char.{code}
use mathlib.Core.Option
use procurator.Prelude.Strings.{
  strip_suffix, rsplit_once, split, lines, join_with, parse_unsigned, len_utf8,
}
use procurator.Cache.Host.{
  NixServeState, Output, Host, StatusCode, bad_request, not_found, internal_server_error, text,
  stream, Response, PathInfo, strip_path, fingerprint_path, sign_string,
}

-- `len`, in bytes.
unfoldable pub byte_len : String → ℕ
byte_len String.[] = 0
byte_len (String.◌∷◌ c s) = len_utf8 (code c) + byte_len s

-- Lower case letters and digits of ASCII.
unfoldable pub is_hash_part : String → Bool
is_hash_part String.[] = true
is_hash_part (String.◌∷◌ c s) =
    ((leb b'a' (code c) && leb (code c) b'z') || (leb b'0' (code c) && leb (code c) b'9'))
    && is_hash_part s

unfoldable pub store_path : NixServeState → String → String
store_path state hash_part = state.store_dir <> ("/" <> hash_part)

unfoldable pub nix_cache_info : NixServeState → Response
nix_cache_info state = record {
  content_type = "text/plain";
  content_length = none;
  body = text ("StoreDir: " <> (state.store_dir <> "\nWantMassQuery: 1\nPriority: 30\n"));
}

unfoldable pub first_line : List String → String
first_line [] = ""
first_line (l ∷ ls) = l

unfoldable pub second_line : List String → String
second_line (l ∷ (k ∷ ls)) = k
second_line _ = "0"

unfoldable pub further_lines : List String → List String
further_lines (l ∷ (k ∷ ls)) = ls
further_lines _ = []

unfoldable pub path_info_of : List String → List String → PathInfo
path_info_of ls signatures = record {
  nar_hash = first_line ls;
  nar_size = Option.get_or (parse_unsigned 18446744073709551616 (second_line ls)) 0;
  references = further_lines ls;
  deriver = none;
  signatures = signatures;
}

-- The hash behind `sha256:`, of 52 bytes.
unfoldable pub hash_of_parts : List String → Result String StatusCode
hash_of_parts (kind ∷ (hash ∷ [])) =
    if str_eq kind "sha256" && (byte_len hash == 52) then ok hash else err internal_server_error
hash_of_parts _ = err internal_server_error

unfoldable pub nar_hash2 : PathInfo → Result String StatusCode
nar_hash2 info = hash_of_parts (split b':' info.nar_hash)

-- The file behind `nar/` in the URL of a narinfo.
unfoldable pub nar_file : String → String → String
nar_file hash_part hash2 = hash_part <> ("-" <> (hash2 <> ".nar"))

-- `hash_part-nar_hash`, or the hash part alone.
unfoldable pub nar_parts : String → String × Option String
nar_parts filename = elim (rsplit_once b'-' filename) [
  | some (hash_part, nar_hash) ↦ (hash_part, some nar_hash)
  | none ↦ (filename, none)
]

unfoldable pub is_expected : Option String → PathInfo → Bool
is_expected none info = true
is_expected (some expected) info = str_eq info.nar_hash ("sha256:" <> expected)

unfoldable pub dump_path : String → List String
dump_path path =
    "--extra-experimental-features" ∷ "nix-command" ∷ "store" ∷ "dump-path" ∷ "--" ∷ path ∷ []

unfoldable pub nix_log : String → List String
nix_log path = "--extra-experimental-features" ∷ "nix-command" ∷ "log" ∷ path ∷ []

unfoldable pub reference_lines : List String → String
reference_lines [] = ""
reference_lines (r ∷ rs) = "References: " <> (join_with " " (map strip_path (r ∷ rs)) <> "\n")

unfoldable pub deriver_line : Option String → String
deriver_line none = ""
deriver_line (some deriver) = "Deriver: " <> (strip_path deriver <> "\n")

unfoldable pub signature_lines : List String → String
signature_lines [] = ""
signature_lines (s ∷ ss) = "Sig: " <> (s <> ("\n" <> signature_lines ss))

-- `map_err` on an action: every error becomes one status.
unfoldable pub or_status : {W A : Type 0} → StatusCode → Eff W String A → Eff W StatusCode A
or_status status m w = (map_err (λ e. status) (m w).0, (m w).1)

module _ (H : Host) where
  unfoldable pub sig_lines : NixServeState → String → PathInfo → Result String StatusCode
  sig_lines state path info = elim state.secret_key [
    | some secret_key ↦
        elim (sign_string H secret_key
          (fingerprint_path H path info.nar_hash info.nar_size info.references)) [
            | ok signature ↦ ok ("Sig: " <> (signature <> "\n"))
            | err e ↦ err internal_server_error
          ]
    | none ↦ ok (signature_lines info.signatures)
  ]

  unfoldable pub narinfo_text : String → String → String → PathInfo → String → String
  narinfo_text path hash_part hash2 info sigs =
      "StorePath: "
      <> (path
          <> ("\nURL: nar/"
              <> (nar_file hash_part hash2
                  <> ("\nCompression: none\nNarHash: "
                      <> (info.nar_hash
                          <> ("\nNarSize: "
                              <> (H.display_u64 info.nar_size
                                  <> ("\n"
                                      <> (reference_lines info.references
                                          <> (deriver_line info.deriver <> sigs))))))))))

  unfoldable pub narinfo_response : String → Response
  narinfo_response s = record {
    content_type = "text/x-nix-narinfo";
    content_length = some (byte_len s);
    body = text s;
  }

  -- What is answered once the path's information is there.
  unfoldable pub describe : NixServeState → String → PathInfo → Result Response StatusCode
  describe state hash_part info = elim (nar_hash2 info) [
    | err status ↦ err status
    | ok hash2 ↦ elim (sig_lines state (store_path state hash_part) info) [
      | err status ↦ err status
      | ok sigs ↦
          ok
            (narinfo_response (narinfo_text (store_path state hash_part) hash_part hash2 info sigs))
    ]
  ]

  unfoldable pub utf8 : Option String → Eff H.World String String
  utf8 none = fail "invalid utf-8"
  utf8 (some s) = pure s

  unfoldable pub query_signatures : Output → Eff H.World String (List String)
  query_signatures output =
      if output.success then (utf8 output.stdout >>= λ s. pure (lines s)) else pure []

  unfoldable pub query_output : String → Output → Eff H.World String PathInfo
  query_output path output =
      if output.success
      then (utf8 output.stdout >>= λ s. H.nix_store ("--query" ∷ "--sigs" ∷ path ∷ []) >>= λ sigs.
          query_signatures sigs >>= λ signatures. pure (path_info_of (lines s) signatures))
      else fail "Failed to query path info"

  unfoldable pub query_path_info : String → Eff H.World String PathInfo
  query_path_info path =
      H.nix_store ("--query" ∷ "--deriver" ∷ "--hash" ∷ "--size" ∷ "--references" ∷ path ∷ [])
      >>= query_output path

  unfoldable pub answer : Result Response StatusCode → Eff H.World StatusCode Response
  answer r w = (r, w)

  unfoldable pub known_path : NixServeState → String → Output → Eff H.World StatusCode Response
  known_path state hash_part output =
      if output.success
      then (or_status not_found (query_path_info (store_path state hash_part)) >>= λ info.
          answer (describe state hash_part info))
      else fail not_found

  unfoldable pub narinfo_of : NixServeState → String → Eff H.World StatusCode Response
  narinfo_of state hash_part =
      if is_hash_part hash_part
      then (or_status internal_server_error
            (H.nix_store ("--query" ∷ "--hash" ∷ store_path state hash_part ∷ []))
          >>= known_path state hash_part)
      else fail bad_request

  unfoldable pub narinfo : NixServeState → String → Eff H.World StatusCode Response
  narinfo state hash_narinfo = elim (strip_suffix hash_narinfo ".narinfo") [
    | none ↦ fail bad_request
    | some hash_part ↦ narinfo_of state hash_part
  ]

  unfoldable pub nar_response : String → PathInfo → Response
  nar_response path info = record {
    content_type = "application/x-nix-archive";
    content_length = some info.nar_size;
    body = stream (dump_path path);
  }

  unfoldable pub dump : String → Option String → PathInfo → Eff H.World StatusCode Response
  dump path expected info =
      if is_expected expected info
      then (or_status internal_server_error (H.spawn (dump_path path)) >>= λ _.
          pure (nar_response path info))
      else fail not_found

  unfoldable pub nar_of : NixServeState → String × Option String → Eff H.World StatusCode Response
  nar_of state (hash_part, expected) =
      if is_hash_part hash_part
      then (or_status not_found (query_path_info (store_path state hash_part))
          >>= dump (store_path state hash_part) expected)
      else fail bad_request

  unfoldable pub nar_handler : NixServeState → String → Eff H.World StatusCode Response
  nar_handler state file = elim (strip_suffix file ".nar") [
    | none ↦ fail bad_request
    | some filename ↦ nar_of state (nar_parts filename)
  ]

  unfoldable pub log : NixServeState → String → Eff H.World StatusCode Response
  log state suffix =
      or_status internal_server_error (H.spawn (nix_log (store_path state suffix))) >>= λ _.
      pure (record {
        content_type = "text/plain";
        content_length = none;
        body = stream (nix_log (store_path state suffix));
      })
