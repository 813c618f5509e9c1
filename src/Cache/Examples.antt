-- ===== src/Cache/Examples.antt =====
-- A cache of one path.
use procurator.Prelude.{inl, arith, String, ◌<>◌, ◌≡◌, refl, true, none, some, [], ◌∷◌, ok, err}
use procurator.Prelude.Strings.{has_char}
use procurator.Cache.Host.{NixServeState, Host, bad_request, Response, PathInfo}
use procurator.Cache.Serve.{
  nar_file, signature_lines, narinfo_response, narinfo_text, narinfo, nar_handler,
}
use procurator.Cache.Files.{refused_hash_part}

abbrev state : NixServeState
state = record { store_dir = "/nix/store"; secret_key = none }

abbrev hash : String
hash = "sha256:1b8m03r63zqhnjf7l5wnldhh7c134ap5vpj0850ymkq1iyzicy5s"

-- Every query answers with the hash and the size, every dump starts.
abbrev host : Host
host = record {
  World = Unit;
  nix_store = λ args w. (ok (record { success = true; stdout = some (hash <> "\n4096\n") }), w);
  spawn = λ args w. (ok tt, w);
  decode = λ s. ok [];
  sign = λ key s. "c2ln";
  display_u64 = λ n. "4096";
}

abbrev info : PathInfo
info = record {
  nar_hash = hash;
  nar_size = 4096;
  references = [];
  deriver = none;
  signatures = hash ∷ ("4096" ∷ []);
}

abbrev answer : Response
answer = narinfo_response host (
    narinfo_text host "/nix/store/abc123" "abc123"
      "1b8m03r63zqhnjf7l5wnldhh7c134ap5vpj0850ymkq1iyzicy5s" info (signature_lines info.signatures))

refused_hash_part_example :
    (narinfo host state (("etc" <> String.◌∷◌ "/" "a") <> ".narinfo") tt ≡ (err bad_request, tt))
    × (nar_handler host state (nar_file ("etc" <> String.◌∷◌ "/" "a") "1") tt
        ≡ (err bad_request, tt))
unfolding has_char
refused_hash_part_example =
    refused_hash_part host state "etc" "a" "1" "/" tt (inl (omega arith)) refl
