-- ===== src/Cache/Host.antt =====
-- cache/src/main.rs: what the cache uses of its host and of other crates, and the data of its answers.
use procurator.Prelude.{
  ℕ, String, ◌<>◌, Bool, Option, none, some, List, [], ◌∷◌, if◌then◌else◌, Result, ok, err, Eff,
  length, ◌==◌, and_then,
}
use mathlib.Core.Option
use procurator.Prelude.Strings.{trim, split, after_last, join_with}

-- `NixServeState`
pub record NixServeState : Type 0 where
  pub store_dir : String
  pub secret_key : Option String

unfoldable pub trimmed_key : Option (Result String String) → Option String
trimmed_key (some (ok s)) = some (trim s)
trimmed_key _ = none

-- `new`, from what NIX_STORE_DIR is and what reading the file named by NIX_SECRET_KEY_FILE gives.
unfoldable pub new_state : Option String → Option (Result String String) → NixServeState
new_state store_dir key_file = record {
  store_dir = Option.get_or store_dir "/nix/store";
  secret_key = trimmed_key key_file;
}

-- What a command gives: whether it succeeded, and what it wrote, if that is UTF-8.
pub record Output : Type 0 where
  pub success : Bool
  pub stdout : Option String

-- Commands may give anything at any time. `nix_store` waits for one, `spawn` starts `nix` and pipes
-- its output; errors are their messages. Bytes are their numbers.
pub record Host : Type 1 where
  pub World : Type 0
  pub nix_store : List String → Eff World String Output
  pub spawn : List String → Eff World String (Unit {0})
  pub decode : String → Result (List ℕ) String
  pub sign : List ℕ → String → String
  pub display_u64 : ℕ → String

pub data StatusCode : Type 0 where
  bad_request : StatusCode
  not_found : StatusCode
  internal_server_error : StatusCode

-- A body is a text, or what a command writes.
pub data Body : Type 0 where
  text : String → Body
  stream : List String → Body

pub record Response : Type 0 where
  pub content_type : String
  pub content_length : Option ℕ
  pub body : Body

pub record PathInfo : Type 0 where
  pub nar_hash : String
  pub nar_size : ℕ
  pub references : List String
  pub deriver : Option String
  pub signatures : List String

unfoldable pub strip_path : String → String
strip_path path = after_last b'/' path

unfoldable pub key_parts : List String → Result (String × String) String
key_parts (key_name ∷ key ∷ []) = ok (key_name, key)
key_parts _ = err "Invalid secret key format"

module _ (H : Host) where
  unfoldable pub fingerprint_path : String → String → ℕ → List String → String
  fingerprint_path store_path nar_hash nar_size references =
      "1;"
      <> (store_path
          <> (";"
              <> (nar_hash
                  <> (";" <> (H.display_u64 nar_size <> (";" <> join_with "," references))))))

  unfoldable pub signed : String → String → List ℕ → Result String String
  signed message key_name key_bytes =
      if length key_bytes == 32
      then ok (key_name <> (":" <> H.sign key_bytes message))
      else err "Invalid key length"

  unfoldable pub sign_string : String → String → Result String String
  sign_string secret_key message =
      and_then (key_parts (split b':' secret_key))
        λ parts. and_then (H.decode parts.1) λ key_bytes. signed message parts.0 key_bytes
