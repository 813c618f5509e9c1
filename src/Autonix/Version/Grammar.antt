-- ===== src/Autonix/Version/Grammar.antt =====
-- The grammar of versions in the comments of version.rs, as predicates on texts: what it means to
-- write a number, an identifier, a version, independently of the parser. A number fits a `u16`, and
-- the identifiers before and after the `+` have one form.
use procurator.Prelude.{ℕ, ◌<◌, ◌≡◌, ◌≢◌, true, List, [], ◌∷◌, ◌++◌, All}
use procurator.Autonix.Version.{
  Text, Core, SemVerVersion, valid_core, build, pre_release_and_build, is_digit, is_identifier,
  number,
}

-- <numeric identifier> ::= "0" | <positive digit> | <positive digit> <digits>
pub data IsNumber : ℕ → Text → Type 0 where
  zero_digit : IsNumber 0 (b'0' ∷ [])
  positive :
      (c : ℕ) (ds : Text)
      → c ≢ b'0'
      → is_digit c ≡ true
      → All (λ d. is_digit d ≡ true) ds
      → number 0 (c ∷ ds) < 65536
      → IsNumber (number 0 (c ∷ ds)) (c ∷ ds)

-- <version core> ::= <major> "." <minor> "." <patch>
pub data IsCore : Core → Text → Type 0 where
  core :
      (c : Core) (a b d : Text)
      → IsNumber c.major a
      → IsNumber c.minor b
      → IsNumber c.patch d
      → IsCore c (a ++ (b'.' ∷ (b ++ (b'.' ∷ d))))

abbrev pub IsIdentifier : Text → Type 0
IsIdentifier i = (i ≢ []) × All (λ c. is_identifier c ≡ true) i

-- Identifiers, separated by dots.
pub data IsDotted : List Text → Text → Type 0 where
  one : (i : Text) → IsIdentifier i → IsDotted (i ∷ []) i
  cons :
      (i : Text) (is : List Text) (t : Text)
      → IsIdentifier i
      → IsDotted is t
      → IsDotted (i ∷ is) (i ++ (b'.' ∷ t))

-- What may follow a version core.
pub data Suffix (c : Core) : SemVerVersion → Text → Type 0 where
  no_suffix : Suffix c (valid_core c) []
  pre_release_suffix :
      (p : List Text) (t : Text)
      → IsDotted p t
      → Suffix c (SemVerVersion.pre_release c p) (b'-' ∷ t)
  build_suffix : (b : List Text) (t : Text) → IsDotted b t → Suffix c (build c b) (b'+' ∷ t)
  both_suffixes :
      (p b : List Text) (t u : Text)
      → IsDotted p t
      → IsDotted b u
      → Suffix c (pre_release_and_build c p b) (b'-' ∷ (t ++ (b'+' ∷ u)))

-- <valid semver>
pub data Written : SemVerVersion → Text → Type 0 where
  written :
      (c : Core) (v : SemVerVersion) (t u : Text) → IsCore c t → Suffix c v u → Written v (t ++ u)
