-- ===== src/Autonix/Examples.antt =====
-- The parser of versions at concrete inputs.
use procurator.Prelude.{◌≡◌, refl, ◌↔◌, [], ◌∷◌, arith, ok}
use procurator.Prelude.{codes}
use procurator.Autonix.Version.{
  SemVerVersion, pre_release_and_build, valid_semver, display, from_str, is_identifier, is_digit,
}
use procurator.Autonix.Version.Grammar.{Written}
use procurator.Autonix.Version.Accepts.{from_str-Written}
use procurator.Autonix.Version.Printing.{valid_semver-display}

-- 1.20.3-rc.1+001
abbrev candidate : SemVerVersion
candidate =
    pre_release_and_build (record { major = 1; minor = 20; patch = 3 })
      (codes "rc" ∷ codes "1" ∷ []) (codes "001" ∷ [])

from_str-Written_example :
    (from_str "1.20.3-rc.1+001" ≡ ok candidate) ↔ Written candidate (codes "1.20.3-rc.1+001")
from_str-Written_example = from_str-Written "1.20.3-rc.1+001" candidate

valid_semver-display_example : valid_semver (display candidate) ≡ (ok candidate, [])
unfolding is_identifier is_digit
valid_semver-display_example = valid_semver-display candidate (
  (omega arith, omega arith, omega arith),
  (((λ e. absurd (cc e)), (refl, (refl, tt))), (((λ e. absurd (cc e)), (refl, tt)), tt)),
  (((λ e. absurd (cc e)), (refl, (refl, (refl, tt)))), tt),
)
