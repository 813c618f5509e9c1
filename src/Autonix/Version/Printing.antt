-- ===== src/Autonix/Version/Printing.antt =====
-- version.rs: what `Display` prints is read back.
use procurator.Prelude.{
  ℕ, zero, suc, ◌+◌, ◌-◌, ◌*◌, ◌/◌, ◌%◌, ◌<◌, ◌≡◌, refl, sym, ap, ◌∙◌, ◌≢◌, inl, inr, true, List,
  [], ◌∷◌, ◌++◌, arith, ltb, Bool-cases, All, ok,
}
use mathlib.Core.List.{append-nil}
use procurator.Autonix.Version.{
  Text, Core, SemVerVersion, valid_core, build, pre_release_and_build, unknown, is_digit, number,
  digits, join, display_core, display, valid_semver,
}
use procurator.Autonix.Version.Grammar.{
  IsNumber, zero_digit, positive, IsCore, core, IsIdentifier, IsDotted, one, cons, no_suffix,
  pre_release_suffix, build_suffix, both_suffixes, Written, written,
}
use procurator.Autonix.Version.Accepts.{valid_semver-Written}

-- The numbers below `limit fuel` have no more than `fuel` digits.
abbrev limit : ℕ → ℕ
limit zero = 1
limit (suc fuel) = 10 * limit fuel

number-digits :
    (fuel n : ℕ) (acc : Text) → n < limit fuel → number 0 (digits fuel n acc) ≡ number n acc
unfolding digits number
number-digits zero n acc lt = let e : n ≡ 0 = omega arith in rw e refl
number-digits (suc fuel) n acc lt = elim (Bool-cases (ltb n 10)) [
  | inl e ↦ let k : 0 * 10 + (b'0' + n - b'0') ≡ n = omega arith in rw e (ap (λ j. number j acc) k)
  | inr e ↦
      let k : n / 10 * 10 + (b'0' + n % 10 - b'0') ≡ n = omega arith in
      rw e (
        number-digits fuel (n / 10) ((b'0' + n % 10) ∷ acc) (ground arith)
        ∙ ap (λ j. number j acc) k)
]

digits-positive :
    (fuel n : ℕ) (acc : Text)
    → 0 < n
    → n < limit fuel
    → All (λ d. is_digit d ≡ true) acc
    → (c : ℕ) × (ds : Text) × (digits fuel n acc ≡ c ∷ ds)
      × (c ≢ b'0')
      × (is_digit c ≡ true)
      × All (λ d. is_digit d ≡ true) ds
unfolding digits
digits-positive zero n acc pos lt a = absurd (omega arith)
digits-positive (suc fuel) n acc pos lt a = elim (Bool-cases (ltb n 10)) [
  | inl e ↦ (b'0' + n, acc, rw e refl, (λ q. omega arith), (unfold is_digit in ground arith), a)
  | inr e ↦
      let x =
        digits-positive fuel (n / 10) ((b'0' + n % 10) ∷ acc) (ground arith) (ground arith)
          (unfold is_digit in ground arith, a) in
      (x.0, x.1, rw e x.2, x.3, x.4, x.5)
]

digits-IsNumber : (n : ℕ) → n < 65536 → IsNumber n (digits 5 n [])
digits-IsNumber zero lt = unfold digits in zero_digit
digits-IsNumber (suc n) lt =
    let x = digits-positive 5 (suc n) [] (omega arith) (omega arith) tt in
    let e : number 0 (x.0 ∷ x.1) ≡ suc n =
      ap (number 0) (sym x.2)
      ∙ number-digits 5 (suc n) [] (omega arith)
      ∙ (unfold number in refl) in
    rw (x.2, sym e) (positive x.0 x.1 x.3 x.4 x.5 (rw e lt))

abbrev Fits : Core → Type 0
Fits c = (c.major < 65536) × (c.minor < 65536) × (c.patch < 65536)

abbrev AreIdentifiers : List Text → Type 0
AreIdentifiers [] = ⊥
AreIdentifiers (i ∷ is) = IsIdentifier i × All IsIdentifier is

-- The versions that the type of a parsed version stands for: its numbers fit a `u16`, and there are
-- identifiers after the `-` and the `+`.
abbrev pub IsWellFormed : SemVerVersion → Type 0
IsWellFormed (valid_core c) = Fits c
IsWellFormed (SemVerVersion.pre_release c p) = Fits c × AreIdentifiers p
IsWellFormed (build c b) = Fits c × AreIdentifiers b
IsWellFormed (pre_release_and_build c p b) = Fits c × AreIdentifiers p × AreIdentifiers b
IsWellFormed (unknown s) = ⊥

join-IsDotted : (is : List Text) → AreIdentifiers is → IsDotted is (join is)
unfolding join
join-IsDotted [] h = absurd h
join-IsDotted (i ∷ []) (a, h) = one i a
join-IsDotted (i ∷ j ∷ js) (a, h) = cons i (j ∷ js) (join (j ∷ js)) a (join-IsDotted (j ∷ js) h)

display_core-IsCore : (c : Core) → Fits c → IsCore c (display_core c)
unfolding display_core
display_core-IsCore c (a, b, d) =
    core c (digits 5 c.major []) (digits 5 c.minor []) (digits 5 c.patch [])
      (digits-IsNumber c.major a) (digits-IsNumber c.minor b) (digits-IsNumber c.patch d)

display-Written : (v : SemVerVersion) → IsWellFormed v → Written v (display v)
unfolding display
display-Written (valid_core c) f =
    rw (sym (append-nil (display_core c)))
      (written c (valid_core c) (display_core c) [] (display_core-IsCore c f) no_suffix)
display-Written (SemVerVersion.pre_release c p) (f, h) =
    written c _ (display_core c) (b'-' ∷ join p) (display_core-IsCore c f)
      (pre_release_suffix p (join p) (join-IsDotted p h))
display-Written (build c b) (f, h) =
    written c _ (display_core c) (b'+' ∷ join b) (display_core-IsCore c f)
      (build_suffix b (join b) (join-IsDotted b h))
display-Written (pre_release_and_build c p b) (f, h, k) =
    written c _ (display_core c) (b'-' ∷ (join p ++ (b'+' ∷ join b))) (display_core-IsCore c f)
      (both_suffixes p b (join p) (join b) (join-IsDotted p h) (join-IsDotted b k))
display-Written (unknown s) h = absurd h

-- A version whose numbers fit a `u16` and whose identifiers are not empty and made of ASCII letters,
-- digits and dashes is printed as a text that parses, to its end, as this version.
pub valid_semver-display :
    (v : SemVerVersion) → IsWellFormed v → valid_semver (display v) ≡ (ok v, [])
valid_semver-display v h = valid_semver-Written v (display v) (display-Written v h)
