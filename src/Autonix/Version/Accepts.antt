-- ===== src/Autonix/Version/Accepts.antt =====
-- version.rs: the parser accepts the texts of the grammar, and no others.
use procurator.Prelude.{
  String, ◌≡◌, refl, sym, ap, ◌∙◌, ◌↔◌, ◌⊎◌, inl, inr, false, List, [], ◌∷◌, ◌++◌, arith, ◌==◌,
  Bool-cases, ok, pure, resume, ◌>>=◌,
}
use mathlib.Core.List.{append-nil}
use procurator.Prelude.{codes}
use procurator.Autonix.Version.{
  Text, Core, Parser, SemVerVersion, valid_core, build, pre_release_and_build, is_digit,
  is_identifier, starts, version_core, dot_separated_identifiers, at_end, parse_build,
  after_pre_release, after_core, valid_semver, from_str,
}
use procurator.Autonix.Version.Grammar.{
  IsDotted, Suffix, no_suffix, pre_release_suffix, build_suffix, both_suffixes, Written, written,
}
use procurator.Autonix.Version.Scan.{resume-ok}
use procurator.Autonix.Version.Numbers.{version_core-Reads, version_core-IsCore}
use procurator.Autonix.Version.Identifiers.{
  Ends, dot_separated_identifiers-Reads, dot_separated_identifiers-IsDotted,
}

-- A chain that succeeds goes on from its first step.
second :
    {A B : Type 0} (m : Parser A) (f : A → Parser B) (cs : Text) (b : B)
    → ((m >>= f) cs).0 ≡ ok b
    → (a : A) × ((m cs).0 ≡ ok a) × ((f a (m cs).1).0 ≡ ok b)
second m f cs b h =
    let r = resume-ok (m cs).0 f (m cs).1 b h in
    (r.0, r.1, ap (λ q. (resume q f (m cs).1).0) (sym r.1) ∙ h)

at_end_lem : (is b : List Text) (cs : Text) → (at_end is cs).0 ≡ ok b → (is ≡ b) × (cs ≡ [])
unfolding at_end
at_end_lem is b [] h = (cc h, refl)
at_end_lem is b (c ∷ cs) h = absurd (cc h)

parse_build_lem : (b : List Text) (cs : Text) → (parse_build cs).0 ≡ ok b → IsDotted b cs
unfolding parse_build
parse_build_lem b cs h =
    let r = second dot_separated_identifiers at_end cs b h in
    let x = dot_separated_identifiers-Reads cs r.0 r.1 in
    let e = at_end_lem r.0 b (dot_separated_identifiers cs).1 r.2 in
    let whole : cs ≡ x.0 = x.2 ∙ ap (λ t. x.0 ++ t) e.1 ∙ append-nil x.0 in rw (whole, sym e.0) x.1

parse_build-IsDotted : (b : List Text) (t : Text) → IsDotted b t → parse_build t ≡ (ok b, [])
unfolding parse_build at_end starts
parse_build-IsDotted b t d =
    let step =
      dot_separated_identifiers-IsDotted b t [] d
        (record { no_identifier = refl; no_dot = refl }) in
    rw (ap dot_separated_identifiers (sym (append-nil t)) ∙ step) refl

module _ (c : Core) where
  after_pre_release_lem :
      (p : List Text) (v : SemVerVersion) (cs : Text)
      → (after_pre_release c p cs).0 ≡ ok v
      → ((v ≡ SemVerVersion.pre_release c p) × (cs ≡ []))
        ⊎ ((b : List Text) × (u : Text) × IsDotted b u
            × (v ≡ pre_release_and_build c p b)
            × (cs ≡ b'+' ∷ u))
  unfolding after_pre_release
  after_pre_release_lem p v [] h = inl (cc h, refl)
  after_pre_release_lem p v (d ∷ cs) h = elim (Bool-cases (d == b'+')) [
    | inl e ↦
        let r = second parse_build (λ b. pure (pre_release_and_build c p b)) cs v (ground arith) in
        inr (r.0, cs, parse_build_lem r.0 cs r.1, cc r.2, ground arith)
    | inr e ↦ absurd (ground arith)
  ]

  pre_release-Suffix :
      (v : SemVerVersion) (cs : Text)
      → ((dot_separated_identifiers >>= after_pre_release c) cs).0 ≡ ok v
      → Suffix c v (b'-' ∷ cs)
  pre_release-Suffix v cs h =
      let r = second dot_separated_identifiers (after_pre_release c) cs v h in
      let x = dot_separated_identifiers-Reads cs r.0 r.1 in
      elim (after_pre_release_lem r.0 v (dot_separated_identifiers cs).1 r.2) [
        | inl (e, z) ↦
            let whole : cs ≡ x.0 = x.2 ∙ ap (λ t. x.0 ++ t) z ∙ append-nil x.0 in
            rw (e, whole) (pre_release_suffix r.0 x.0 x.1)
        | inr (b, u, d, e, z) ↦
            let whole : cs ≡ x.0 ++ (b'+' ∷ u) = x.2 ∙ ap (λ t. x.0 ++ t) z in
            rw (e, whole) (both_suffixes r.0 b x.0 u x.1 d)
      ]

  after_core-Suffix : (v : SemVerVersion) (cs : Text) → (after_core c cs).0 ≡ ok v → Suffix c v cs
  unfolding after_core
  after_core-Suffix v [] h = let e : v ≡ valid_core c = cc h in rw e no_suffix
  after_core-Suffix v (d ∷ cs) h = elim (Bool-cases (d == b'-')) [
    | inl e ↦ let dash : d ≡ b'-' = ground arith in rw dash (pre_release-Suffix v cs (ground arith))
    | inr e ↦ elim (Bool-cases (d == b'+')) [
      | inl e' ↦
          let plus : d ≡ b'+' = ground arith in
          let r = second parse_build (λ b. pure (build c b)) cs v (ground arith) in
          let whole : v ≡ build c r.0 = cc r.2 in
          rw (plus, whole) (build_suffix r.0 cs (parse_build_lem r.0 cs r.1))
      | inr e' ↦ absurd (ground arith)
    ]
  ]

  Suffix-after_core : (v : SemVerVersion) (cs : Text) → Suffix c v cs → after_core c cs ≡ (ok v, [])
  unfolding after_core after_pre_release
  Suffix-after_core v cs no_suffix = refl
  Suffix-after_core v cs (pre_release_suffix p t d) =
      let ends : Ends [] = unfold starts in record { no_identifier = refl; no_dot = refl } in
      rw
        (ap dot_separated_identifiers (sym (append-nil t))
          ∙ dot_separated_identifiers-IsDotted p t [] d ends)
        refl
  Suffix-after_core v cs (build_suffix b t d) = rw (parse_build-IsDotted b t d) refl
  Suffix-after_core v cs (both_suffixes p b t u d d') =
      let ends : Ends (b'+' ∷ u) =
        unfold starts is_identifier is_digit in record { no_identifier = refl; no_dot = refl } in
      rw (dot_separated_identifiers-IsDotted p t (b'+' ∷ u) d ends, parse_build-IsDotted b u d')
        refl

  Suffix-starts : (v : SemVerVersion) (cs : Text) → Suffix c v cs → starts is_digit cs ≡ false
  unfolding starts is_digit
  Suffix-starts v cs no_suffix = refl
  Suffix-starts v cs (pre_release_suffix p t d) = refl
  Suffix-starts v cs (build_suffix b t d) = refl
  Suffix-starts v cs (both_suffixes p b t u d d') = refl

pub valid_semver-Written :
    (v : SemVerVersion) (cs : Text) → Written v cs → valid_semver cs ≡ (ok v, [])
unfolding valid_semver
valid_semver-Written v cs (written c w t u p q) =
    rw (version_core-IsCore c t u p (Suffix-starts c v u q), Suffix-after_core c v u q) refl

-- A text parses as a version exactly if the grammar says that it writes this version.
pub from_str-Written : (s : String) (v : SemVerVersion) → (from_str s ≡ ok v) ↔ Written v (codes s)
unfolding from_str valid_semver
from_str-Written s v = (accepted, λ h. ap (λ q. q.0) (valid_semver-Written v (codes s) h))
  where
    accepted : from_str s ≡ ok v → Written v (codes s)
    accepted h =
        let r = second version_core after_core (codes s) v h in
        let x = version_core-Reads (codes s) r.0 r.1 in
        rw (x.2) (written r.0 v x.0 (version_core (codes s)).1 x.1 (after_core-Suffix r.0 v _ r.2))
