-- ===== src/Autonix/Version/Identifiers.antt =====
-- version.rs: identifiers and their separation by dots.
use procurator.Prelude.{
  ℕ, zero, suc, ◌<◌, ◌≡◌, refl, sym, ap, ◌∙◌, ◌⊎◌, inl, inr, true, false, List, [], ◌∷◌, ◌++◌,
  arith, ◌==◌, Bool-cases, length, All, length-append, ok, pure, ◌>>=◌,
}
use mathlib.Core.List.{append_assoc, append-nil}
use procurator.Autonix.Version.{
  Text, is_digit, is_identifier, starts, take_while, non_empty, alphanumeric_identifier,
  more_identifiers, dot_separated_identifiers,
}
use procurator.Autonix.Version.Grammar.{IsIdentifier, IsDotted, one, cons}
use procurator.Autonix.Version.Scan.{
  append-take_while, All-take_while, take_while-append, Reads, Chain, AfterDot, Returned,
  Reads-bind, Reads-pure,
}

found :
    (t i : Text)
    → non_empty t ≡ ok i
    → All (λ c. is_identifier c ≡ true) t
    → (t ≡ i) × IsIdentifier i
unfolding non_empty
found [] i h a = absurd (cc h)
found (c ∷ t) i h a = let e : c ∷ t ≡ i = cc h in (e, rw (sym e) ((λ q. absurd (cc q)), a))

alphanumeric_identifier-Reads : Reads (λ i t. IsIdentifier i × (t ≡ i)) alphanumeric_identifier
unfolding alphanumeric_identifier
alphanumeric_identifier-Reads cs i h =
    let k = found (take_while is_identifier cs) i h (All-take_while is_identifier cs) in
    (i, (k.1, refl), rw (sym k.0) (append-take_while is_identifier cs))

alphanumeric_identifier-IsIdentifier :
    (i rest : Text)
    → IsIdentifier i
    → starts is_identifier rest ≡ false
    → alphanumeric_identifier (i ++ rest) ≡ (ok i, rest)
unfolding alphanumeric_identifier non_empty
alphanumeric_identifier-IsIdentifier [] rest (ne, a) s = absurd (ne refl)
alphanumeric_identifier-IsIdentifier (c ∷ i) rest (ne, a) s =
    let t = take_while-append is_identifier (c ∷ i) rest a s in rw (t.0, t.1) refl

-- What the loop reads: nothing, or a dot and more identifiers.
abbrev Continued : List Text → Text → Type 0
Continued is t = ((is ≡ []) × (t ≡ [])) ⊎ AfterDot IsDotted is t

Chain-IsDotted :
    (is : List Text) (t : Text)
    → Chain (λ i t. IsIdentifier i × (t ≡ i)) (λ i. Chain Continued (λ is. Returned (i ∷ is))) is t
    → IsDotted is t
Chain-IsDotted v t (i, t1, t2, (a, e), (is, t3, t4, inl (e1, e2), (e3, e4), e5), e6) =
    rw (e6, e, e5, e2, e4, e3, e1, append-nil i) (one i a)
Chain-IsDotted v t (i, t1, t2, (a, e), (is, t3, t4, inr (u, d, e2), (e3, e4), e5), e6) =
    rw (e6, e, e5, e2, e4, e3, append-nil u) (cons i is u a d)

after_dot :
    (n : ℕ) (c : ℕ) (cs : Text)
    → c ≡ b'.'
    → more_identifiers (suc n) (c ∷ cs)
      ≡ (alphanumeric_identifier >>= λ i. more_identifiers n >>= λ is. pure (i ∷ is)) cs
unfolding more_identifiers
after_dot n c cs e = rw e refl

no_dot :
    (n : ℕ) (c : ℕ) (cs : Text)
    → (c == b'.') ≡ false
    → more_identifiers (suc n) (c ∷ cs) ≡ (ok [], c ∷ cs)
unfolding more_identifiers
no_dot n c cs e = rw e refl

more_identifiers-Reads : (n : ℕ) → Reads Continued (more_identifiers n)
more_identifiers-Reads zero cs is h =
    ([], inl (unfold more_identifiers in cc h, refl), unfold more_identifiers in refl)
more_identifiers-Reads (suc n) [] is h =
    ([], inl (unfold more_identifiers in cc h, refl), unfold more_identifiers in refl)
more_identifiers-Reads (suc n) (c ∷ cs) is h = elim (Bool-cases (c == b'.')) [
  | inl e ↦
      let dot : c ≡ b'.' = ground arith in
      let step = after_dot n c cs dot in
      let x =
        Reads-bind _ _ alphanumeric_identifier _ alphanumeric_identifier-Reads
          (λ i.
            Reads-bind Continued _ (more_identifiers n) _ (more_identifiers-Reads n)
              (λ is. Reads-pure (i ∷ is)))
          cs is (ap (λ q. q.0) (sym step) ∙ h) in
      (
        b'.' ∷ x.0,
        inr (x.0, Chain-IsDotted is x.0 x.1, refl),
        rw step (ap (λ d. d ∷ cs) dot ∙ ap (λ u. b'.' ∷ u) x.2),
      )
  | inr e ↦
      let step = no_dot n c cs e in
      ([], inl (cc (ap (λ q. q.0) (sym step) ∙ h), refl), rw step refl)
]

pub dot_separated_identifiers-Reads : Reads IsDotted dot_separated_identifiers
unfolding dot_separated_identifiers
dot_separated_identifiers-Reads cs v h =
    let x =
      Reads-bind _ _ alphanumeric_identifier _ alphanumeric_identifier-Reads
        (λ i.
          Reads-bind Continued _ (λ cs. more_identifiers (length cs) cs) _
            (λ cs. more_identifiers-Reads (length cs) cs) (λ is. Reads-pure (i ∷ is)))
        cs v h in
    (x.0, Chain-IsDotted v x.0 x.1, x.2)

-- Where identifiers end.
pub record Ends (rest : Text) : Type 0 where
  pub no_identifier : starts is_identifier rest ≡ false
  pub no_dot : starts (λ c. c == b'.') rest ≡ false

more_identifiers-Ends : (n : ℕ) (rest : Text) → Ends rest → more_identifiers n rest ≡ (ok [], rest)
unfolding more_identifiers starts
more_identifiers-Ends zero rest e = refl
more_identifiers-Ends (suc n) [] e = refl
more_identifiers-Ends (suc n) (c ∷ cs) e = rw e.no_dot refl

more_identifiers-IsDotted :
    (n : ℕ) (is : List Text) (t rest : Text)
    → IsDotted is t
    → Ends rest
    → length t < n
    → more_identifiers n (b'.' ∷ (t ++ rest)) ≡ (ok is, rest)
more_identifiers-IsDotted zero is t rest d e lt = absurd (omega arith)
more_identifiers-IsDotted (suc n) is t rest (one i a) e lt =
    rw
      (
        after_dot n b'.' (i ++ rest) refl,
        alphanumeric_identifier-IsIdentifier i rest a e.no_identifier,
        more_identifiers-Ends n rest e,
      )
      refl
more_identifiers-IsDotted (suc n) is t rest (cons i js u a d) e lt =
    rw
      (
        append_assoc i (b'.' ∷ u) rest,
        after_dot n b'.' (i ++ (b'.' ∷ (u ++ rest))) refl,
        alphanumeric_identifier-IsIdentifier i (b'.' ∷ (u ++ rest)) a
            (unfold starts is_identifier is_digit in refl),
        more_identifiers-IsDotted n js u rest d e (omega (arith, length-append i (b'.' ∷ u))),
      )
      refl

pub dot_separated_identifiers-IsDotted :
    (is : List Text) (t rest : Text)
    → IsDotted is t
    → Ends rest
    → dot_separated_identifiers (t ++ rest) ≡ (ok is, rest)
unfolding dot_separated_identifiers
dot_separated_identifiers-IsDotted is t rest (one i a) e =
    rw
      (
        alphanumeric_identifier-IsIdentifier i rest a e.no_identifier,
        more_identifiers-Ends (length rest) rest e,
      )
      refl
dot_separated_identifiers-IsDotted is t rest (cons i js u a d) e =
    rw
      (
        append_assoc i (b'.' ∷ u) rest,
        alphanumeric_identifier-IsIdentifier i (b'.' ∷ (u ++ rest)) a
            (unfold starts is_identifier is_digit in refl),
        more_identifiers-IsDotted (suc (length (u ++ rest))) js u rest d e
            (omega (arith, length-append u rest)),
      )
      refl
