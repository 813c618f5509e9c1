-- ===== src/Autonix/Version/Numbers.antt =====
-- version.rs: `numeric_identifier` and `version_core` read just what the grammar writes.
use procurator.Prelude.{
  ℕ, ◌<◌, ◌≡◌, refl, ap, ◌≢◌, ◌⊎◌, inl, inr, true, false, [], ◌∷◌, ◌++◌, arith, ok, ◌>>=◌,
}
use mathlib.Core.List.{append_assoc, append-nil}
use procurator.Autonix.Version.{
  Text, Core, Parser, is_digit, starts, take_while, drop_while, number, parse_u16,
  numeric_identifier, dot, version_core,
}
use procurator.Autonix.Version.Grammar.{IsNumber, zero_digit, positive, IsCore, core}
use procurator.Autonix.Version.Scan.{
  append-take_while, All-take_while, take_while-append, Reads, Chain, AfterDot, Returned,
  Reads-bind, Reads-pure, Reads-dot,
}

numeric_identifier-cases :
    (c : ℕ) (cs : Text) (n : ℕ)
    → (numeric_identifier (c ∷ cs)).0 ≡ ok n
    → let digits = c ∷ take_while is_digit cs in
      let rest = (numeric_identifier (c ∷ cs)).1 in
      ((c ≡ b'0') × (n ≡ 0) × (rest ≡ cs))
      ⊎ ((c ≢ b'0')
          × (is_digit c ≡ true)
          × (number 0 digits < 65536)
          × (n ≡ number 0 digits)
          × (rest ≡ drop_while is_digit cs))
unfolding numeric_identifier parse_u16
numeric_identifier-cases c cs n h = ground arith

numeric_identifier-Reads : Reads IsNumber numeric_identifier
numeric_identifier-Reads [] n h = absurd (unfold numeric_identifier in cc h)
numeric_identifier-Reads (c ∷ cs) n h = elim (numeric_identifier-cases c cs n h) [
  | inl (e, m, r) ↦ (b'0' ∷ [], rw m zero_digit, rw r (ap (λ x. x ∷ cs) e))
  | inr (ne, d, lt, m, r) ↦ (
    c ∷ take_while is_digit cs,
    rw m (positive c (take_while is_digit cs) ne d (All-take_while is_digit cs) lt),
    rw r (ap (λ t. c ∷ t) (append-take_while is_digit cs)),
  )
]

pub numeric_identifier-IsNumber :
    (n : ℕ) (t rest : Text)
    → IsNumber n t
    → starts is_digit rest ≡ false
    → numeric_identifier (t ++ rest) ≡ (ok n, rest)
unfolding numeric_identifier parse_u16
numeric_identifier-IsNumber n t rest zero_digit s = rw s refl
numeric_identifier-IsNumber n t rest (positive c ds ne d a lt) s =
    let taken = take_while-append is_digit ds rest a s in ground (arith, taken.0, taken.1)

no_number_of_nothing :
    {B : Type 0} (f : ℕ → Parser B) (b : B) → ((numeric_identifier >>= f) []).0 ≢ ok b
unfolding numeric_identifier
no_number_of_nothing f b h = cc h

Chain-IsCore :
    (v : Core) (t : Text)
    → Chain IsNumber
        (λ major. AfterDot (
          Chain IsNumber (λ minor. AfterDot (
            Chain IsNumber
              (λ patch. Returned (record { major = major; minor = minor; patch = patch }))))))
        v
        t
    → IsCore v t
Chain-IsCore v t
      (
        major,
        a,
        t1,
        p,
        (u1, (minor, b, t2, q, (u2, (patch, d, t3, r, (e, e3), e4), e5), e6), e7),
        e8,
      ) =
    rw (e, e8, e7, e6, e5, e4, e3, append-nil d)
      (core (record { major = major; minor = minor; patch = patch }) a b d p q r)

pub version_core-Reads : Reads IsCore version_core
unfolding version_core
version_core-Reads cs v h =
    let x =
      Reads-bind IsNumber _ numeric_identifier _ numeric_identifier-Reads
        (λ major. Reads-dot _ _ (no_number_of_nothing _) (
          Reads-bind IsNumber _ numeric_identifier _ numeric_identifier-Reads (λ minor.
            Reads-dot _ _ (no_number_of_nothing _) (
              Reads-bind IsNumber _ numeric_identifier _ numeric_identifier-Reads
                (λ patch. Reads-pure _)))))
        cs v h in
    (x.0, Chain-IsCore v x.0 x.1, x.2)

pub version_core-IsCore :
    (c : Core) (t rest : Text)
    → IsCore c t
    → starts is_digit rest ≡ false
    → version_core (t ++ rest) ≡ (ok c, rest)
unfolding version_core dot starts is_digit
version_core-IsCore c t rest (core k a b d p q r) s =
    rw
      (
        append_assoc a (b'.' ∷ (b ++ (b'.' ∷ d))) rest,
        append_assoc b (b'.' ∷ d) rest,
        numeric_identifier-IsNumber k.major a (b'.' ∷ (b ++ (b'.' ∷ (d ++ rest)))) p refl,
        numeric_identifier-IsNumber k.minor b (b'.' ∷ (d ++ rest)) q refl,
        numeric_identifier-IsNumber k.patch d rest r s,
      )
      refl
