-- ===== src/Autonix/Version/Scan.antt =====
-- version.rs: what a loop over characters takes, and the rules of what a chain of parsers reads.
use procurator.Prelude.{
  ℕ, ◌≡◌, refl, sym, ap, ◌∙◌, ◌≢◌, inl, inr, Bool, true, false, [], ◌∷◌, ◌++◌, arith, ◌==◌,
  Bool-cases, All, Result, ok, err, pure, resume, ◌>>=◌, ◌>>◌,
}
use mathlib.Core.List.{append_assoc}
use procurator.Autonix.Version.{Text, Error, Parser, starts, take_while, drop_while, dot}

module _ (p : ℕ → Bool) where
  pub append-take_while : (cs : Text) → cs ≡ take_while p cs ++ drop_while p cs
  unfolding take_while drop_while
  append-take_while [] = refl
  append-take_while (c ∷ cs) = ground (arith, append-take_while cs)

  pub All-take_while : (cs : Text) → All (λ c. p c ≡ true) (take_while p cs)
  unfolding take_while
  All-take_while [] = tt
  All-take_while (c ∷ cs) = elim (Bool-cases (p c)) [
    | inl e ↦ rw e (e, All-take_while cs)
    | inr e ↦ rw e tt
  ]

  pub take_while-append :
      (xs rest : Text)
      → All (λ c. p c ≡ true) xs
      → starts p rest ≡ false
      → (take_while p (xs ++ rest) ≡ xs) × (drop_while p (xs ++ rest) ≡ rest)
  unfolding take_while drop_while starts
  take_while-append [] [] a s = (refl, refl)
  take_while-append [] (c ∷ cs) a s = rw s (refl, refl)
  take_while-append (x ∷ xs) rest a s =
      let t = take_while-append xs rest a.1 s in rw (a.0, t.0, t.1) (refl, refl)

-- A parser reads what a predicate says is written.
abbrev pub Reads : {A : Type 0} → (A → Text → Type 0) → Parser A → Type 0
Reads {A} W m = (cs : Text) (a : A) → (m cs).0 ≡ ok a → (t : Text) × W a t × (cs ≡ t ++ (m cs).1)

-- A chain that succeeds has succeeded at its first step.
pub resume-ok :
    {A B : Type 0} (r : Result A Error) (f : A → Parser B) (cs : Text) (b : B)
    → (resume r f cs).0 ≡ ok b
    → (a : A) × (r ≡ ok a)
resume-ok (ok a) f cs b h = (a, refl)
resume-ok (err e) f cs b h = absurd (cc h)

-- What a chain of two steps reads, and what stands behind a dot.
abbrev pub Chain :
    {A B : Type 0} → (A → Text → Type 0) → (A → B → Text → Type 0) → B → Text → Type 0
Chain {A} W V b t = (a : A) × (t1 : Text) × (t2 : Text) × W a t1 × V a b t2 × (t ≡ t1 ++ t2)

abbrev pub AfterDot : {B : Type 0} → (B → Text → Type 0) → B → Text → Type 0
AfterDot V b t = (u : Text) × V b u × (t ≡ b'.' ∷ u)

abbrev pub Returned : {A : Type 0} → A → A → Text → Type 0
Returned a b t = (b ≡ a) × (t ≡ [])

-- The rules of chains: what one step reads stands before what the next one reads.
pub Reads-bind :
    {A B : Type 0} (W : A → Text → Type 0) (V : A → B → Text → Type 0) (m : Parser A)
    (f : A → Parser B)
    → Reads W m
    → ((a : A) → Reads (V a) (f a))
    → Reads (Chain W V) (m >>= f)
Reads-bind W V m f first next cs b h =
    let r = resume-ok (m cs).0 f (m cs).1 b h in
    let step : (m >>= f) cs ≡ f r.0 (m cs).1 = ap (λ q. resume q f (m cs).1) r.1 in
    let x = first cs r.0 r.1 in
    let y = next r.0 (m cs).1 b (ap (λ q. q.0) (sym step) ∙ h) in
    (
      x.0 ++ y.0,
      (r.0, x.0, y.0, x.1, y.1, refl),
      rw step (x.2 ∙ ap (λ t. x.0 ++ t) y.2 ∙ sym (append_assoc x.0 y.0 (f r.0 (m cs).1).1)),
    )

pub Reads-pure : {A : Type 0} (a : A) → Reads (Returned a) (pure a)
Reads-pure a cs b h = ([], (cc h, refl), refl)

pub Reads-dot :
    {B : Type 0} (V : B → Text → Type 0) (k : Parser B)
    → ((b : B) → (k []).0 ≢ ok b)
    → Reads V k
    → Reads (AfterDot V) (dot >> k)
Reads-dot V k fails next [] b h = absurd (fails b (unfold dot in h))
Reads-dot V k fails next (c ∷ cs) b h = elim (Bool-cases (c == b'.')) [
  | inl e ↦
      let step : (dot >> k) (c ∷ cs) ≡ k cs = unfold dot in ground arith in
      let x = next cs b (ap (λ q. q.0) (sym step) ∙ h) in
      (b'.' ∷ x.0, (x.0, x.1, refl), rw step (ground (arith, x.2)))
  | inr e ↦ absurd (unfold dot in ground arith)
]
