-- ===== src/Prelude/Lists.antt =====
-- Lists measured by native numbers and searched by Boolean tests; predicates on lists.
use Prim.Native.Nat.{ℕ, zero, suc, ◌+◌, ◌≤◌, ◌<◌}
use mathlib.Core.Path.{◌≡◌, refl, sym, ap, ◌∙◌}
use mathlib.Core.Logic.{◌⊎◌, inl, inr}
use mathlib.Core.Bool.{Bool, true, false}
use mathlib.Core.List.{List, [], ◌∷◌, ◌++◌, map}
use native.Mathlib.Omega.{arith}
use procurator.Prelude.Tests.{if◌then◌else◌, Bool-cases}

module _ {ℓ} {A : Type ℓ} where
  abbrev pub length : List A → ℕ
  length [] = 0
  length (x ∷ xs) = suc (length xs)

  -- The elements that pass a test: `filter` of an iterator.
  unfoldable pub retain : (A → Bool) → List A → List A
  retain p [] = []
  retain p (x ∷ xs) = let rest = retain p xs in if p x then x ∷ rest else rest

  -- How many elements pass a test.
  unfoldable pub count : (A → Bool) → List A → ℕ
  count p [] = 0
  count p (x ∷ xs) = (if p x then 1 else 0) + count p xs

  abbrev pub All {κ} : (A → Type κ) → List A → Type κ
  All P [] = Unit
  All P (x ∷ xs) = P x × All P xs

  abbrev pub take : ℕ → List A → List A
  take zero xs = []
  take (suc n) [] = []
  take (suc n) (x ∷ xs) = x ∷ take n xs

  pub length-append : (xs ys : List A) → length (xs ++ ys) ≡ length xs + length ys
  length-append [] ys = omega arith
  length-append (x ∷ xs) ys = omega (arith, length-append xs ys)

  pub length-take : (n : ℕ) (xs : List A) → n ≤ length xs → length (take n xs) ≡ n
  length-take zero xs h = refl
  length-take (suc n) [] h = absurd (omega arith)
  length-take (suc n) (x ∷ xs) h = omega (arith, length-take n xs)

  pub All-append {κ} : (P : A → Type κ) (xs ys : List A) → All P xs → All P ys → All P (xs ++ ys)
  All-append P [] ys h k = k
  All-append P (x ∷ xs) ys h k = (h.0, All-append P xs ys h.1 k)

  pub All-split {κ} : (P : A → Type κ) (xs ys : List A) → All P (xs ++ ys) → All P xs × All P ys
  All-split P [] ys h = (tt, h)
  All-split P (x ∷ xs) ys h = let parts = All-split P xs ys h.1 in ((h.0, parts.0), parts.1)

  pub count-append : (p : A → Bool) (xs ys : List A) → count p (xs ++ ys) ≡ count p xs + count p ys
  unfolding count
  count-append p [] ys = omega arith
  count-append p (x ∷ xs) ys = omega (arith, count-append p xs ys)

  pub length-retain : (p : A → Bool) (xs : List A) → length (retain p xs) ≡ count p xs
  unfolding retain count
  length-retain p [] = refl
  length-retain p (x ∷ xs) = ground (arith, length-retain p xs)

  pub count-le-length : (p : A → Bool) (xs : List A) → count p xs ≤ length xs
  unfolding count
  count-le-length p [] = omega arith
  count-le-length p (x ∷ xs) = ground (arith, count-le-length p xs)

module _ {A : Type 0} where
  abbrev pub In : A → List A → Type 0
  In x [] = ⊥
  In x (y ∷ ys) = (y ≡ x) ⊎ In x ys

  pub In-retain : (p : A → Bool) (x : A) (xs : List A) → In x (retain p xs) → (p x ≡ true) × In x xs
  unfolding retain
  In-retain p x [] h = absurd h
  In-retain p x (y ∷ ys) h = kept (In-retain p x ys) (p y) refl h
    where
      kept :
          (In x (retain p ys) → (p x ≡ true) × In x ys)
          → (b : Bool) → p y ≡ b
          → In x (if b then y ∷ retain p ys else retain p ys)
          → (p x ≡ true) × In x (y ∷ ys)
      kept ih true e (inl q) = (ap p (sym q) ∙ e, inl q)
      kept ih true e (inr k) = let t = ih k in (t.0, inr t.1)
      kept ih false e k = let t = ih k in (t.0, inr t.1)

  pub retain-In : (p : A → Bool) (x : A) (xs : List A) → p x ≡ true → In x xs → In x (retain p xs)
  unfolding retain
  retain-In p x [] e h = h
  retain-In p x (y ∷ ys) e (inl q) = rw (ap p q ∙ e) (inl q)
  retain-In p x (y ∷ ys) e (inr h) = elim (Bool-cases (p y)) [
    | inl q ↦ rw q (inr (retain-In p x ys e h))
    | inr q ↦ rw q (retain-In p x ys e h)
  ]

  -- Of an element that passes a test, there is one at least.
  pub count-In : (p : A → Bool) (x : A) (xs : List A) → p x ≡ true → In x xs → 0 < count p xs
  unfolding count
  count-In p x (y ∷ ys) e (inl q) = let e' : p y ≡ true = ap p q ∙ e in ground arith
  count-In p x (y ∷ ys) e (inr h) = omega (arith, count-In p x ys e h)
  count-In p x [] e h = absurd h

  -- Of which there is one at most, two are the same.
  pub unique-In :
      (p : A → Bool) (x y : A) (xs : List A)
      → count p xs ≤ 1
      → p x ≡ true
      → p y ≡ true
      → In x xs
      → In y xs
      → x ≡ y
  unfolding count
  unique-In p x y [] one ex ey h k = absurd h
  unique-In p x y (z ∷ zs) one ex ey (inl h) (inl k) = sym h ∙ k
  unique-In p x y (z ∷ zs) one ex ey (inl h) (inr k) =
      let ez : p z ≡ true = ap p h ∙ ex in absurd (ground (arith, count-In p y zs ey k))
  unique-In p x y (z ∷ zs) one ex ey (inr h) (inl k) =
      let ez : p z ≡ true = ap p k ∙ ey in absurd (ground (arith, count-In p x zs ex h))
  unique-In p x y (z ∷ zs) one ex ey (inr h) (inr k) = unique-In p x y zs (omega arith) ex ey h k

pub length-map {ℓ κ} :
    {A : Type ℓ} {B : Type κ} (f : A → B) (xs : List A) → length (map f xs) ≡ length xs
length-map f [] = refl
length-map f (x ∷ xs) = omega (arith, length-map f xs)
