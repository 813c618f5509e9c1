-- ===== src/Repohub/Database/Rows.antt =====
-- repohub/src/database.rs: lists of rows, no two alike, and what adding a row at the end does.
use procurator.Prelude.{
  ℕ, suc, ◌<◌, String, ◌≡◌, refl, Bool, true, false, ◌&&◌, Option, none, some, List, [], ◌∷◌, ◌++◌,
  arith, eq_iff, str_eq, ◌==◌, if◌then◌else◌, All, All-append,
}
use procurator.Prelude.Strings.{is_some}
use procurator.Repohub.Database.{find_first}

-- No row is like a later one.
abbrev pub Distinct : {A : Type 0} → (A → A → Bool) → List A → Type 0
Distinct like [] = Unit
Distinct like (r ∷ rows) = (find_first (like r) rows ≡ none) × Distinct like rows

module _ {A : Type 0} where
  pub find_first-append :
      (p : A → Bool) (xs : List A) (x : A)
      → find_first p (xs ++ (x ∷ []))
        ≡ (elim (find_first p xs) [ some y ↦ some y | none ↦ if p x then some x else none ])
  unfolding find_first
  find_first-append p [] x = refl
  find_first-append p (y ∷ xs) x = ground (arith, find_first-append p xs x)

  pub Distinct-append :
      (like : A → A → Bool)
      → ((a b : A) → like a b ≡ like b a)
      → (xs : List A) (x : A) → find_first (like x) xs ≡ none
      → Distinct like xs
      → Distinct like (xs ++ (x ∷ []))
  unfolding find_first
  Distinct-append like swap [] x h d = (refl, tt)
  Distinct-append like swap (y ∷ xs) x h d = (
    ground (arith, find_first-append (like y) xs x, swap x y),
    Distinct-append like swap xs x (ground arith) d.1,
  )

  pub All-weaken : (P Q : A → Type 0) → ((a : A) → P a → Q a) → (xs : List A) → All P xs → All Q xs
  All-weaken P Q f [] h = tt
  All-weaken P Q f (x ∷ xs) h = (f x h.0, All-weaken P Q f xs h.1)

  pub is_some-none : (o : Option A) → is_some o ≡ false → o ≡ none
  unfolding is_some
  is_some-none none h = refl
  is_some-none (some a) h = cc

  pub has-append :
      (p : A → Bool) (xs : List A) (x : A)
      → is_some (find_first p xs) ≡ true
      → is_some (find_first p (xs ++ (x ∷ []))) ≡ true
  unfolding is_some
  has-append p xs x h = ground (arith, find_first-append p xs x)

pub str_eq_comm : (a b : String) → str_eq a b ≡ str_eq b a
str_eq_comm a b = ground (arith, eq_iff a b, eq_iff b a)

pub and-comm-eq : (m n : ℕ) (a b : String) → ((m == n) && str_eq a b) ≡ ((n == m) && str_eq b a)
and-comm-eq m n a b = ground (arith, str_eq_comm a b)

-- A new row with the next id keeps the ids below the next one.
pub ids-append :
    {A : Type 0} (id : A → ℕ) (n : ℕ) (xs : List A) (x : A)
    → id x ≡ n
    → All (λ a. id a < n) xs
    → All (λ a. id a < suc n) (xs ++ (x ∷ []))
ids-append id n xs x e h =
    All-append (λ a. id a < suc n) xs (x ∷ [])
      (All-weaken (λ a. id a < n) (λ a. id a < suc n) (λ a lt. omega arith) xs h) (omega arith, tt)
