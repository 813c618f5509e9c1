-- ===== src/Prelude/HashMap.antt =====
-- `HashMap<String, V>` as an association list. Rust leaves the order of iteration open, so no
-- theorem speaks of the order of the entries.
use Prim.Native.Nat.{suc}
use Prim.Native.String.{String}
use mathlib.Core.Path.{◌≡◌, refl}
use mathlib.Core.Option.{Option, none, some}
use mathlib.Core.List.{List, [], ◌∷◌}
use native.Mathlib.Omega.{arith}
use text.Mathlib.Text.{◌==◌}
use text.Mathlib.TextEquality.{eq_iff}
use procurator.Prelude.Tests.{if◌then◌else◌}
use procurator.Prelude.Lists.{length}

abbrev pub HashMap {ℓ} : Type ℓ → Type ℓ
HashMap V = List (String × V)

module _ {ℓ} {V : Type ℓ} where
  unfoldable pub get : String → HashMap V → Option V
  get k [] = none
  get k ((j, v) ∷ m) = if j == k then some v else get k m

  unfoldable pub insert : String → V → HashMap V → HashMap V
  insert k v [] = (k, v) ∷ []
  insert k v ((j, w) ∷ m) = let rest = insert k v m in if j == k then (k, v) ∷ m else (j, w) ∷ rest

  unfoldable pub remove : String → HashMap V → HashMap V
  remove k [] = []
  remove k ((j, v) ∷ m) = let rest = remove k m in if j == k then rest else (j, v) ∷ rest

  -- `entry(k).or_insert(v)`
  unfoldable pub or_insert : String → V → HashMap V → HashMap V
  or_insert k v m = elim (get k m) [ some w ↦ m | none ↦ insert k v m ]

  -- `collect` and `extend`: the last value of a key stays.
  unfoldable pub extend : HashMap V → List (String × V) → HashMap V
  extend m [] = m
  extend m ((k, v) ∷ es) = extend (insert k v m) es

  -- `keys`
  unfoldable pub keys : HashMap V → List String
  keys [] = []
  keys ((k, v) ∷ m) = k ∷ keys m

  unfoldable pub values : HashMap V → List V
  values [] = []
  values ((k, v) ∷ m) = v ∷ values m

  -- No key stands twice.
  abbrev pub NodupKeys : HashMap V → Type ℓ
  NodupKeys [] = Unit
  NodupKeys ((k, v) ∷ m) = (get k m ≡ none) × NodupKeys m

  pub get-insert :
      (k j : String) (v : V) (m : HashMap V)
      → get j (insert k v m) ≡ (if k == j then some v else get j m)
  unfolding get insert
  get-insert k j v [] = refl
  get-insert k j v ((i, w) ∷ m) =
      ground (arith, eq_iff k j, eq_iff i k, eq_iff i j, get-insert k j v m)

  pub get-insert_self : (k : String) (v : V) (m : HashMap V) → get k (insert k v m) ≡ some v
  get-insert_self k v m = ground (arith, get-insert k k v m, eq_iff k k)

  pub get-remove :
      (k j : String) (m : HashMap V) → get j (remove k m) ≡ (if k == j then none else get j m)
  unfolding get remove
  get-remove k j [] = ground arith
  get-remove k j ((i, w) ∷ m) = ground (arith, eq_iff k j, eq_iff i k, eq_iff i j, get-remove k j m)

  pub insert-NodupKeys :
      (k : String) (v : V) (m : HashMap V) → NodupKeys m → NodupKeys (insert k v m)
  unfolding get insert
  insert-NodupKeys k v [] h = (refl, tt)
  insert-NodupKeys k v ((i, w) ∷ m) h =
      ground (arith, eq_iff i k, eq_iff k i, insert-NodupKeys k v m h.1, get-insert k i v m)

  pub remove-NodupKeys : (k : String) (m : HashMap V) → NodupKeys m → NodupKeys (remove k m)
  unfolding get remove
  remove-NodupKeys k [] h = tt
  remove-NodupKeys k ((i, w) ∷ m) h =
      ground (arith, eq_iff k i, remove-NodupKeys k m h.1, get-remove k i m)

  -- A fresh key adds one entry.
  pub length-insert :
      (k : String) (v : V) (m : HashMap V) → get k m ≡ none → length (insert k v m) ≡ suc (length m)
  unfolding get insert
  length-insert k v [] h = refl
  length-insert k v ((i, w) ∷ m) h = ground (arith, length-insert k v m)

  pub remove_absent : (k : String) (m : HashMap V) → get k m ≡ none → remove k m ≡ m
  unfolding get remove
  remove_absent k [] h = refl
  remove_absent k ((i, w) ∷ m) h = ground (arith, remove_absent k m)

  -- A key that is present takes one entry with it.
  pub length-remove :
      (k : String) (v : V) (m : HashMap V)
      → NodupKeys m
      → get k m ≡ some v
      → suc (length (remove k m)) ≡ length m
  unfolding get remove
  length-remove k v [] d h = absurd (cc h)
  length-remove k v ((i, w) ∷ m) d h =
      ground (arith, eq_iff i k, length-remove k v m d.1, remove_absent k m)

pub ruleset map_laws = (get-insert, get-remove)
