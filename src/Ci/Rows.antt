-- ===== src/Ci/Rows.antt =====
-- The statements of ci_service/src/job_queue.rs on the table `builds` of database.rs, as functions
-- on its rows in the order of their ids. Among equal timestamps a query takes the lowest id.
use procurator.Prelude.{In}
use procurator.Prelude.{
  ℕ, suc, ◌≤◌, ◌≡◌, refl, ◌≢◌, inl, inr, Bool, true, false, Option, none, some, List, [], ◌∷◌,
  arith, eq_iff, str_eq, leb, ◌==◌, if◌then◌else◌, Bool-cases, Option-cases, retain, All,
}
use mathlib.Core.Option
use procurator.Ci.Builds.{BuildJob, BuildStatus, queued, running, as_str}

-- The first row with the least value.
earlier : (BuildJob → ℕ) → BuildJob → Option BuildJob → BuildJob
earlier key r none = r
earlier key r (some s) = if leb (key r) (key s) then r else s

-- ORDER BY key LIMIT 1
unfoldable pub earliest : (BuildJob → ℕ) → List BuildJob → Option BuildJob
unfolding earlier
earliest key [] = none
earliest key (r ∷ rows) = some (earlier key r (earliest key rows))

-- WHERE id = ?
unfoldable pub find_build : ℕ → List BuildJob → Option BuildJob
find_build id [] = none
find_build id (r ∷ rows) = if r.id == id then some r else find_build id rows

unfoldable pub update_build : ℕ → (BuildJob → BuildJob) → List BuildJob → List BuildJob
update_build id f [] = []
update_build id f (r ∷ rows) = (if r.id == id then f r else r) ∷ update_build id f rows

-- WHERE status = ?
unfoldable pub has_status : BuildStatus → BuildJob → Bool
has_status s r = str_eq r.status (as_str s)

-- NULL sorts before any value.
unfoldable pub started_key : BuildJob → ℕ
started_key r = elim r.started_at [ none ↦ 0 | some t ↦ suc t ]

-- The column `id` is the primary key.
abbrev pub NodupIds : List BuildJob → Type 0
NodupIds [] = Unit
NodupIds (r ∷ rows) = (find_build r.id rows ≡ none) × NodupIds rows

pub In-find_build :
    (x : BuildJob) (rows : List BuildJob)
    → NodupIds rows
    → In x rows
    → find_build x.id rows ≡ some x
unfolding find_build
In-find_build x [] d h = absurd h
In-find_build x (r ∷ rows) d (inl e) = ground arith
In-find_build x (r ∷ rows) d (inr h) = ground (arith, In-find_build x rows d.1 h)

find_build-In :
    (id : ℕ) (x : BuildJob) (rows : List BuildJob)
    → find_build id rows ≡ some x
    → (x.id ≡ id) × In x rows
unfolding find_build
find_build-In id x [] h = absurd (cc h)
find_build-In id x (r ∷ rows) h = elim (Bool-cases (r.id == id)) [
  | inl e ↦ (ground arith, inl (ground arith))
  | inr e ↦ let t = find_build-In id x rows (ground arith) in (t.0, inr t.1)
]

pub In-earliest :
    (key : BuildJob → ℕ) (x : BuildJob) (rows : List BuildJob)
    → earliest key rows ≡ some x
    → In x rows
unfolding earliest
In-earliest key x [] h = absurd (cc h)
In-earliest key x (r ∷ rows) h = elim (Option-cases (earliest key rows)) [
  | inl e ↦ inl (ground arith)
  | inr (s, e) ↦ elim (Bool-cases (leb (key r) (key s))) [
    | inl q ↦ inl (ground arith)
    | inr q ↦ inr (In-earliest key x rows (ground arith))
  ]
]

pub earliest-le :
    (key : BuildJob → ℕ) (x y : BuildJob) (rows : List BuildJob)
    → earliest key rows ≡ some x
    → In y rows
    → key x ≤ key y
unfolding earliest
earliest-le key x y [] h i = absurd i
earliest-le key x y (r ∷ rows) h (inl e) = elim (Option-cases (earliest key rows)) [
  | inl q ↦ ground arith
  | inr (s, q) ↦ ground arith
]
earliest-le key x y (r ∷ rows) h (inr i) = elim (Option-cases (earliest key rows)) [
  | inl q ↦ absurd (nothing key y rows i q)
  | inr (s, q) ↦ ground (arith, earliest-le key s y rows q i)
]
  where
    nothing :
        (key : BuildJob → ℕ) (y : BuildJob) (rows : List BuildJob)
        → In y rows
        → earliest key rows ≡ none
        → ⊥
    nothing key y [] i q = i
    nothing key y (r ∷ rows) i q = cc q

All-In :
    (P : BuildJob → Type 0) (rows : List BuildJob) → ((y : BuildJob) → In y rows → P y) → All P rows
All-In P [] h = tt
All-In P (r ∷ rows) h = (h r (inl refl), All-In P rows (λ y i. h y (inr i)))

pub earliest-All :
    (key : BuildJob → ℕ) (x : BuildJob) (rows : List BuildJob)
    → earliest key rows ≡ some x
    → All (λ y. key x ≤ key y) rows
earliest-All key x rows h = All-In (λ y. key x ≤ key y) rows (λ y i. earliest-le key x y rows h i)

-- An update that leaves the ids alone.
module _ (id : ℕ) (f : BuildJob → BuildJob) (same_id : (r : BuildJob) → (f r).id ≡ r.id) where
  pub find_build-update_build :
      (j : ℕ) (rows : List BuildJob)
      → find_build j (update_build id f rows)
        ≡ (if id == j then Option.map f (find_build j rows) else find_build j rows)
  unfolding find_build update_build
  find_build-update_build j [] = ground arith
  find_build-update_build j (r ∷ rows) = ground (arith, find_build-update_build j rows, same_id r)

  pub update_build-NodupIds :
      (rows : List BuildJob) → NodupIds rows → NodupIds (update_build id f rows)
  unfolding update_build
  update_build-NodupIds [] d = tt
  update_build-NodupIds (r ∷ rows) d =
      (ground (arith, find_build-update_build r.id rows, same_id r), update_build-NodupIds rows d.1)

  pub update_build-update_build :
      (g : BuildJob → BuildJob) (rows : List BuildJob)
      → update_build id g (update_build id f rows) ≡ update_build id (λ r. g (f r)) rows
  unfolding update_build
  update_build-update_build g [] = refl
  update_build-update_build g (r ∷ rows) =
      ground (arith, update_build-update_build g rows, same_id r)

pub update_build_absent :
    (id : ℕ) (f : BuildJob → BuildJob) (rows : List BuildJob)
    → find_build id rows ≡ none
    → update_build id f rows ≡ rows
unfolding find_build update_build
update_build_absent id f [] h = refl
update_build_absent id f (r ∷ rows) h = ground (arith, update_build_absent id f rows)

-- Where no row passes the test, an update of one row to one that does leaves just that one.
pub retain-update_build :
    (p : BuildJob → Bool) (id : ℕ) (f : BuildJob → BuildJob) (c : BuildJob) (rows : List BuildJob)
    → NodupIds rows
    → retain p rows ≡ []
    → find_build id rows ≡ some c
    → p (f c) ≡ true
    → retain p (update_build id f rows) ≡ f c ∷ []
unfolding retain find_build update_build
retain-update_build p id f c [] d n h e = absurd (cc h)
retain-update_build p id f c (r ∷ rows) d n h e =
    ground (arith, update_build_absent id f rows, retain-update_build p id f c rows d.1)

pub In-update_build :
    (id : ℕ) (f : BuildJob → BuildJob) (x : BuildJob) (rows : List BuildJob)
    → x.id ≢ id
    → In x rows
    → In x (update_build id f rows)
unfolding update_build
In-update_build id f x [] ne h = h
In-update_build id f x (r ∷ rows) ne (inl e) = inl (ground arith)
In-update_build id f x (r ∷ rows) ne (inr h) = inr (In-update_build id f x rows ne h)

pub earliest-some :
    (key : BuildJob → ℕ) (y : BuildJob) (rows : List BuildJob)
    → In y rows
    → (x : BuildJob) × (earliest key rows ≡ some x)
unfolding earliest
earliest-some key y [] h = absurd h
earliest-some key y (r ∷ rows) h = (earlier key r (earliest key rows), refl)

pub one_status : (r : BuildJob) → has_status queued r ≡ true → has_status running r ≡ false
unfolding has_status as_str
one_status r h = rw ((eq_iff r.status "queued").0 h)
