-- ===== src/RepoOutils/Logs/Timeline/Ends.antt =====
-- logs.rs: the recursion over a timeline ends when no two finished steps have one id.
use procurator.Prelude.{
  ℕ, zero, suc, ◌-◌, ◌≤◌, ◌<◌, ◌≡◌, refl, ap, sym, ◌∙◌, ◌⊎◌, inl, inr, Bool, true, false, not, ◌&&◌,
  Option, none, some, List, [], ◌∷◌, arith, ◌==◌, if◌then◌else◌, Bool-cases, retain, count, length,
  count-le-length, In, In-retain, unique-In,
}
use procurator.RepoOutils.Logs.{FinishedStep}
use procurator.RepoOutils.Logs.Timeline.{
  TimelineStep, timeline_step, Timeline, no_steps, step_then, contains_key, has_parent, is_id,
  is_root, is_child, each_tree, build_step_tree, build_timeline,
}

-- Ids that were passed on the way down from a root.
unfoldable mem : ℕ → List ℕ → Bool
mem id [] = false
mem id (j ∷ ids) = let rest = mem id ids in if j == id then true else rest

each_tree-some :
    (build : FinishedStep → Option TimelineStep) (steps : List FinishedStep)
    → ((s : FinishedStep) → In s steps → (t : TimelineStep) × (build s ≡ some t))
    → (ts : Timeline) × (each_tree build steps ≡ some ts)
unfolding each_tree
each_tree-some build [] h = (no_steps, refl)
each_tree-some build (s ∷ steps) h =
    let (t, e) = h s (inl refl) in
    let (ts, es) = each_tree-some build steps (λ x i. h x (inr i)) in (step_then t ts, ground arith)

contains_key-In :
    (s : FinishedStep) (steps : List FinishedStep) → In s steps → contains_key steps s.id ≡ true
unfolding contains_key
contains_key-In s [] h = absurd h
contains_key-In s (x ∷ steps) (inl e) =
    let e' : x.id ≡ s.id = ap (λ (r : FinishedStep). r.id) e in ground arith
contains_key-In s (x ∷ steps) (inr h) = ground (arith, contains_key-In s steps h)

-- A step off the way joins it: the steps that are off it get fewer.
unseen : List ℕ → List FinishedStep → ℕ
unseen ids = count (λ (s : FinishedStep). not (mem s.id ids))

unseen-le :
    (id : ℕ) (ids : List ℕ) (steps : List FinishedStep) → unseen (id ∷ ids) steps ≤ unseen ids steps
unfolding unseen count mem
unseen-le id ids [] = omega arith
unseen-le id ids (x ∷ steps) = ground (arith, unseen-le id ids steps)

unseen-lt :
    (s : FinishedStep) (ids : List ℕ) (steps : List FinishedStep)
    → In s steps
    → mem s.id ids ≡ false
    → unseen (s.id ∷ ids) steps < unseen ids steps
unfolding unseen count mem
unseen-lt s ids [] h e = absurd h
unseen-lt s ids (x ∷ steps) (inl q) e =
    let q' : x.id ≡ s.id = ap (λ (r : FinishedStep). r.id) q in
    let le = unseen-le s.id ids steps in
    let off : mem x.id ids ≡ false = ap (λ i. mem i ids) q' ∙ e in ground arith
unseen-lt s ids (x ∷ steps) (inr h) e = ground (arith, unseen-lt s ids steps h e)

not-true : (b : Bool) → not b ≡ true → b ≡ false
not-true true h = cc h
not-true false h = refl

module _ (all_steps : List FinishedStep)
    (unique : (id : ℕ) → count (λ (s : FinishedStep). s.id == id) all_steps ≤ 1) where
  same_step : (s t : FinishedStep) → In s all_steps → In t all_steps → s.id ≡ t.id → s ≡ t
  same_step s t i k e =
      unique-In (λ (x : FinishedStep). x.id == t.id) s t all_steps (unique t.id) (ground arith)
        (ground arith) i k

  -- Every step on the way has its parent before it on the way, or is a root.
  abbrev IsWay : List ℕ → List ℕ → Type 0
  IsWay ids before =
      (v : FinishedStep)
      → In v all_steps
      → mem v.id ids ≡ true
      → (has_parent all_steps v.parent ≡ false)
        ⊎ ((q : ℕ) × (v.parent ≡ some q) × (mem q before ≡ true))

  is_id-eq : (id : ℕ) (o : Option ℕ) → is_id id o ≡ true → o ≡ some id
  unfolding is_id
  is_id-eq id none h = cc h
  is_id-eq id (some p) h = ground arith

  and-right : (a b : Bool) → (a && b) ≡ true → b ≡ true
  and-right true b h = h
  and-right false b h = cc h

  -- A child is off the way, and the way goes on to it.
  child_off :
      (s c : FinishedStep) (before : List ℕ)
      → In s all_steps
      → In c all_steps
      → c.parent ≡ some s.id
      → mem s.id before ≡ false
      → IsWay (s.id ∷ before) before
      → mem c.id (s.id ∷ before) ≡ false
  unfolding has_parent
  child_off s c before i k p off way = elim (Bool-cases (mem c.id (s.id ∷ before))) [
    | inr e ↦ e
    | inl e ↦ elim (way c k e) [
      | inl none_there ↦ ground (arith, contains_key-In s all_steps i)
      | inr (q, pq, on) ↦ ground arith
    ]
  ]

  child-IsWay :
      (s c : FinishedStep) (before : List ℕ)
      → In c all_steps
      → c.parent ≡ some s.id
      → IsWay (s.id ∷ before) before
      → IsWay (c.id ∷ s.id ∷ before) (s.id ∷ before)
  unfolding mem
  child-IsWay s c before k p way v iv on = elim (Bool-cases (c.id == v.id)) [
    | inl e ↦
        let same = same_step c v k iv (ground arith) in
        inr (s.id, ap (λ (x : FinishedStep). x.parent) (sym same) ∙ p, ground arith)
    | inr e ↦ elim (way v iv (ground arith)) [
      | inl none_there ↦ inl none_there
      | inr (q, pq, before_it) ↦ inr (q, pq, ground arith)
    ]
  ]

  build_step_tree-some :
      (fuel : ℕ) (before : List ℕ) (s : FinishedStep)
      → In s all_steps
      → mem s.id before ≡ false
      → IsWay (s.id ∷ before) before
      → unseen before all_steps ≤ fuel
      → (t : TimelineStep) × (build_step_tree fuel all_steps s ≡ some t)
  unfolding build_step_tree
  build_step_tree-some zero before s i off way enough =
      absurd (omega (arith, unseen-lt s before all_steps i off))
  build_step_tree-some (suc fuel) before s i off way enough =
      let fewer = unseen-lt s before all_steps i off in
      let (ts, e) =
        each_tree-some (build_step_tree fuel all_steps) (retain (is_child s) all_steps) λ c kept.
          let (test, k) = In-retain (is_child s) c all_steps kept in
          let p = is_id-eq s.id c.parent (and-right (c.level == 3) _ test) in
          build_step_tree-some fuel (s.id ∷ before) c k (child_off s c before i k p off way)
            (child-IsWay s c before k p way) (omega arith) in
      (timeline_step s.text (s.completed_at - s.started_at) ts, ground arith)

  -- As much fuel as there are steps is enough.
  pub build_timeline-some :
      (fuel : ℕ)
      → length all_steps ≤ fuel
      → (ts : Timeline) × (build_timeline fuel all_steps ≡ some ts)
  unfolding build_timeline mem unseen
  build_timeline-some fuel enough =
      each_tree-some (build_step_tree fuel all_steps) (retain (is_root all_steps) all_steps)
        λ s kept.
          let (test, i) = In-retain (is_root all_steps) s all_steps kept in
          let root = not-true _ (and-right (s.level == 3) _ test) in
          build_step_tree-some fuel [] s i refl
            (λ v iv on.
              let same = same_step s v i iv (ground arith) in
              inl (ap (λ (x : FinishedStep). has_parent all_steps x.parent) (sym same) ∙ root))
            (omega (arith, count-le-length (λ (x : FinishedStep). not (mem x.id [])) all_steps))
