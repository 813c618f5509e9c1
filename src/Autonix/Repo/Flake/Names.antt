-- ===== src/Autonix/Repo/Flake/Names.antt =====
-- flake.rs: checks of different names, and the directories that the filter takes.
use procurator.Prelude.{
  ℕ, String, ◌≡◌, refl, ap, ◌∙◌, Bool, false, ◌||◌, none, some, List, [], ◌∷◌, arith, eq_iff,
  str_eq, if◌then◌else◌, retain, All,
}
use procurator.Prelude.HashMap.{HashMap, get, insert, get-insert, get-insert_self}
use procurator.Autonix.Repo.Scan.{is_empty}
use procurator.Autonix.Repo.Analysis.{Check, RepoAnalysis}
use procurator.Autonix.Repo.Flake.{Texts, CheckOutput}
use procurator.Autonix.Repo.Flake.Merge.{
  all_checks, counted, check_name, check_output, insert_checks, collect_checks,
}
use procurator.Autonix.Repo.Flake.Build.{is_kept, configuration_of_repos, configuration_of}

abbrev pub has_check : String → List Check → Bool
has_check name [] = false
has_check name (c ∷ checks) = str_eq c.name name || has_check name checks

-- No name stands twice.
abbrev pub NodupNames : List Check → Type 0
NodupNames [] = Unit
NodupNames (c ∷ checks) = (has_check c.name checks ≡ false) × NodupNames checks

-- None of the names is counted yet.
abbrev Fresh : List Check → HashMap ℕ → Type 0
Fresh [] counts = Unit
Fresh (c ∷ checks) counts = (get c.name counts ≡ none) × Fresh checks counts

Fresh-insert :
    (checks : List Check) (counts : HashMap ℕ) (name : String) (n : ℕ)
    → Fresh checks counts
    → has_check name checks ≡ false
    → Fresh checks (insert name n counts)
Fresh-insert [] counts name n h e = tt
Fresh-insert (c ∷ checks) counts name n h e = ground (
  arith,
  get-insert name c.name n counts,
  eq_iff c.name name,
  eq_iff name c.name,
  Fresh-insert checks counts name n,
)

check_name_first :
    (c : Check) (counts : HashMap ℕ)
    → get c.name counts ≡ none
    → check_name c (counted c.name counts) ≡ c.name
unfolding check_name counted
check_name_first c counts h = ground arith

module _ (T : Texts) where
  insert_checks_first :
      (c : Check) (checks : List Check) (counts : HashMap ℕ) (m : HashMap CheckOutput)
      → get c.name counts ≡ none
      → insert_checks T (c ∷ checks) counts m
        ≡ insert_checks T checks
            (insert c.name (counted c.name counts) counts)
            (insert c.name (check_output T c c.name) m)
  unfolding insert_checks
  insert_checks_first c checks counts m h = cc (check_name_first c counts h)

  insert_checks_none :
      (name : String) (counts : HashMap ℕ) (m : HashMap CheckOutput)
      → get name (insert_checks T [] counts m) ≡ get name m
  unfolding insert_checks
  insert_checks_none name counts m = refl

  get-insert_checks :
      (name : String) (checks : List Check) (counts : HashMap ℕ) (m : HashMap CheckOutput)
      → NodupNames checks
      → Fresh checks counts
      → has_check name checks ≡ false
      → get name (insert_checks T checks counts m) ≡ get name m
  get-insert_checks name [] counts m d f e = insert_checks_none name counts m
  get-insert_checks name (c ∷ checks) counts m d f e =
      ap (get name) (insert_checks_first c checks counts m f.0)
      ∙ (get-insert_checks name checks (insert c.name (counted c.name counts) counts)
            (insert c.name (check_output T c c.name) m) d.1
            (Fresh-insert checks counts c.name (counted c.name counts) f.1 d.0) (ground arith)
          ∙ ground (arith, get-insert c.name name (check_output T c c.name) m))

  outputs_same :
      (checks : List Check) {m n : HashMap CheckOutput}
      → m ≡ n
      → All (λ c. get c.name n ≡ some (check_output T c c.name)) checks
      → All (λ c. get c.name m ≡ some (check_output T c c.name)) checks
  outputs_same checks e h = rw e h

  insert_checks-All :
      (checks : List Check) (counts : HashMap ℕ) (m : HashMap CheckOutput)
      → NodupNames checks
      → Fresh checks counts
      → All
          (λ c. get c.name (insert_checks T checks counts m) ≡ some (check_output T c c.name))
          checks
  insert_checks-All [] counts m d f = tt
  insert_checks-All (c ∷ checks) counts m d f =
      let next_counts = insert c.name (counted c.name counts) counts in
      let next_map = insert c.name (check_output T c c.name) m in
      let fresh = Fresh-insert checks counts c.name (counted c.name counts) f.1 d.0 in
      let same = insert_checks_first c checks counts m f.0 in
      (
        ap (get c.name) same
            ∙ (get-insert_checks c.name checks next_counts next_map d.1 fresh d.0
                ∙ get-insert_self c.name (check_output T c c.name) m),
        outputs_same checks same (insert_checks-All checks next_counts next_map d.1 fresh),
      )

  Fresh-none : (checks : List Check) → Fresh checks []
  unfolding get
  Fresh-none [] = tt
  Fresh-none (c ∷ checks) = (refl, Fresh-none checks)

  -- When no two checks have one name, each of them is in the flake under its name.
  pub collect_checks-All :
      (repos : List RepoAnalysis)
      → NodupNames (all_checks repos)
      → All
          (λ c. get c.name (collect_checks T repos) ≡ some (check_output T c c.name))
          (all_checks repos)
  unfolding collect_checks
  collect_checks-All repos d =
      insert_checks-All (all_checks repos) [] [] d (Fresh-none (all_checks repos))

  -- Of a directory without packages nothing stands in the configuration if it has checks, and it is
  -- among those that the configuration is made of if it has none.
  configuration_of-no_packages :
      (r : RepoAnalysis) (repos : List RepoAnalysis)
      → r.packages ≡ []
      → configuration_of T (r ∷ repos) ≡ (
          if is_empty r.checks
          then configuration_of_repos T (r ∷ retain is_kept repos)
          else configuration_of T repos)
  unfolding configuration_of is_kept is_empty retain
  configuration_of-no_packages r repos h = ground arith
