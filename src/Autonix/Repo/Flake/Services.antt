-- ===== src/Autonix/Repo/Flake/Services.antt =====
-- flake.rs: the services of the merged shell.
use procurator.Prelude.{
  ℕ, String, ◌≡◌, refl, Bool, false, not, ◌&&◌, ◌||◌, List, [], ◌∷◌, ◌++◌, arith, eq_iff, str_eq,
  if◌then◌else◌, count,
}
use procurator.Prelude.Strings.{one_of}
use procurator.Autonix.Repo.Analysis.{Service, RepoAnalysis, set_insert}
use procurator.Autonix.Repo.Flake.{Texts, ServiceConfig, service_config}
use procurator.Autonix.Repo.Flake.Merge.{
  set_remove, all_services, service_names, pick_services, merge_dev_shells,
}

-- Whether a service of a name is among some.
abbrev pub has_service : String → List Service → Bool
has_service name [] = false
has_service name (s ∷ services) = str_eq s.name name || has_service name services

abbrev pub configs_named : String → List ServiceConfig → ℕ
configs_named name cs = count (λ c. str_eq c.name name) cs

one_of-append :
    (s : String) (xs : List String) (t : String)
    → one_of s (xs ++ (t ∷ [])) ≡ (one_of s xs || str_eq s t)
unfolding one_of
one_of-append s [] t = ground arith
one_of-append s (x ∷ xs) t = ground (arith, one_of-append s xs t)

pub one_of-set_insert :
    (s t : String) (set : List String) → one_of s (set_insert t set) ≡ (one_of s set || str_eq s t)
unfolding set_insert
one_of-set_insert s t set = ground (arith, one_of-append s set t, eq_iff s t)

one_of-set_remove :
    (s t : String) (set : List String)
    → one_of s (set_remove t set) ≡ (one_of s set && not (str_eq s t))
unfolding set_remove one_of
one_of-set_remove s t [] = refl
one_of-set_remove s t (x ∷ set) =
    ground (arith, one_of-set_remove s t set, eq_iff x t, eq_iff s x, eq_iff s t)

one_of-service_names :
    (name : String) (services : List Service) (names : List String)
    → one_of name (service_names services names) ≡ (one_of name names || has_service name services)
unfolding service_names
one_of-service_names name [] names = ground arith
one_of-service_names name (s ∷ services) names = ground (
  arith,
  one_of-service_names name services (set_insert s.name names),
  one_of-set_insert name s.name names,
  eq_iff name s.name,
  eq_iff s.name name,
)

one_of_none : (s : String) → one_of s [] ≡ false
unfolding one_of
one_of_none s = refl

module _ (T : Texts) where
  configs_named-pick_services :
      (name : String) (services : List Service) (names : List String)
      → configs_named name (pick_services T services names)
        ≡ (if one_of name names && has_service name services then 1 else 0)
  unfolding pick_services count service_config
  configs_named-pick_services name [] names = ground arith
  configs_named-pick_services name (s ∷ services) names = ground (
    arith,
    configs_named-pick_services name services names,
    configs_named-pick_services name services (set_remove s.name names),
    one_of-set_remove name s.name names,
    eq_iff name s.name,
    eq_iff s.name name,
  )

  -- Each service that some directory needs stands once in the merged shell, and no other does.
  pub configs_named-merge_dev_shells :
      (repos : List RepoAnalysis) (name : String)
      → configs_named name (merge_dev_shells T repos).services
        ≡ (if has_service name (all_services repos) then 1 else 0)
  unfolding merge_dev_shells
  configs_named-merge_dev_shells repos name = ground (
    arith,
    configs_named-pick_services name (all_services repos) (service_names (all_services repos) []),
    one_of-service_names name (all_services repos) [],
    one_of_none name,
  )
