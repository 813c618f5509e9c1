-- ===== src/Repohub/Service/Existing.antt =====
-- repohub/src/services/repository_service.rs: when a bare repository is there already.
use procurator.Prelude.{
  String, ◌≡◌, ◌≢◌, true, Option, none, some, List, [], ◌∷◌, arith, inl, inr, Bool-cases,
  Option-cases, ok, Result-cases,
}
use procurator.RepoOutils.Git.{
  CommandHost, Output, RepoPath, bare_repo_path, create_bare_repo, clone_into_bare, or_git_error,
}
use procurator.Repohub.Service.{RepositoryService, parent, ok_or_invalid_path, create_or_clone}

abbrev pub init_args : String → List String
init_args p = "init" ∷ "--bare" ∷ "--shared=group" ∷ p ∷ []

abbrev pub clone_args : String → String → List String
clone_args remote_url p = "clone" ∷ "--bare" ∷ remote_url ∷ p ∷ []

-- What the documentation of git and of the standard library promises: a repository that git has made
-- is there, and making directories removes nothing.
pub record MakesRepositories (H : CommandHost) : Type 0 where
  pub init_makes :
      (p : String) (w : H.World) (out : Output)
      → (H.output "git" (init_args p) w).0 ≡ ok out
      → out.success ≡ true
      → H.exists_path p (H.output "git" (init_args p) w).1 ≡ true
  pub clone_makes :
      (p remote_url : String) (w : H.World) (out : Output)
      → (H.output "git" (clone_args remote_url p) w).0 ≡ ok out
      → out.success ≡ true
      → H.exists_path p (H.output "git" (clone_args remote_url p) w).1 ≡ true
  pub dirs_keep :
      (p dir : String) (w : H.World)
      → H.exists_path p w ≡ true
      → H.exists_path p (H.create_dir_all dir w).1 ≡ true

module _ (H : CommandHost) (service : RepositoryService) (laws : MakesRepositories H) where
  create_bare_repo-exists :
      (p : String) (w : H.World)
      → (create_bare_repo H p w).0 ≡ ok tt
      → H.exists_path p (create_bare_repo H p w).1 ≡ true
  unfolding create_bare_repo or_git_error
  create_bare_repo-exists p w h = elim (Bool-cases (H.exists_path p w)) [
    | inl e ↦ ground arith
    | inr e ↦ elim (Result-cases (H.output "git" (init_args p) w).0) [
      | inl (out, o) ↦ ground (arith, laws.init_makes p w out)
      | inr (x, o) ↦ ground arith
    ]
  ]

  clone_into_bare-exists :
      (p remote_url : String) (w : H.World)
      → (clone_into_bare H p remote_url w).0 ≡ ok tt
      → H.exists_path p (clone_into_bare H p remote_url w).1 ≡ true
  unfolding clone_into_bare or_git_error
  clone_into_bare-exists p remote_url w h = elim (Bool-cases (H.exists_path p w)) [
    | inl e ↦ ground arith
    | inr e ↦ elim (Result-cases (H.output "git" (clone_args remote_url p) w).0) [
      | inl (out, o) ↦ ground (arith, laws.clone_makes p remote_url w out)
      | inr (x, o) ↦ ground arith
    ]
  ]

  -- A repository that is made is there.
  pub create_or_clone-exists :
      (rp : RepoPath) (git_url : Option String) (w : H.World) (stored : String)
      → (create_or_clone H service rp git_url w).0 ≡ ok stored
      → H.exists_path (bare_repo_path rp) (create_or_clone H service rp git_url w).1 ≡ true
  unfolding create_or_clone ok_or_invalid_path
  create_or_clone-exists rp (some remote_url) w stored h =
      elim (Result-cases (clone_into_bare H (bare_repo_path rp) remote_url w).0) [
        | inl (u, e) ↦ rw e (clone_into_bare-exists (bare_repo_path rp) remote_url w e)
        | inr (x, e) ↦ ground arith
      ]
  create_or_clone-exists rp none w stored h = elim (Option-cases (parent (bare_repo_path rp))) [
    | inl e ↦ ground arith
    | inr (dir, e) ↦ elim (Result-cases (H.create_dir_all dir w).0) [
      | inr (x, d) ↦ ground arith
      | inl (u, d) ↦
          elim (Result-cases
            (create_bare_repo H (bare_repo_path rp) (H.create_dir_all dir w).1).0) [
              | inr (x, c) ↦ ground arith
              | inl (v, c) ↦
                  rw (e, d, c)
                    (create_bare_repo-exists (bare_repo_path rp) (H.create_dir_all dir w).1 c)
            ]
    ]
  ]

  -- Where there is one, none is made, and it stays.
  pub create_or_clone_taken :
      (rp : RepoPath) (git_url : Option String) (w : H.World)
      → H.exists_path (bare_repo_path rp) w ≡ true
      → let r = create_or_clone H service rp git_url w in
        ((stored : String) → r.0 ≢ ok stored) × (H.exists_path (bare_repo_path rp) r.1 ≡ true)
  unfolding create_or_clone ok_or_invalid_path clone_into_bare create_bare_repo
  create_or_clone_taken rp (some remote_url) w there = rw there (λ stored h. cc h, there)
  create_or_clone_taken rp none w there = elim (Option-cases (parent (bare_repo_path rp))) [
    | inl e ↦ rw e (λ stored h. cc h, there)
    | inr (dir, e) ↦
        let kept = laws.dirs_keep (bare_repo_path rp) dir w there in
        elim (Result-cases (H.create_dir_all dir w).0) [
          | inr (x, d) ↦ rw (e, d) (λ stored h. cc h, kept)
          | inl (u, d) ↦ rw (e, d, kept) (λ stored h. cc h, kept)
        ]
  ]
