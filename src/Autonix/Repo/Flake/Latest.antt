-- ===== src/Autonix/Repo/Flake/Latest.antt =====
-- What becomes of a manifest's version on its way into the flake: analysis.rs, flake.rs, version.rs.
use procurator.Prelude.{
  All-append, All-split, String, ◌≡◌, refl, Bool, some, List, [], ◌∷◌, arith, retain, Bool-cases,
  All, Result, Option-cases, inl, inr,
}
use procurator.Prelude.HashMap.{HashMap, insert, values}
use procurator.Autonix.Mapping.Formats.{Formats}
use procurator.Autonix.Mapping.Manifests.{ParsedManifest}
use procurator.Autonix.Mapping.Versions.{to_nix, version_from}
use procurator.Autonix.Repo.Paths.{PathBuf, file_name}
use procurator.Autonix.Repo.Tree.{Repo}
use procurator.Autonix.Repo.Analysis.{
  Package, Dependency, ExtractionContext, RepoAnalysis, named_packages, manifest_packages,
  packages_of, extract_dependencies, manifest_toolchain,
}
use procurator.Autonix.Repo.Analysis.Context.{context_of, of_context, analyse_repo, analyse}
use procurator.Autonix.Repo.Flake.{Texts, PackageOutput, metadata_config, toolchain_config}
use procurator.Autonix.Repo.Flake.Build.{is_kept, configuration_of_repos, configuration_of}
use procurator.Autonix.Repo.Flake.Merge.{
  all_packages, package_output, insert_packages, collect_packages,
}

All-values-insert :
    {V : Type 0} (P : V → Type 0) (name : String) (v : V) (m : HashMap V)
    → P v
    → All P (values m)
    → All P (values (insert name v m))
unfolding values insert
All-values-insert P name v [] h k = (h, tt)
All-values-insert P name v ((j, w) ∷ m) h k = ground (arith, All-values-insert P name v m)

module _ (T : Texts) where
  -- Neither the version of a package nor that of its toolchain is known.
  abbrev pub IsLatest : PackageOutput → Type 0
  IsLatest p =
      (p.metadata.version ≡ "latest") × (to_nix T.debug_version p.toolchain.version ≡ "latest")

  abbrev pub PackageLatest : Package → Type 0
  PackageLatest p = IsLatest (package_output T p)

  named_packages-PackageLatest :
      (path : PathBuf) (deps : List Dependency) (m : ParsedManifest) (names : List String)
      → All PackageLatest (named_packages path deps m names)
  unfolding named_packages package_output metadata_config toolchain_config manifest_toolchain to_nix
      version_from
  named_packages-PackageLatest path deps m [] = tt
  named_packages-PackageLatest path deps m (name ∷ names) =
      ((refl, refl), named_packages-PackageLatest path deps m names)

  manifest_packages-PackageLatest :
      (path : PathBuf) (deps : List Dependency) (ms : List ParsedManifest)
      → All PackageLatest (manifest_packages path deps ms)
  unfolding manifest_packages
  manifest_packages-PackageLatest path deps [] = tt
  manifest_packages-PackageLatest path deps (m ∷ ms) =
      All-append PackageLatest (named_packages path deps m m.names) (manifest_packages path deps ms)
        (named_packages-PackageLatest path deps m m.names)
        (manifest_packages-PackageLatest path deps ms)

  insert_packages-IsLatest :
      (ps : List Package) (m : HashMap PackageOutput)
      → All PackageLatest ps
      → All IsLatest (values m)
      → All IsLatest (values (insert_packages T ps m))
  unfolding insert_packages
  insert_packages-IsLatest [] m h k = k
  insert_packages-IsLatest (p ∷ ps) m h k =
      insert_packages-IsLatest ps (insert p.name (package_output T p) m) h.1
        (All-values-insert IsLatest p.name (package_output T p) m h.0 k)

  retain_packages-PackageLatest :
      (keep : RepoAnalysis → Bool) (repos : List RepoAnalysis)
      → All PackageLatest (all_packages repos)
      → All PackageLatest (all_packages (retain keep repos))
  unfolding all_packages retain
  retain_packages-PackageLatest keep [] h = tt
  retain_packages-PackageLatest keep (r ∷ repos) h =
      let parts = All-split PackageLatest r.packages (all_packages repos) h in
      let rest = retain_packages-PackageLatest keep repos parts.1 in
      elim (Bool-cases (keep r)) [
        | inl e ↦ rw e (All-append PackageLatest r.packages _ parts.0 rest)
        | inr e ↦ rw e rest
      ]

  -- Of packages without a known version a configuration is made in which none is known.
  pub configuration_of-IsLatest :
      (repos : List RepoAnalysis)
      → All PackageLatest (all_packages repos)
      → All IsLatest (values (configuration_of T repos).outputs.packages)
  unfolding configuration_of configuration_of_repos collect_packages values
  configuration_of-IsLatest repos h =
      insert_packages-IsLatest (all_packages (retain is_kept repos)) []
        (retain_packages-PackageLatest is_kept repos h) tt

  module _ (F : Formats) (read : PathBuf → Result String String) where
    of_context-PackageLatest :
        (path : PathBuf) (name : String) (ctx : ExtractionContext)
        → All PackageLatest (of_context F.lowercase path name ctx).packages
    unfolding of_context packages_of
    of_context-PackageLatest path name ctx =
        manifest_packages-PackageLatest ctx.repo.path (extract_dependencies ctx) ctx.manifests

    analyse_repo-PackageLatest :
        (repo : Repo) (a : RepoAnalysis)
        → analyse_repo F read repo ≡ some a
        → All PackageLatest a.packages
    unfolding analyse_repo
    analyse_repo-PackageLatest repo a h = elim (Option-cases (file_name repo.path)) [
      | inl e ↦ absurd (ground arith)
      | inr (name, e) ↦ elim (Option-cases (context_of F read repo)) [
        | inl k ↦ absurd (ground arith)
        | inr (ctx, k) ↦
            let same : of_context F.lowercase repo.path name ctx ≡ a = ground arith in
            rw (← same) (of_context-PackageLatest repo.path name ctx)
      ]
    ]

    pub analyse-PackageLatest :
        (repos : List Repo) (analysed : List RepoAnalysis)
        → analyse F read repos ≡ some analysed
        → All PackageLatest (all_packages analysed)
    unfolding analyse all_packages
    analyse-PackageLatest [] analysed h = let same : [] ≡ analysed = ground arith in rw (← same) tt
    analyse-PackageLatest (repo ∷ repos) analysed h =
        elim (Option-cases (analyse_repo F read repo)) [
          | inl e ↦ absurd (ground arith)
          | inr (a, e) ↦ elim (Option-cases (analyse F read repos)) [
            | inl k ↦ absurd (ground arith)
            | inr (rest, k) ↦
                let same : a ∷ rest ≡ analysed = ground arith in
                rw (← same) (
                  All-append PackageLatest a.packages (all_packages rest)
                    (analyse_repo-PackageLatest repo a e) (analyse-PackageLatest repos rest k))
          ]
        ]
