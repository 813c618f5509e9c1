-- ===== src/Autonix/Repo/Parser.antt =====
-- autonix/src/repo/parser.rs: the way from a directory to the configuration of its flake.
use procurator.Prelude.{
  ℕ, String, ◌≡◌, Option, none, some, List, [], ◌∷◌, arith, All, Result, Option-cases, inl, inr,
}
use procurator.Prelude.HashMap.{values}
use procurator.Autonix.Mapping.Formats.{Formats}
use procurator.Autonix.Repo.Paths.{PathBuf}
use procurator.Autonix.Repo.Tree.{DirEntries, Repo, collect, scan_dir}
use procurator.Autonix.Repo.Analysis.{RepoAnalysis}
use procurator.Autonix.Repo.Analysis.Context.{analyse}
use procurator.Autonix.Repo.Flake.{Texts, Configuration}
use procurator.Autonix.Repo.Flake.Build.{configuration_of}
use procurator.Autonix.Repo.Flake.Latest.{
  IsLatest, analyse-PackageLatest, configuration_of-IsLatest,
}

module _ (F : Formats) (read : PathBuf → Result String String) (T : Texts) where
  -- `Parser::analyse` and `Parser::build`
  unfoldable pub build_analysed : Option (List RepoAnalysis) → Option Configuration
  build_analysed none = none
  build_analysed (some analysed) = some (configuration_of T analysed)

  unfoldable pub analyse_scanned : Option (List Repo) → Option Configuration
  analyse_scanned none = none
  analyse_scanned (some repos) = build_analysed (analyse F read repos)

  -- `Parser::scan`, `analyse` and `build`: the calls and the fuel are those of the iterator, and
  -- `none` is a lack of them, or a panic.
  unfoldable pub parse_repository : ℕ → ℕ → PathBuf → DirEntries → Option Configuration
  parse_repository calls fuel path entries =
      analyse_scanned (collect calls fuel (scan_dir path entries ∷ []))

  build_analysed-IsLatest :
      (repos : List Repo) (configuration : Configuration)
      → build_analysed (analyse F read repos) ≡ some configuration
      → All (IsLatest T) (values configuration.outputs.packages)
  unfolding build_analysed
  build_analysed-IsLatest repos configuration h = elim (Option-cases (analyse F read repos)) [
    | inl e ↦ absurd (ground arith)
    | inr (analysed, e) ↦
        let same : configuration_of T analysed ≡ configuration = ground arith in
        rw (← same)
          (configuration_of-IsLatest T analysed (analyse-PackageLatest T F read repos analysed e))
  ]

  -- Whatever a repository's manifests say: when a configuration is made for it, every package in it
  -- has the version `latest`, and so has its toolchain.
  pub parse_repository-IsLatest :
      (calls fuel : ℕ) (path : PathBuf) (entries : DirEntries) (configuration : Configuration)
      → parse_repository calls fuel path entries ≡ some configuration
      → All (IsLatest T) (values configuration.outputs.packages)
  unfolding parse_repository analyse_scanned
  parse_repository-IsLatest calls fuel path entries configuration h =
      elim (Option-cases (collect calls fuel (scan_dir path entries ∷ []))) [
        | inl e ↦ absurd (ground arith)
        | inr (repos, e) ↦ build_analysed-IsLatest repos configuration (ground arith)
      ]
