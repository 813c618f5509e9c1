-- ===== src/Autonix/Mapping/Versions.antt =====
-- version.rs: a version as the analysis keeps it, and its text in a flake.
use procurator.Prelude.{String, ◌<>◌, Option, none, ok, err, codes}
use procurator.Autonix.Version.{SemVerVersion, unknown, from_str}

mutual
  pub data Version : Type 0 where
    sem_ver : SemVerVersion → Version
    multiple : Versions → Version
    docker : String → Version
    unknown_version : Option String → Version

  pub data Versions : Type 0 where
    no_versions : Versions
    more_versions : Version → Versions → Versions

-- `From<String>` for `SemVerVersion`: what does not parse is kept as it is.
unfoldable pub sem_ver_from : String → SemVerVersion
sem_ver_from s = elim (from_str s) [ ok v ↦ v | err e ↦ unknown (codes s) ]

-- `From<Option<&str>>` and `Default`
unfoldable pub version_from : Option String → Version
version_from s = unknown_version s

unfoldable pub default_version : Version
default_version = unknown_version none

-- `Debug` of a semantic version is derived.
module _ (debug_version : SemVerVersion → String) where
  unfoldable mutual
    pub to_nix : Version → String
    to_nix (sem_ver v) = debug_version v
    to_nix (docker s) = s
    to_nix (multiple vs) = "[ " <> (each_to_nix vs <> "]")
    to_nix (unknown_version s) = "latest"

    pub each_to_nix : Versions → String
    each_to_nix no_versions = ""
    each_to_nix (more_versions v vs) = to_nix v <> (" " <> each_to_nix vs)
