-- ===== src/Autonix/Mapping/Manifests.antt =====
-- autonix/src/mapping/manifests.rs: the names of manifests, what their formats hold, and what is taken
-- from it.
pub mod Parse
use procurator.Prelude.{
  ℕ, String, Bool, true, false, Option, none, some, List, [], ◌∷◌, str_eq, if◌then◌else◌, Result,
  ok, err,
}
use procurator.Prelude.Strings.{one_of, ends_with, contains}
use procurator.Prelude.HashMap.{HashMap}

pub data ManifestFile : Type 0 where
  cargo_toml : ManifestFile
  package_json : ManifestFile
  pyproject_toml : ManifestFile
  setup_py : ManifestFile
  setup_cfg : ManifestFile
  requirements_txt : ManifestFile
  pipfile : ManifestFile
  python_version : ManifestFile
  runtime_txt : ManifestFile
  conda_yaml : ManifestFile
  environment_yml : ManifestFile
  go_mod : ManifestFile
  pom_xml : ManifestFile
  build_gradle : ManifestFile
  build_gradle_kts : ManifestFile
  build_sbt : ManifestFile
  csproj : ManifestFile
  fsproj : ManifestFile
  sln : ManifestFile
  gemfile : ManifestFile
  composer_json : ManifestFile

-- `TryFrom<&str>`
unfoldable pub manifest_of : String → Option ManifestFile
manifest_of filename =
    if str_eq filename "Cargo.toml"
    then some cargo_toml
    else if str_eq filename "package.json"
    then some package_json
    else if str_eq filename "pyproject.toml"
    then some pyproject_toml
    else if str_eq filename "setup.py"
    then some setup_py
    else if str_eq filename "setup.cfg"
    then some setup_cfg
    else if str_eq filename "requirements.txt"
    then some requirements_txt
    else if str_eq filename "Pipfile"
    then some pipfile
    else if str_eq filename ".python-version"
    then some python_version
    else if str_eq filename "runtime.txt"
    then some runtime_txt
    else if one_of filename ("conda.yaml" ∷ "conda.yml" ∷ [])
    then some conda_yaml
    else if one_of filename ("environment.yml" ∷ "environment.yaml" ∷ [])
    then some environment_yml
    else if one_of filename (
        "requeriments.txt" ∷ "requirement.txt" ∷ "requirements" ∷ "requirements.text"
        ∷ "Requirements.txt" ∷ "requirements.txt.txt" ∷ "requirments.txt" ∷ [])
    then some requirements_txt
    else if str_eq filename "go.mod"
    then some go_mod
    else if str_eq filename "pom.xml"
    then some pom_xml
    else if str_eq filename "build.gradle"
    then some build_gradle
    else if str_eq filename "build.gradle.kts"
    then some build_gradle_kts
    else if str_eq filename "build.sbt"
    then some build_sbt
    else if str_eq filename "Gemfile"
    then some gemfile
    else if str_eq filename "composer.json"
    then some composer_json
    else if ends_with filename ".csproj"
    then some csproj
    else if ends_with filename ".fsproj"
    then some fsproj
    else if ends_with filename ".sln"
    then some sln
    else none

pub record ManifestMetadata : Type 0 where
  pub description : Option String
  pub authors : List String
  pub license : Option String

pub record ParsedManifest : Type 0 where
  pub manifest_type : ManifestFile
  pub names : List String
  pub version : Option String
  pub workspace_members : List String
  pub metadata : ManifestMetadata
  pub entry_points : List String
  pub scripts : HashMap String
  pub toolchain_version : Option String

-- Cargo.toml; a `[[bin]]` is its name.
pub record CargoPackage : Type 0 where
  pub name : String
  pub version : String
  pub edition : Option String
  pub description : Option String
  pub authors : Option (List String)
  pub license : Option String

pub record CargoToml : Type 0 where
  pub cargo_package : Option CargoPackage
  pub workspace : Option (Option (List String))
  pub bins : Option (List String)

-- package.json; the engines are the version of node.
pub data PackageJsonWorkspaces : Type 0 where
  array : List String → PackageJsonWorkspaces
  object : List String → PackageJsonWorkspaces

pub data PackageJsonBin : Type 0 where
  single : String → PackageJsonBin
  multiple : HashMap String → PackageJsonBin

pub record PackageJson : Type 0 where
  pub name : String
  pub version : Option String
  pub description : Option String
  pub author : Option String
  pub license : Option String
  pub scripts : Option (HashMap String)
  pub workspaces : Option PackageJsonWorkspaces
  pub engines : Option (Option String)
  pub bin : Option PackageJsonBin

-- pyproject.toml
pub data PythonAuthor : Type 0 where
  simple : String → PythonAuthor
  detailed : String → Option String → PythonAuthor

pub data PythonLicense : Type 0 where
  simple : String → PythonLicense
  detailed : Option String → Option String → PythonLicense

pub record PythonProject : Type 0 where
  pub name : String
  pub version : Option String
  pub description : Option String
  pub authors : Option (List PythonAuthor)
  pub license : Option PythonLicense
  pub requires_python : Option String
  pub scripts : Option (HashMap String)
