-- ===== src/Autonix/Repo/Analysis.antt =====
-- autonix/src/repo/analysis.rs: what is extracted from the parsed files of a directory. The order of
-- what comes out of a `HashSet` or a `HashMap` is left open by Rust; here it is the order of arrival.
pub mod Checks
pub mod Context
use procurator.Prelude.{
  ℕ, String, Bool, Option, none, some, List, [], ◌∷◌, ◌++◌, str_eq, if◌then◌else◌,
}
use procurator.Prelude.HashMap.{HashMap, get, insert, or_insert, extend, values}
use procurator.Prelude.Strings.{one_of, split, before}
use procurator.Autonix.Mapping.Languages.{Language, PackageManager}
use procurator.Autonix.Mapping.Versions.{Version, docker, version_from, default_version}
use procurator.Autonix.Mapping.Kinds.{language_of_manifest, manager_of_manifest}
use procurator.Autonix.Mapping.Manifests.{ParsedManifest}
use procurator.Autonix.Mapping.Tasks.{ParsedTaskFile}
use procurator.Autonix.Mapping.CiCd.{ParsedCiCdFile, CiJob, CiService}
use procurator.Autonix.Mapping.Containers.{ParsedContainerFile, ContainerService}
use procurator.Autonix.Repo.Paths.{PathBuf}
use procurator.Autonix.Repo.Tree.{Repo}

pub record Toolchain : Type 0 where
  pub language : Language
  pub package_manager : PackageManager
  pub version : Version

pub record Dependency : Type 0 where
  pub name : String
  pub version : Version

pub record Metadata : Type 0 where
  pub version : Version
  pub description : Option String
  pub authors : List String
  pub license : Option String

pub record Package : Type 0 where
  pub name : String
  pub path : PathBuf
  pub toolchain : Toolchain
  pub dependencies : List Dependency
  pub metadata : Metadata

pub record Service : Type 0 where
  pub name : String
  pub version : Version
  pub config : Option String

pub record Tool : Type 0 where
  pub name : String
  pub version : Version

pub record DevTools : Type 0 where
  pub tools : List Tool
  pub env : HashMap String
  pub shell_hook : Option String
  pub dependencies : List Dependency
  pub services : List Service

pub record Check : Type 0 where
  pub name : String
  pub command : String
  pub toolchain : Toolchain
  pub dependencies : List Dependency
  pub services : List Service

pub record RepoAnalysis : Type 0 where
  pub name : String
  pub path : PathBuf
  pub packages : List Package
  pub dev_tools : DevTools
  pub checks : List Check

pub record ExtractionContext : Type 0 where
  pub repo : Repo
  pub manifests : List ParsedManifest
  pub task_files : List ParsedTaskFile
  pub cicd : List ParsedCiCdFile
  pub containers : List ParsedContainerFile

-- `HashSet::insert`
unfoldable pub set_insert : String → List String → List String
set_insert s set = if one_of s set then set else set ++ (s ∷ [])

unfoldable pub set_extend : List String → List String → List String
set_extend [] set = set
set_extend (s ∷ ss) set = set_extend ss (set_insert s set)

unfoldable pub task_deps : List ParsedTaskFile → List String → List String
task_deps [] deps = deps
task_deps (t ∷ ts) deps = task_deps ts (set_extend t.system_deps deps)

unfoldable pub container_deps : List ParsedContainerFile → List String → List String
container_deps [] deps = deps
container_deps (c ∷ cs) deps = container_deps cs (set_extend c.system_packages deps)

unfoldable pub as_dependencies : List String → List Dependency
as_dependencies [] = []
as_dependencies (name ∷ names) =
    record { name = name; version = default_version } ∷ as_dependencies names

unfoldable pub extract_dependencies : ExtractionContext → List Dependency
extract_dependencies ctx =
    as_dependencies (container_deps ctx.containers (task_deps ctx.task_files []))

-- The name and the version of an image; the version is what stands before the first `-`.
unfoldable pub image_of_parts : List String → String × Version
image_of_parts [] = ("", default_version)
image_of_parts (name ∷ []) = (name, default_version)
image_of_parts (name ∷ tag ∷ rest) = (name, docker (before b'-' tag))

unfoldable pub parse_image_tag : String → String × Version
parse_image_tag image = image_of_parts (split b':' image)

-- The first service of a name stays.
unfoldable pub add_image : String → HashMap Service → HashMap Service
add_image image m =
    let (name, version) = parse_image_tag image in
    or_insert name (record { name = name; version = version; config = none }) m

unfoldable pub ci_images : List CiService → HashMap Service → HashMap Service
ci_images [] m = m
ci_images (s ∷ ss) m = ci_images ss (add_image s.image m)

unfoldable pub job_images : List CiJob → HashMap Service → HashMap Service
job_images [] m = m
job_images (job ∷ jobs) m = job_images jobs (ci_images job.services m)

unfoldable pub cicd_images : List ParsedCiCdFile → HashMap Service → HashMap Service
cicd_images [] m = m
cicd_images (f ∷ fs) m = cicd_images fs (job_images f.jobs m)

unfoldable pub compose_images : List ContainerService → HashMap Service → HashMap Service
compose_images [] m = m
compose_images (s ∷ ss) m =
    compose_images ss (elim s.image [ some image ↦ add_image image m | none ↦ m ])

unfoldable pub container_images : List ParsedContainerFile → HashMap Service → HashMap Service
container_images [] m = m
container_images (c ∷ cs) m = container_images cs (compose_images c.services m)

unfoldable pub extract_services : ExtractionContext → List Service
extract_services ctx = values (container_images ctx.containers (cicd_images ctx.cicd []))

unfoldable pub cicd_env : List ParsedCiCdFile → HashMap String → HashMap String
cicd_env [] env = env
cicd_env (f ∷ fs) env = cicd_env fs (extend env f.env)

unfoldable pub container_env : List ParsedContainerFile → HashMap String → HashMap String
container_env [] env = env
container_env (c ∷ cs) env = container_env cs (extend env c.environment)

unfoldable pub extract_environment : ExtractionContext → HashMap String
extract_environment ctx = container_env ctx.containers (cicd_env ctx.cicd [])

unfoldable pub manifest_toolchain : ParsedManifest → Toolchain
manifest_toolchain m = record {
  language = language_of_manifest m.manifest_type;
  package_manager = manager_of_manifest m.manifest_type;
  version = version_from m.toolchain_version;
}

-- One package for a name in a manifest.
unfoldable pub named_packages :
    PathBuf → List Dependency → ParsedManifest → List String → List Package
named_packages path dependencies m [] = []
named_packages path dependencies m (name ∷ names) =
    record {
      name = name;
      path = path;
      toolchain = manifest_toolchain m;
      dependencies = dependencies;
      metadata = record {
        version = version_from m.version;
        description = m.metadata.description;
        authors = m.metadata.authors;
        license = m.metadata.license;
      };
    }
    ∷ named_packages path dependencies m names

unfoldable pub manifest_packages : PathBuf → List Dependency → List ParsedManifest → List Package
manifest_packages path dependencies [] = []
manifest_packages path dependencies (m ∷ ms) =
    named_packages path dependencies m m.names ++ manifest_packages path dependencies ms

-- `From<&ExtractionContext>` for `Packages`
unfoldable pub packages_of : ExtractionContext → List Package
packages_of ctx = manifest_packages ctx.repo.path (extract_dependencies ctx) ctx.manifests

-- `From<&ExtractionContext>` for `DevTools`
unfoldable pub dev_tools_of : ExtractionContext → DevTools
dev_tools_of ctx = record {
  tools = [];
  env = extract_environment ctx;
  shell_hook = none;
  dependencies = extract_dependencies ctx;
  services = extract_services ctx;
}
