-- ===== src/Autonix/Mapping/Manifests/Parse.antt =====
-- manifests.rs: what is taken from a manifest. A file is what reading it gives.
use procurator.Prelude.{
  String, Option, none, some, List, [], ◌∷◌, ◌++◌, map, Result, ok, and_then, map_err,
}
use procurator.Prelude.HashMap.{keys}
use procurator.Prelude.Strings.{trim, lines, strip_prefix}
use procurator.Autonix.Mapping.ParseErrors.{ParseError, io, toml, json}
use procurator.Autonix.Mapping.Manifests.{
  ManifestFile, cargo_toml, package_json, pyproject_toml, go_mod, python_version, runtime_txt,
  ManifestMetadata, ParsedManifest, CargoPackage, CargoToml, PackageJsonWorkspaces, array, object,
  PackageJsonBin, single, multiple, PackageJson, PythonAuthor, PythonLicense, PythonProject,
}
use procurator.Autonix.Mapping.Formats.{Formats}

abbrev default_metadata : ManifestMetadata
default_metadata = record { description = none; authors = []; license = none }

abbrev default_manifest : ParsedManifest
default_manifest = record {
  manifest_type = cargo_toml;
  names = [];
  version = none;
  workspace_members = [];
  metadata = default_metadata;
  entry_points = [];
  scripts = [];
  toolchain_version = none;
}

-- `unwrap_or_default` of lists and maps.
abbrev or_empty : {A : Type 0} → Option (List A) → List A
or_empty none = []
or_empty (some xs) = xs

unfoldable pub with_package : Option CargoPackage → ParsedManifest → ParsedManifest
with_package none m = m
with_package (some pkg) m = record m {
  names = m.names ++ (pkg.name ∷ []);
  version = some pkg.version;
  metadata = record {
    description = pkg.description;
    authors = or_empty pkg.authors;
    license = pkg.license;
  };
  toolchain_version = pkg.edition;
}

unfoldable pub with_workspace : Option (Option (List String)) → ParsedManifest → ParsedManifest
with_workspace none m = m
with_workspace (some members) m = record m { workspace_members = or_empty members }

unfoldable pub with_bins : Option (List String) → ParsedManifest → ParsedManifest
with_bins none m = m
with_bins (some bins) m = record m { entry_points = bins }

-- `From<CargoToml>`
unfoldable pub manifest_of_cargo : CargoToml → ParsedManifest
manifest_of_cargo cargo =
    with_bins cargo.bins
      (with_workspace cargo.workspace (with_package cargo.cargo_package default_manifest))

unfoldable pub workspace_paths : Option PackageJsonWorkspaces → List String
workspace_paths none = []
workspace_paths (some (array arr)) = arr
workspace_paths (some (object packages)) = packages

unfoldable pub bin_names : Option PackageJsonBin → List String
bin_names none = []
bin_names (some (single s)) = s ∷ []
bin_names (some (multiple m)) = keys m

abbrev as_list : {A : Type 0} → Option A → List A
as_list none = []
as_list (some a) = a ∷ []

abbrev flatten : {A : Type 0} → Option (Option A) → Option A
flatten none = none
flatten (some a) = a

-- `From<PackageJson>`
unfoldable pub manifest_of_package_json : PackageJson → ParsedManifest
manifest_of_package_json pkg = record {
  manifest_type = package_json;
  names = pkg.name ∷ [];
  version = pkg.version;
  workspace_members = workspace_paths pkg.workspaces;
  metadata = record {
    description = pkg.description;
    authors = as_list pkg.author;
    license = pkg.license;
  };
  entry_points = bin_names pkg.bin;
  scripts = or_empty pkg.scripts;
  toolchain_version = flatten pkg.engines;
}

unfoldable pub author_name : PythonAuthor → String
author_name (PythonAuthor.simple s) = s
author_name (PythonAuthor.detailed name email) = name

unfoldable pub license_text : Option PythonLicense → Option String
license_text none = none
license_text (some (PythonLicense.simple s)) = some s
license_text (some (PythonLicense.detailed text file)) = text

-- `From<PythonProject>`
unfoldable pub manifest_of_python : PythonProject → ParsedManifest
manifest_of_python project = record {
  manifest_type = pyproject_toml;
  names = project.name ∷ [];
  version = project.version;
  workspace_members = [];
  metadata = record {
    description = project.description;
    authors = map author_name (or_empty project.authors);
    license = license_text project.license;
  };
  entry_points = keys (or_empty project.scripts);
  scripts = or_empty project.scripts;
  toolchain_version = project.requires_python;
}

-- One line of go.mod: a module, or the version of go.
unfoldable pub go_mod_line : String → ParsedManifest → ParsedManifest
go_mod_line line m = elim (strip_prefix (trim line) "module ") [
  | some name ↦ record m { names = m.names ++ (trim name ∷ []) }
  | none ↦ elim (strip_prefix (trim line) "go ") [
    | some version ↦ record m { toolchain_version = some (trim version) }
    | none ↦ m
  ]
]

unfoldable pub go_mod_lines : List String → ParsedManifest → ParsedManifest
go_mod_lines [] m = m
go_mod_lines (line ∷ rest) m = go_mod_lines rest (go_mod_line line m)

unfoldable pub parse_go_mod : String → ManifestFile → ParsedManifest
parse_go_mod content manifest_type =
    go_mod_lines (lines content) (record default_manifest { manifest_type = manifest_type })

abbrev of_type : ManifestFile → ParsedManifest → ParsedManifest
of_type manifest_type m = record m { manifest_type = manifest_type }

module _ (F : Formats) where
  -- The four parsers set the type of the file that they were given.
  unfoldable pub parse_cargo_toml : String → ManifestFile → Result ParsedManifest ParseError
  parse_cargo_toml content t =
      and_then (map_err toml (F.cargo_toml content)) λ c. ok (of_type t (manifest_of_cargo c))

  unfoldable pub parse_package_json : String → ManifestFile → Result ParsedManifest ParseError
  parse_package_json content t =
      and_then (map_err json (F.package_json content))
        λ p. ok (of_type t (manifest_of_package_json p))

  unfoldable pub parse_pyproject_toml : String → ManifestFile → Result ParsedManifest ParseError
  parse_pyproject_toml content t = and_then (map_err toml (F.pyproject_toml content)) λ p. elim p [
    | some project ↦ ok (of_type t (manifest_of_python project))
    | none ↦ ok (of_type t default_manifest)
  ]

  unfoldable pub parse_content : ManifestFile → String → Result ParsedManifest ParseError
  parse_content cargo_toml content = parse_cargo_toml content cargo_toml
  parse_content package_json content = parse_package_json content package_json
  parse_content pyproject_toml content = parse_pyproject_toml content pyproject_toml
  parse_content go_mod content = ok (parse_go_mod content go_mod)
  parse_content python_version content = ok (record default_manifest {
    manifest_type = python_version;
    toolchain_version = some (trim content);
  })
  parse_content runtime_txt content = ok (record default_manifest {
    manifest_type = runtime_txt;
    toolchain_version = some (trim content);
  })
  parse_content other content = ok (of_type other default_manifest)

  -- `Parseable::parse`
  unfoldable pub parse_manifest :
      ManifestFile → Result String String → Result ParsedManifest ParseError
  parse_manifest file read = and_then (map_err io read) (parse_content file)
