-- ===== src/Autonix/Mapping/Kinds.antt =====
-- manifests.rs: the language and the package manager of a manifest.
use procurator.Autonix.Mapping.Languages.{Language, PackageManager}
use procurator.Autonix.Mapping.Manifests.{
  ManifestFile, cargo_toml, package_json, pyproject_toml, setup_py, setup_cfg, requirements_txt,
  pipfile, python_version, runtime_txt, conda_yaml, environment_yml, go_mod, pom_xml, build_gradle,
  build_gradle_kts, build_sbt, csproj, fsproj, sln, gemfile, composer_json,
}

unfoldable pub language_of_manifest : ManifestFile → Language
language_of_manifest cargo_toml = Language.rust
language_of_manifest package_json = Language.java_script
language_of_manifest pyproject_toml = Language.python
language_of_manifest setup_py = Language.python
language_of_manifest setup_cfg = Language.python
language_of_manifest requirements_txt = Language.python
language_of_manifest pipfile = Language.python
language_of_manifest python_version = Language.python
language_of_manifest runtime_txt = Language.python
language_of_manifest conda_yaml = Language.python
language_of_manifest environment_yml = Language.python
language_of_manifest go_mod = Language.go
language_of_manifest pom_xml = Language.java
language_of_manifest build_gradle = Language.java
language_of_manifest build_gradle_kts = Language.java
language_of_manifest build_sbt = Language.java
language_of_manifest csproj = Language.c_sharp
language_of_manifest fsproj = Language.c_sharp
language_of_manifest sln = Language.c_sharp
language_of_manifest gemfile = Language.ruby
language_of_manifest composer_json = Language.php

unfoldable pub manager_of_manifest : ManifestFile → PackageManager
manager_of_manifest cargo_toml = PackageManager.cargo
manager_of_manifest package_json = PackageManager.npm
manager_of_manifest pyproject_toml = PackageManager.poetry
manager_of_manifest setup_py = PackageManager.pip
manager_of_manifest setup_cfg = PackageManager.pip
manager_of_manifest requirements_txt = PackageManager.pip
manager_of_manifest pipfile = PackageManager.pipenv
manager_of_manifest python_version = PackageManager.pip
manager_of_manifest runtime_txt = PackageManager.pip
manager_of_manifest conda_yaml = PackageManager.conda
manager_of_manifest environment_yml = PackageManager.conda
manager_of_manifest go_mod = PackageManager.go_modules
manager_of_manifest pom_xml = PackageManager.maven
manager_of_manifest build_gradle = PackageManager.gradle
manager_of_manifest build_gradle_kts = PackageManager.gradle
manager_of_manifest build_sbt = PackageManager.sbt
manager_of_manifest csproj = PackageManager.nuget
manager_of_manifest fsproj = PackageManager.nuget
manager_of_manifest sln = PackageManager.nuget
manager_of_manifest gemfile = PackageManager.bundler
manager_of_manifest composer_json = PackageManager.composer
