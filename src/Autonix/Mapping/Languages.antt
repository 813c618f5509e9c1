-- ===== src/Autonix/Mapping/Languages.antt =====
-- autonix/src/mapping/languages.rs: languages and package managers.
use procurator.Prelude.{String, Option, none, some, [], ◌∷◌, str_eq, if◌then◌else◌}
use procurator.Prelude.Strings.{one_of}

pub data Language : Type 0 where
  rust : Language
  java_script : Language
  python : Language
  go : Language
  java : Language
  c_sharp : Language
  ruby : Language
  php : Language
  c : Language
  bash : Language

unfoldable pub from_extension : String → Option Language
from_extension s =
    if str_eq s "rs"
    then some rust
    else if one_of s ("js" ∷ "jsx" ∷ "ts" ∷ "tsx" ∷ "mjs" ∷ "cjs" ∷ [])
    then some java_script
    else if str_eq s "py"
    then some python
    else if str_eq s "go"
    then some go
    else if one_of s ("java" ∷ "jar" ∷ "class" ∷ [])
    then some java
    else if one_of s ("cs" ∷ "fs" ∷ "vb" ∷ [])
    then some c_sharp
    else if str_eq s "rb"
    then some ruby
    else if str_eq s "php"
    then some php
    else if str_eq s "c"
    then some c
    else if str_eq s "sh"
    then some bash
    else none

-- `Display`
unfoldable pub language_name : Language → String
language_name rust = "rust"
language_name java_script = "javascript"
language_name python = "python3"
language_name go = "go"
language_name ruby = "ruby"
language_name java = "jdk"
language_name c_sharp = "dotnet-sdk"
language_name c = "c"
language_name php = "php"
language_name bash = "bash"

-- `Debug`
unfoldable pub language_debug : Language → String
language_debug rust = "Rust"
language_debug java_script = "JavaScript"
language_debug python = "Python"
language_debug go = "Go"
language_debug java = "Java"
language_debug c_sharp = "CSharp"
language_debug ruby = "Ruby"
language_debug php = "PHP"
language_debug c = "C"
language_debug bash = "Bash"

pub data PackageManager : Type 0 where
  cargo : PackageManager
  npm : PackageManager
  yarn : PackageManager
  pnpm : PackageManager
  bun : PackageManager
  pip : PackageManager
  pipenv : PackageManager
  poetry : PackageManager
  pdm : PackageManager
  uv : PackageManager
  conda : PackageManager
  go_modules : PackageManager
  maven : PackageManager
  gradle : PackageManager
  sbt : PackageManager
  nuget : PackageManager
  bundler : PackageManager
  composer : PackageManager

-- `Display`
unfoldable pub manager_name : PackageManager → String
manager_name cargo = "cargo"
manager_name npm = "npm"
manager_name yarn = "yarn"
manager_name pnpm = "pnpm"
manager_name bun = "bun"
manager_name poetry = "poetry"
manager_name pip = "pip"
manager_name pipenv = "pipenv"
manager_name pdm = "pdm"
manager_name uv = "uv"
manager_name conda = "conda"
manager_name go_modules = "go"
manager_name maven = "maven"
manager_name gradle = "gradle"
manager_name sbt = "sbt"
manager_name nuget = "nuget"
manager_name bundler = "bundler"
manager_name composer = "composer"

-- `TryFrom<&str>`
unfoldable pub manager_of : String → Option PackageManager
manager_of s =
    if str_eq s "cargo"
    then some cargo
    else if str_eq s "npm"
    then some npm
    else if str_eq s "yarn"
    then some yarn
    else if str_eq s "pnpm"
    then some pnpm
    else if str_eq s "bun"
    then some bun
    else if str_eq s "pip"
    then some pip
    else if str_eq s "pipenv"
    then some pipenv
    else if str_eq s "poetry"
    then some poetry
    else if str_eq s "pdm"
    then some pdm
    else if str_eq s "uv"
    then some uv
    else if str_eq s "conda"
    then some conda
    else if one_of s ("go" ∷ "go-modules" ∷ "gomod" ∷ [])
    then some go_modules
    else if one_of s ("maven" ∷ "mvn" ∷ [])
    then some maven
    else if str_eq s "gradle"
    then some gradle
    else if str_eq s "sbt"
    then some sbt
    else if str_eq s "nuget"
    then some nuget
    else if one_of s ("bundler" ∷ "bundle" ∷ [])
    then some bundler
    else if str_eq s "composer"
    then some composer
    else none
