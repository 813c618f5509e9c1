-- ===== src/Autonix/Mapping/LockFiles.antt =====
-- autonix/src/mapping/lockfiles.rs: the names of lock files.
use procurator.Prelude.{String, Option, none, some, str_eq, if◌then◌else◌}

pub data LockFile : Type 0 where
  cargo_lock : LockFile
  package_lock_json : LockFile
  yarn_lock : LockFile
  pnpm_lock_yaml : LockFile
  bun_lockb : LockFile
  pipfile_lock : LockFile
  poetry_lock : LockFile
  pdm_lock : LockFile
  uv_lock : LockFile
  go_sum : LockFile
  gradle_lockfile : LockFile
  packages_lock_json : LockFile
  gemfile_lock : LockFile
  composer_lock : LockFile

unfoldable pub lock_file_of : String → Option LockFile
lock_file_of filename =
    if str_eq filename "Cargo.lock"
    then some cargo_lock
    else if str_eq filename "package-lock.json"
    then some package_lock_json
    else if str_eq filename "yarn.lock"
    then some yarn_lock
    else if str_eq filename "pnpm-lock.yaml"
    then some pnpm_lock_yaml
    else if str_eq filename "bun.lockb"
    then some bun_lockb
    else if str_eq filename "Pipfile.lock"
    then some pipfile_lock
    else if str_eq filename "poetry.lock"
    then some poetry_lock
    else if str_eq filename "pdm.lock"
    then some pdm_lock
    else if str_eq filename "uv.lock"
    then some uv_lock
    else if str_eq filename "go.sum"
    then some go_sum
    else if str_eq filename "gradle.lockfile"
    then some gradle_lockfile
    else if str_eq filename "packages.lock.json"
    then some packages_lock_json
    else if str_eq filename "Gemfile.lock"
    then some gemfile_lock
    else if str_eq filename "composer.lock"
    then some composer_lock
    else none
