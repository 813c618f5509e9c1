-- ===== src/Autonix/Mapping/CiCd.antt =====
-- autonix/src/mapping/cicdfiles.rs: CI configuration files, and what is read in a GitHub workflow.
use procurator.Prelude.{
  String, ◌<>◌, Bool, ◌&&◌, ◌||◌, Option, none, some, List, [], ◌∷◌, str_eq, if◌then◌else◌, Result,
  ok, and_then, map_err,
}
use mathlib.Core.Option
use procurator.Prelude.HashMap.{HashMap, extend}
use procurator.Prelude.Strings.{one_of, ends_with, contains}
use procurator.Autonix.Mapping.ParseErrors.{ParseError, io, invalid_format}

pub data CiCdFile : Type 0 where
  github_actions : CiCdFile
  gitlab_ci : CiCdFile
  circle_ci : CiCdFile
  travis_ci : CiCdFile
  jenkinsfile : CiCdFile
  azure_pipelines : CiCdFile
  bitbucket_pipelines : CiCdFile
  drone_ci : CiCdFile
  buildkite : CiCdFile
  app_veyor : CiCdFile
  wercker : CiCdFile

pub record CiStep : Type 0 where
  pub name : Option String
  pub run : Option String

pub record CiService : Type 0 where
  pub name : String
  pub image : String
  pub env : HashMap String

pub record CiJob : Type 0 where
  pub name : String
  pub steps : List CiStep
  pub services : List CiService
  pub env : HashMap String

pub record ParsedCiCdFile : Type 0 where
  pub jobs : List CiJob
  pub env : HashMap String

-- `serde_yaml_ng::Value`; a number is its text.
pub data YamlValue : Type 0 where
  string : String → YamlValue
  number : String → YamlValue
  bool : Bool → YamlValue
  complex : YamlValue

pub record GithubService : Type 0 where
  pub image : String
  pub env : HashMap YamlValue

pub record GithubJob : Type 0 where
  pub name : Option String
  pub steps : List CiStep
  pub services : HashMap GithubService
  pub env : HashMap YamlValue

pub record GithubWorkflow : Type 0 where
  pub env : HashMap YamlValue
  pub jobs : HashMap GithubJob

unfoldable pub env_text : YamlValue → Option String
env_text (string s) = some s
env_text (number n) = some n
env_text (bool b) = some (if b then "true" else "false")
env_text complex = none

unfoldable pub env_entries : HashMap YamlValue → List (String × String)
env_entries [] = []
env_entries ((k, v) ∷ m) =
    let rest = env_entries m in elim (env_text v) [ some s ↦ (k, s) ∷ rest | none ↦ rest ]

unfoldable pub extract_env_map : HashMap YamlValue → HashMap String
extract_env_map m = extend [] (env_entries m)

-- Only a step that runs something is kept.
unfoldable pub job_steps : List CiStep → List CiStep
job_steps [] = []
job_steps (s ∷ steps) =
    let rest = job_steps steps in
    elim s.run [ some run ↦ record s { run = some run } ∷ rest | none ↦ rest ]

unfoldable pub job_services : HashMap GithubService → List CiService
job_services [] = []
job_services ((name, s) ∷ services) =
    record { name = name; image = s.image; env = extract_env_map s.env } ∷ job_services services

unfoldable pub ci_jobs : HashMap GithubJob → List CiJob
ci_jobs [] = []
ci_jobs ((job_id, job) ∷ jobs) =
    record {
      name = Option.get_or job.name job_id;
      steps = job_steps job.steps;
      services = job_services job.services;
      env = extract_env_map job.env;
    }
    ∷ ci_jobs jobs

unfoldable pub of_workflow : GithubWorkflow → ParsedCiCdFile
of_workflow w = record { jobs = ci_jobs w.jobs; env = extract_env_map w.env }

-- `Parseable::parse`, for the deserialiser of workflows.
unfoldable pub parse_ci_cd :
    (String → Result GithubWorkflow String)
    → CiCdFile
    → Result String String
    → Result ParsedCiCdFile ParseError
parse_ci_cd yaml github_actions read = and_then (map_err io read) λ content.
    and_then (map_err (λ e. invalid_format ("GitHub Actions parse error: " <> e)) (yaml content))
      λ w. ok (of_workflow w)
parse_ci_cd yaml other read =
    and_then (map_err io read) λ content. ok (record { jobs = []; env = [] })

abbrev is_yaml : String → Bool
is_yaml path = ends_with path ".yml" || ends_with path ".yaml"

-- The matches on the whole path, and then on its end.
unfoldable pub ci_by_name : String → Option CiCdFile
ci_by_name path =
    if one_of path (".gitlab-ci.yml" ∷ ".gitlab-ci.yaml" ∷ [])
    then some gitlab_ci
    else if str_eq path ".travis.yml"
    then some travis_ci
    else if str_eq path "Jenkinsfile"
    then some jenkinsfile
    else if one_of path ("azure-pipelines.yml" ∷ "azure-pipelines.yaml" ∷ [])
    then some azure_pipelines
    else if str_eq path "bitbucket-pipelines.yml"
    then some bitbucket_pipelines
    else if one_of path (".drone.yml" ∷ ".drone.yaml" ∷ [])
    then some drone_ci
    else if one_of path ("buildkite.yml" ∷ "buildkite.yaml" ∷ [])
    then some buildkite
    else if one_of path ("appveyor.yml" ∷ ".appveyor.yml" ∷ [])
    then some app_veyor
    else if str_eq path "wercker.yml"
    then some wercker
    else none

unfoldable pub ci_by_suffix : String → Option CiCdFile
ci_by_suffix path =
    if ends_with path ".gitlab-ci.yml" || ends_with path ".gitlab-ci.yaml"
    then some gitlab_ci
    else if ends_with path ".travis.yml"
    then some travis_ci
    else if ends_with path "azure-pipelines.yml" || ends_with path "azure-pipelines.yaml"
    then some azure_pipelines
    else if ends_with path "bitbucket-pipelines.yml"
    then some bitbucket_pipelines
    else if ends_with path ".drone.yml" || ends_with path ".drone.yaml"
    then some drone_ci
    else if ends_with path "buildkite.yml" || ends_with path "buildkite.yaml"
    then some buildkite
    else if ends_with path "appveyor.yml" || ends_with path ".appveyor.yml"
    then some app_veyor
    else if ends_with path "wercker.yml"
    then some wercker
    else if ends_with path "Jenkinsfile"
    then some jenkinsfile
    else none

-- `TryFrom<&str>`
unfoldable pub ci_cd_file_of : String → Option CiCdFile
ci_cd_file_of path =
    if contains path ".github/workflows/" && is_yaml path
    then some github_actions
    else if contains path ".circleci/" && is_yaml path
    then some circle_ci
    else if contains path ".buildkite/" && is_yaml path
    then some buildkite
    else if contains path "Jenkinsfile"
    then some jenkinsfile
    else elim (ci_by_name path) [ some f ↦ some f | none ↦ ci_by_suffix path ]
