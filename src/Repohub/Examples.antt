-- ===== src/Repohub/Examples.antt =====
-- A hub with a user and two projects, and its theorems at concrete inputs.
use procurator.Prelude.{
  String, ◌≡◌, refl, Bool, true, false, none, some, List, [], ◌∷◌, ◌++◌, arith, eq_iff, ap, str_eq,
  ◌||◌, ok, err,
}
use procurator.Prelude.Strings.{is_some, split, onto_first, join_with, strip_prefix, ends_with}
use procurator.RepoOutils.Git.{
  Output, CommandHost, bare_repo_path, to_ssh_url, join_path, create_bare_repo, or_git_error,
}
use procurator.RepoOutils.Flake.{FlakeJson}
use procurator.Repohub.Models.{UserRow, ProjectRow, CreateRepositoryRequest}
use procurator.Repohub.Database.{Tables, find_first}
use procurator.Repohub.Service.{
  RepositoryService, get_repo_path, create_or_clone, create_or_clone_repository, parent, from_parts,
  without_last, drop_idle, is_idle, ok_or_invalid_path,
}
use procurator.Repohub.Service.Existing.{MakesRepositories}
use procurator.Repohub.Http.{Template, StatusCode, Response, json_id}
use procurator.Repohub.Web.{Front, AppState, created, html_template}
use procurator.Repohub.Web.Changes.{create_repository}
use procurator.Repohub.Web.Pages.{repo}
use procurator.Repohub.Web.Routes.{Route}
use procurator.Repohub.Web.Names.{AllRefused, create_repository_once}
use procurator.Repohub.Web.Made.{create_repository_orphan, repo-create_repository}

abbrev exited : Output
exited = record { success = true; code = some 0; stdout = ""; stderr = "" }

-- A host that knows which paths were given to git.
abbrev holds : String → List String → Bool
holds p [] = false
holds p (q ∷ qs) = str_eq q p || holds p qs

abbrev disk : CommandHost
disk = record {
  World = List String;
  exists_path = holds;
  output = λ program args w. (ok exited, args ++ w);
  create_dir_all = λ dir w. (ok tt, w);
  remove_dir_all = λ dir w. (ok tt, []);
}

holds_self : (p : String) (w : List String) → holds p (p ∷ w) ≡ true
holds_self p w = ground (arith, eq_iff p p)

holds_cons : (p q : String) (w : List String) → holds p w ≡ true → holds p (q ∷ w) ≡ true
holds_cons p q w h = ground arith

disk-MakesRepositories : MakesRepositories disk
disk-MakesRepositories = record {
  init_makes = λ p w out made succeeded. holds_cons p "init" ("--bare" ∷ "--shared=group" ∷ p ∷ w) (
      holds_cons p "--bare" ("--shared=group" ∷ p ∷ w)
        (holds_cons p "--shared=group" (p ∷ w) (holds_self p w)));
  clone_makes = λ p remote_url w out made succeeded.
      holds_cons p "clone" ("--bare" ∷ remote_url ∷ p ∷ w) (
        holds_cons p "--bare" (remote_url ∷ p ∷ w)
          (holds_cons p remote_url (p ∷ w) (holds_self p w)));
  dirs_keep = λ p dir w there. there;
}

abbrev front : Front
front = record {
  texts = record { sqlx = λ e. "database error"; number = λ n. "1" };
  render = λ page. ok "page";
  repositories_json = λ repositories. ok "[]";
}

abbrev service : RepositoryService
service = record { repos_base_path = "/srv/git"; domain = "homelab" }

abbrev ana : UserRow
ana = record { id = 1; username = "ana"; email = none; created_at = "2025-01-01" }

abbrev site : ProjectRow
site = record { id = 1; name = "site"; owner_id = 1; description = none; created_at = "2025-01-01" }

abbrev tables : Tables
tables = record {
  users = ana ∷ [];
  projects = site ∷ record site { id = 2; name = "shop" } ∷ [];
  repositories = [];
  project_members = [];
  next_user = 2;
  next_project = 3;
  next_repository = 1;
}

-- The hub, with the statements that fail.
abbrev hub : List Bool → AppState disk
hub faults = record {
  db = record { tables = tables; faults = faults; now = "2025-01-02" };
  host = [];
}

abbrev api : CreateRepositoryRequest
api = record { name = "api"; git_url = none }

abbrev no_json : FlakeJson (Unit {0}) (Unit {0})
no_json = record {
  read_metadata = λ s. err "no JSON";
  read_show = λ s. err "no JSON";
  read_infrastructure = λ s. err "no JSON";
}

-- A new user, a refused one, a project and a page.
abbrev requests : List (Route (Unit {0}))
requests =
    Route.create_user (record { username = "bob"; email = none })
    ∷ Route.create_user (record { username = "ana"; email = none })
    ∷ Route.create_project "bob" (record { name = "site"; description = none })
    ∷ Route.project "bob" "site"
    ∷ []

-- The directory of a repository.
parent_example : parent "/srv/git//./ana/api.git" ≡ some "/srv/git//./ana"
unfolding parent from_parts without_last split onto_first drop_idle is_idle join_with
parent_example = refl

-- The URL that is stored.
abbrev api_url : String
api_url = "git@homelab:ana/api.git"

api_made : (create_or_clone_repository disk service "ana" "api" none []).0 ≡ ok api_url
unfolding create_or_clone_repository create_or_clone ok_or_invalid_path parent from_parts
    without_last split bare_repo_path join_path is_some strip_prefix get_repo_path ends_with
    onto_first drop_idle is_idle create_bare_repo or_git_error join_with to_ssh_url
api_made = refl

first_created :
    (create_repository disk front service "ana" "site" api (hub [])).0.status ≡ StatusCode.created
unfolding created find_first
first_created =
    ap (λ (r : Response). r.status)
      (repo-create_repository disk front service "ana" "site" api (hub []) ana site api_url refl
        refl api_made refl refl).0

create_repository_once_example :
    let r = create_repository disk front service "ana" "site" api (hub []) in
    AllRefused disk front service disk-MakesRepositories "ana" "api" (("shop", none) ∷ []) r.1
create_repository_once_example =
    create_repository_once disk front service disk-MakesRepositories "ana" "site" api (hub [])
      (("shop", none) ∷ []) first_created

create_repository_orphan_example :
    let r =
      create_repository disk front service "ana" "site" api (hub (false ∷ false ∷ true ∷ [])) in
    (r.0.status ≡ StatusCode.internal_server_error)
    × (r.1.db.tables ≡ tables)
    × AllRefused disk front service disk-MakesRepositories "ana" "api" (("site", none) ∷ []) r.1
unfolding find_first create_or_clone_repository
create_repository_orphan_example =
    create_repository_orphan disk front service "ana" "site" api (hub (false ∷ false ∷ true ∷ []))
      ana site api_url refl refl api_made disk-MakesRepositories [] (("site", none) ∷ []) refl

repo-create_repository_example :
    let r = create_repository disk front service "ana" "site" api (hub []) in
    (r.0 ≡ record { status = StatusCode.created; body = json_id 1 })
    × ((repo disk front "ana" "site" "api" r.1).0
        ≡ html_template front (
            Template.repository (record {
              username = "ana";
              project_name = "site";
              repo = record {
                id = 1;
                project_id = 1;
                name = "api";
                git_url = api_url;
                created_at = "2025-01-02";
              };
            })))
unfolding find_first
repo-create_repository_example =
    repo-create_repository disk front service "ana" "site" api (hub []) ana site api_url refl refl
      api_made refl refl
