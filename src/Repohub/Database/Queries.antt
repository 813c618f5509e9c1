-- ===== src/Repohub/Database/Queries.antt =====
-- repohub/src/database.rs: the operations on users, projects, repositories and members.
use procurator.Prelude.{
  ℕ, suc, String, ◌<>◌, Option, List, [], ◌∷◌, ◌++◌, ◌==◌, not, ◌&&◌, if◌then◌else◌, retain, Result,
  ok, err, Eff, map_error,
}
use procurator.Prelude.Strings.{is_some}
use procurator.Repohub.Models.{UserRow, ProjectRow, RepositoryRow, ProjectMemberRow}
use procurator.Repohub.Database.{
  SqlxError, unique_violation, foreign_key_violation, DatabaseError, query, Texts, Tables, Database,
  statement, fetched, select, or_not_found, find_first, order_by, has_user, has_project, is_user,
  is_project, is_repository, is_member,
}

abbrev pub Action : Type 0 → Type 0
Action A = Eff Database DatabaseError A

-- Users: `username` is UNIQUE.
unfoldable pub insert_user : String → Option String → String → Tables → Result ℕ SqlxError × Tables
insert_user username email now t =
    if is_some (find_first (is_user username) t.users) then (err unique_violation, t) else (
      ok t.next_user,
      record t {
        users =
            t.users
            ++ (record { id = t.next_user; username = username; email = email; created_at = now }
                ∷ []);
        next_user = suc t.next_user;
      },
    )

unfoldable pub create_user : String → Option String → Action ℕ
create_user username email d = map_error query (statement (insert_user username email d.now)) d

unfoldable pub get_user_by_username : String → Action UserRow
get_user_by_username username =
    map_error (or_not_found ("User '" <> (username <> "' not found")))
      (select λ t. fetched (find_first (is_user username) t.users))

unfoldable pub get_user_by_id : Texts → ℕ → Action UserRow
get_user_by_id texts id =
    map_error (or_not_found ("User with id " <> (texts.number id <> " not found")))
      (select λ t. fetched (find_first (λ (r : UserRow). r.id == id) t.users))

unfoldable pub list_users : Action (List UserRow)
list_users = map_error query (select λ t. ok (order_by (λ (r : UserRow). r.username) t.users))

-- Projects: UNIQUE(owner_id, name), and `owner_id` is a foreign key.
unfoldable pub insert_project :
    String → ℕ → Option String → String → Tables → Result ℕ SqlxError × Tables
insert_project name owner_id description now t =
    if is_some (find_first (is_project owner_id name) t.projects)
    then (err unique_violation, t)
    else if not (has_user owner_id t)
    then (err foreign_key_violation, t)
    else (
      ok t.next_project,
      record t {
        projects =
            t.projects
            ++ (record {
              id = t.next_project;
              name = name;
              owner_id = owner_id;
              description = description;
              created_at = now;
            }
                ∷ []);
        next_project = suc t.next_project;
      },
    )

unfoldable pub create_project : String → ℕ → Option String → Action ℕ
create_project name owner_id description d =
    map_error query (statement (insert_project name owner_id description d.now)) d

unfoldable pub get_project : Texts → ℕ → String → Action ProjectRow
get_project texts owner_id project_name =
    map_error
      (or_not_found
        ("Project '" <> (project_name <> ("' not found for owner_id " <> texts.number owner_id))))
      (select λ t. fetched (find_first (is_project owner_id project_name) t.projects))

unfoldable pub list_projects_by_owner : ℕ → Action (List ProjectRow)
list_projects_by_owner owner_id = map_error query (
    select λ t. ok (
      order_by (λ (r : ProjectRow). r.name)
        (retain (λ (r : ProjectRow). r.owner_id == owner_id) t.projects)))

-- Repositories: UNIQUE(project_id, name), and `project_id` is a foreign key.
unfoldable pub insert_repository :
    ℕ → String → String → String → Tables → Result ℕ SqlxError × Tables
insert_repository project_id name git_url now t =
    if is_some (find_first (is_repository project_id name) t.repositories)
    then (err unique_violation, t)
    else if not (has_project project_id t)
    then (err foreign_key_violation, t)
    else (
      ok t.next_repository,
      record t {
        repositories =
            t.repositories
            ++ (record {
              id = t.next_repository;
              project_id = project_id;
              name = name;
              git_url = git_url;
              created_at = now;
            }
                ∷ []);
        next_repository = suc t.next_repository;
      },
    )

unfoldable pub create_repository : ℕ → String → String → Action ℕ
create_repository project_id name git_url d =
    map_error query (statement (insert_repository project_id name git_url d.now)) d

unfoldable pub get_repository : Texts → ℕ → String → Action RepositoryRow
get_repository texts project_id repo_name =
    map_error
      (or_not_found (
        "Repository '" <> (repo_name <> ("' not found in project_id " <> texts.number project_id))))
      (select λ t. fetched (find_first (is_repository project_id repo_name) t.repositories))

unfoldable pub list_repositories_by_project : ℕ → Action (List RepositoryRow)
list_repositories_by_project project_id = map_error query (
    select λ t. ok (
      order_by (λ (r : RepositoryRow). r.name)
        (retain (λ (r : RepositoryRow). r.project_id == project_id) t.repositories)))

-- Members: PRIMARY KEY (project_id, user_id), and both are foreign keys.
unfoldable pub insert_member :
    ℕ → ℕ → String → String → Tables → Result (Unit {0}) SqlxError × Tables
insert_member project_id user_id role now t =
    if is_some (find_first (is_member project_id user_id) t.project_members)
    then (err unique_violation, t)
    else if not (has_project project_id t && has_user user_id t)
    then (err foreign_key_violation, t)
    else (
      ok tt,
      record t {
        project_members =
            t.project_members
            ++ (record { project_id = project_id; user_id = user_id; role = role; created_at = now }
                ∷ []);
      },
    )

unfoldable pub add_project_member : ℕ → ℕ → String → Action (Unit {0})
add_project_member project_id user_id role d =
    map_error query (statement (insert_member project_id user_id role d.now)) d

unfoldable pub list_project_members : ℕ → Action (List ProjectMemberRow)
list_project_members project_id = map_error query (
    select
      λ t. ok (retain (λ (r : ProjectMemberRow). r.project_id == project_id) t.project_members))
