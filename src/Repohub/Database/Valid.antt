-- ===== src/Repohub/Database/Valid.antt =====
-- repohub/src/database.rs: the constraints of the tables hold after every operation.
use procurator.Prelude.{
  ℕ, suc, ◌<◌, String, ◌≡◌, refl, inl, inr, Bool, true, ◌&&◌, Option, none, List, [], ◌∷◌, ◌++◌,
  arith, ◌==◌, Bool-cases, All, All-append, Result,
}
use procurator.Prelude.Strings.{is_some}
use procurator.Repohub.Models.{UserRow, ProjectRow, RepositoryRow, ProjectMemberRow}
use procurator.Repohub.Database.{
  SqlxError, Tables, Database, statement, find_first, has_user, has_project, is_user, is_project,
  is_repository, is_member, next_fault,
}
use procurator.Repohub.Database.Rows.{
  Distinct, Distinct-append, All-weaken, is_some-none, has-append, str_eq_comm, and-comm-eq,
  ids-append,
}
use procurator.Repohub.Database.Queries.{
  insert_user, insert_project, insert_repository, insert_member,
}

abbrev pub same_user : UserRow → UserRow → Bool
same_user r = is_user r.username

abbrev pub same_project : ProjectRow → ProjectRow → Bool
same_project r = is_project r.owner_id r.name

abbrev pub same_repository : RepositoryRow → RepositoryRow → Bool
same_repository r = is_repository r.project_id r.name

abbrev pub same_member : ProjectMemberRow → ProjectMemberRow → Bool
same_member r = is_member r.project_id r.user_id

-- UNIQUE and PRIMARY KEY; every reference is to a row; ids are below the next one.
pub record IsValid (t : Tables) : Type 0 where
  pub usernames : Distinct same_user t.users
  pub project_names : Distinct same_project t.projects
  pub repository_names : Distinct same_repository t.repositories
  pub members : Distinct same_member t.project_members
  pub user_ids : All (λ (r : UserRow). r.id < t.next_user) t.users
  pub project_ids : All (λ (r : ProjectRow). r.id < t.next_project) t.projects
  pub repository_ids : All (λ (r : RepositoryRow). r.id < t.next_repository) t.repositories
  pub owners : All (λ (r : ProjectRow). has_user r.owner_id t ≡ true) t.projects
  pub parents : All (λ (r : RepositoryRow). has_project r.project_id t ≡ true) t.repositories
  pub member_projects :
      All (λ (r : ProjectMemberRow). has_project r.project_id t ≡ true) t.project_members
  pub member_users : All (λ (r : ProjectMemberRow). has_user r.user_id t ≡ true) t.project_members

has_user-append :
    (id : ℕ) (t : Tables) (row : UserRow) (n : ℕ)
    → has_user id t ≡ true
    → has_user id (record t { users = t.users ++ (row ∷ []); next_user = n }) ≡ true
unfolding has_user
has_user-append id t row n has = has-append (λ (u : UserRow). u.id == id) t.users row has

has_project-append :
    (id : ℕ) (t : Tables) (row : ProjectRow) (n : ℕ)
    → has_project id t ≡ true
    → has_project id (record t { projects = t.projects ++ (row ∷ []); next_project = n }) ≡ true
unfolding has_project
has_project-append id t row n has = has-append (λ (p : ProjectRow). p.id == id) t.projects row has

has_project-users :
    (id : ℕ) (t : Tables) (users : List UserRow) (n : ℕ)
    → has_project id t ≡ true
    → has_project id (record t { users = users; next_user = n }) ≡ true
unfolding has_project
has_project-users id t users n has = has

with_user-IsValid :
    (row : UserRow) (t : Tables)
    → row.id ≡ t.next_user
    → find_first (same_user row) t.users ≡ none
    → IsValid t
    → IsValid (record t { users = t.users ++ (row ∷ []); next_user = suc t.next_user })
with_user-IsValid row t id fresh v = record {
  usernames =
      Distinct-append same_user (λ a b. str_eq_comm b.username a.username) t.users row fresh
        v.usernames;
  project_names = v.project_names;
  repository_names = v.repository_names;
  members = v.members;
  user_ids = ids-append (λ (r : UserRow). r.id) t.next_user t.users row id v.user_ids;
  project_ids = v.project_ids;
  repository_ids = v.repository_ids;
  owners =
      All-weaken (λ (r : ProjectRow). has_user r.owner_id t ≡ true) _
        (λ r. has_user-append r.owner_id t row (suc t.next_user)) t.projects v.owners;
  parents =
      All-weaken (λ (r : RepositoryRow). has_project r.project_id t ≡ true) _
        (λ r. has_project-users r.project_id t _ _) t.repositories v.parents;
  member_projects =
      All-weaken (λ (r : ProjectMemberRow). has_project r.project_id t ≡ true) _
        (λ r. has_project-users r.project_id t _ _) t.project_members v.member_projects;
  member_users =
      All-weaken (λ (r : ProjectMemberRow). has_user r.user_id t ≡ true) _
        (λ r. has_user-append r.user_id t row (suc t.next_user)) t.project_members v.member_users;
}

with_project-IsValid :
    (row : ProjectRow) (t : Tables)
    → row.id ≡ t.next_project
    → find_first (same_project row) t.projects ≡ none
    → has_user row.owner_id t ≡ true
    → IsValid t
    → IsValid (record t { projects = t.projects ++ (row ∷ []); next_project = suc t.next_project })
unfolding has_user
with_project-IsValid row t id fresh present v = record {
  usernames = v.usernames;
  project_names =
      Distinct-append same_project (λ a b. and-comm-eq b.owner_id a.owner_id b.name a.name)
        t.projects row fresh v.project_names;
  repository_names = v.repository_names;
  members = v.members;
  user_ids = v.user_ids;
  project_ids =
      ids-append (λ (r : ProjectRow). r.id) t.next_project t.projects row id v.project_ids;
  repository_ids = v.repository_ids;
  owners =
      All-append (λ (r : ProjectRow). has_user r.owner_id t ≡ true) t.projects (row ∷ []) v.owners
        (present, tt);
  parents =
      All-weaken (λ (r : RepositoryRow). has_project r.project_id t ≡ true) _
        (λ r. has_project-append r.project_id t row (suc t.next_project)) t.repositories v.parents;
  member_projects =
      All-weaken (λ (r : ProjectMemberRow). has_project r.project_id t ≡ true) _
        (λ r. has_project-append r.project_id t row (suc t.next_project)) t.project_members
        v.member_projects;
  member_users = v.member_users;
}

with_repository-IsValid :
    (row : RepositoryRow) (t : Tables)
    → row.id ≡ t.next_repository
    → find_first (same_repository row) t.repositories ≡ none
    → has_project row.project_id t ≡ true
    → IsValid t
    → IsValid (record t {
      repositories = t.repositories ++ (row ∷ []);
      next_repository = suc t.next_repository;
    })
unfolding has_user has_project
with_repository-IsValid row t id fresh present v = record {
  usernames = v.usernames;
  project_names = v.project_names;
  repository_names =
      Distinct-append same_repository (λ a b. and-comm-eq b.project_id a.project_id b.name a.name)
        t.repositories row fresh v.repository_names;
  members = v.members;
  user_ids = v.user_ids;
  project_ids = v.project_ids;
  repository_ids =
      ids-append (λ (r : RepositoryRow). r.id) t.next_repository t.repositories row id
        v.repository_ids;
  owners = v.owners;
  parents =
      All-append (λ (r : RepositoryRow). has_project r.project_id t ≡ true) t.repositories
        (row ∷ []) v.parents (present, tt);
  member_projects = v.member_projects;
  member_users = v.member_users;
}

with_member-IsValid :
    (row : ProjectMemberRow) (t : Tables)
    → find_first (same_member row) t.project_members ≡ none
    → has_project row.project_id t ≡ true
    → has_user row.user_id t ≡ true
    → IsValid t
    → IsValid (record t { project_members = t.project_members ++ (row ∷ []) })
unfolding has_user has_project
with_member-IsValid row t fresh project user v = record {
  usernames = v.usernames;
  project_names = v.project_names;
  repository_names = v.repository_names;
  members = Distinct-append same_member (λ a b. ground arith) t.project_members row fresh v.members;
  user_ids = v.user_ids;
  project_ids = v.project_ids;
  repository_ids = v.repository_ids;
  owners = v.owners;
  parents = v.parents;
  member_projects =
      All-append (λ (r : ProjectMemberRow). has_project r.project_id t ≡ true) t.project_members
        (row ∷ []) v.member_projects (project, tt);
  member_users =
      All-append (λ (r : ProjectMemberRow). has_user r.user_id t ≡ true) t.project_members
        (row ∷ []) v.member_users (user, tt);
}

pub insert_user-IsValid :
    (name : String) (email : Option String) (now : String) (t : Tables)
    → IsValid t
    → IsValid (insert_user name email now t).1
unfolding insert_user
insert_user-IsValid name email now t v =
    elim (Bool-cases (is_some (find_first (is_user name) t.users))) [
      | inl e ↦ rw e v
      | inr e ↦ rw e (with_user-IsValid _ t refl (is_some-none _ e) v)
    ]

pub insert_project-IsValid :
    (name : String) (owner_id : ℕ) (description : Option String) (now : String) (t : Tables)
    → IsValid t
    → IsValid (insert_project name owner_id description now t).1
unfolding insert_project
insert_project-IsValid name owner_id description now t v =
    elim (Bool-cases (is_some (find_first (is_project owner_id name) t.projects))) [
      | inl e ↦ rw e v
      | inr e ↦ elim (Bool-cases (has_user owner_id t)) [
        | inl h ↦ rw (e, h) (with_project-IsValid _ t refl (is_some-none _ e) h v)
        | inr h ↦ rw (e, h) v
      ]
    ]

pub insert_repository-IsValid :
    (project_id : ℕ) (name git_url now : String) (t : Tables)
    → IsValid t
    → IsValid (insert_repository project_id name git_url now t).1
unfolding insert_repository
insert_repository-IsValid project_id name git_url now t v =
    elim (Bool-cases (is_some (find_first (is_repository project_id name) t.repositories))) [
      | inl e ↦ rw e v
      | inr e ↦ elim (Bool-cases (has_project project_id t)) [
        | inl h ↦ rw (e, h) (with_repository-IsValid _ t refl (is_some-none _ e) h v)
        | inr h ↦ rw (e, h) v
      ]
    ]

pub insert_member-IsValid :
    (project_id user_id : ℕ) (role now : String) (t : Tables)
    → IsValid t
    → IsValid (insert_member project_id user_id role now t).1
unfolding insert_member
insert_member-IsValid project_id user_id role now t v =
    elim (Bool-cases (is_some (find_first (is_member project_id user_id) t.project_members))) [
      | inl e ↦ rw e v
      | inr e ↦ elim (Bool-cases (has_project project_id t && has_user user_id t)) [
        | inl h ↦
            rw (e, h) (with_member-IsValid _ t (is_some-none _ e) (ground arith) (ground arith) v)
        | inr h ↦ rw (e, h) v
      ]
    ]

-- A statement that keeps the constraints on the tables keeps them in the database.
pub statement-IsValid :
    {A : Type 0} (f : Tables → Result A SqlxError × Tables) (d : Database)
    → IsValid d.tables
    → IsValid (f d.tables).1
    → IsValid (statement f d).1.tables
unfolding statement
statement-IsValid f d v kept = elim (Bool-cases (next_fault d.faults)) [
  | inl e ↦ rw e v
  | inr e ↦ rw e kept
]
