-- ===== src/Repohub/Web/Entered/Rows.antt =====
-- repohub/src/database.rs: the row that an insertion enters.
use procurator.Prelude.{
  ℕ, suc, String, ◌≡◌, refl, ◌⊎◌, inl, inr, [], ◌∷◌, ◌++◌, arith, Bool-cases, Result, ok, err,
  map_error,
}
use procurator.Repohub.Models.{CreateUserRequest, CreateProjectRequest, CreateRepositoryRequest}
use procurator.Repohub.Database.{
  SqlxError, Tables, Database, DatabaseError, query, statement, next_fault,
}
use procurator.Repohub.Database.Queries
use procurator.Repohub.Database.Queries.{insert_user, insert_project, insert_repository}

-- The tables with one row more.
abbrev pub with_user : CreateUserRequest → String → Tables → Tables
with_user req now t = record t {
  users =
      t.users
      ++ (record { id = t.next_user; username = req.username; email = req.email; created_at = now }
          ∷ []);
  next_user = suc t.next_user;
}

abbrev pub with_project : CreateProjectRequest → ℕ → String → Tables → Tables
with_project req owner_id now t = record t {
  projects =
      t.projects
      ++ (record {
        id = t.next_project;
        name = req.name;
        owner_id = owner_id;
        description = req.description;
        created_at = now;
      }
          ∷ []);
  next_project = suc t.next_project;
}

abbrev pub with_repository : CreateRepositoryRequest → ℕ → String → String → Tables → Tables
with_repository req project_id git_url now t = record t {
  repositories =
      t.repositories
      ++ (record {
        id = t.next_repository;
        project_id = project_id;
        name = req.name;
        git_url = git_url;
        created_at = now;
      }
          ∷ []);
  next_repository = suc t.next_repository;
}

-- A statement fails and changes nothing, or gives the id and the new tables.
abbrev Inserts : ℕ → Tables → Tables → Result ℕ SqlxError × Tables → Type 0
Inserts n t t' q = ((e : SqlxError) × (q.0 ≡ err e) × (q.1 ≡ t)) ⊎ ((q.0 ≡ ok n) × (q.1 ≡ t'))

insert_user-Inserts :
    (req : CreateUserRequest) (now : String) (t : Tables)
    → Inserts t.next_user t (with_user req now t) (insert_user req.username req.email now t)
unfolding insert_user
insert_user-Inserts req now t = ground arith

insert_project-Inserts :
    (req : CreateProjectRequest) (id : ℕ) (now : String) (t : Tables)
    → Inserts t.next_project t
        (with_project req id now t)
        (insert_project req.name id req.description now t)
unfolding insert_project
insert_project-Inserts req id now t = ground arith

insert_repository-Inserts :
    (req : CreateRepositoryRequest) (id : ℕ) (url now : String) (t : Tables)
    → Inserts t.next_repository t
        (with_repository req id url now t)
        (insert_repository id req.name url now t)
unfolding insert_repository
insert_repository-Inserts req id url now t = ground arith

-- So does a query of the database.
abbrev pub Adds : ℕ → Tables → Tables → Result ℕ DatabaseError × Database → Type 0
Adds n t t' q =
    ((e : DatabaseError) × (q.0 ≡ err e) × (q.1.tables ≡ t)) ⊎ ((q.0 ≡ ok n) × (q.1.tables ≡ t'))

statement-Adds :
    (f : Tables → Result ℕ SqlxError × Tables) (n : ℕ) (t' : Tables) (d : Database)
    → Inserts n d.tables t' (f d.tables)
    → Adds n d.tables t' (map_error query (statement f) d)
unfolding statement
statement-Adds f n t' d h = elim (Bool-cases (next_fault d.faults)) [
  | inl e ↦ inl (query SqlxError.unavailable, rw e refl, rw e refl)
  | inr e ↦ elim h [
    | inl (x, p, q) ↦ inl (query x, rw (e, p) refl, rw (e, q) refl)
    | inr (p, q) ↦ inr (rw (e, p) refl, rw (e, q) refl)
  ]
]

pub create_user-Adds :
    (req : CreateUserRequest) (d : Database)
    → Adds d.tables.next_user d.tables
        (with_user req d.now d.tables)
        (Queries.create_user req.username req.email d)
unfolding Queries.create_user
create_user-Adds req d = statement-Adds _ _ _ d (insert_user-Inserts req d.now d.tables)

pub create_project-Adds :
    (req : CreateProjectRequest) (id : ℕ) (d : Database)
    → Adds d.tables.next_project d.tables
        (with_project req id d.now d.tables)
        (Queries.create_project req.name id req.description d)
unfolding Queries.create_project
create_project-Adds req id d = statement-Adds _ _ _ d (insert_project-Inserts req id d.now d.tables)

pub create_repository-Adds :
    (req : CreateRepositoryRequest) (id : ℕ) (url : String) (d : Database)
    → Adds d.tables.next_repository d.tables
        (with_repository req id url d.now d.tables)
        (Queries.create_repository id req.name url d)
unfolding Queries.create_repository
create_repository-Adds req id url d =
    statement-Adds _ _ _ d (insert_repository-Inserts req id url d.now d.tables)
