-- ===== src/Repohub/Models.antt =====
-- repohub/src/models.rs and the row types of repohub/src/database.rs. Timestamps are the texts that
-- the database makes.
use procurator.Prelude.{ℕ, String, Option}

pub record UserRow : Type 0 where
  pub id : ℕ
  pub username : String
  pub email : Option String
  pub created_at : String

pub record ProjectRow : Type 0 where
  pub id : ℕ
  pub name : String
  pub owner_id : ℕ
  pub description : Option String
  pub created_at : String

pub record RepositoryRow : Type 0 where
  pub id : ℕ
  pub project_id : ℕ
  pub name : String
  pub git_url : String
  pub created_at : String

pub record ProjectMemberRow : Type 0 where
  pub project_id : ℕ
  pub user_id : ℕ
  pub role : String
  pub created_at : String

pub record User : Type 0 where
  pub id : ℕ
  pub username : String
  pub email : Option String
  pub created_at : String

pub record Project : Type 0 where
  pub id : ℕ
  pub name : String
  pub owner_id : ℕ
  pub description : Option String
  pub created_at : String

pub record Repository : Type 0 where
  pub id : ℕ
  pub project_id : ℕ
  pub name : String
  pub git_url : String
  pub created_at : String

-- The `From` conversions of rows.
unfoldable pub user_from : UserRow → User
user_from row = record {
  id = row.id;
  username = row.username;
  email = row.email;
  created_at = row.created_at;
}

unfoldable pub project_from : ProjectRow → Project
project_from row = record {
  id = row.id;
  name = row.name;
  owner_id = row.owner_id;
  description = row.description;
  created_at = row.created_at;
}

unfoldable pub repository_from : RepositoryRow → Repository
repository_from row = record {
  id = row.id;
  project_id = row.project_id;
  name = row.name;
  git_url = row.git_url;
  created_at = row.created_at;
}

pub record CreateUserRequest : Type 0 where
  pub username : String
  pub email : Option String

pub record CreateProjectRequest : Type 0 where
  pub name : String
  pub description : Option String

pub record CreateRepositoryRequest : Type 0 where
  pub name : String
  pub git_url : Option String
