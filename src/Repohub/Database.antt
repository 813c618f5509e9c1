-- ===== src/Repohub/Database.antt =====
-- repohub/src/database.rs: the tables and the statements on them. A statement may fail and then
-- changes nothing: beside the tables stands which of the next statements fail. An insert is refused
-- as the tables' definitions say, by UNIQUE, PRIMARY KEY and FOREIGN KEY.
pub mod Queries
pub mod Rows
pub mod Valid
use procurator.Prelude.{
  ℕ, zero, suc, String, ◌<>◌, Bool, true, false, not, ◌&&◌, ◌||◌, Option, none, some, List, [], ◌∷◌,
  ◌++◌, str_eq, ◌==◌, if◌then◌else◌, retain, Result, ok, err, map_err, Eff, map_error,
}
use procurator.Prelude.Strings.{is_some, text_leb}
use procurator.Repohub.Models.{UserRow, ProjectRow, RepositoryRow, ProjectMemberRow}

-- The errors of `sqlx` that the source and the tables tell apart.
pub data SqlxError : Type 0 where
  row_not_found : SqlxError
  unique_violation : SqlxError
  foreign_key_violation : SqlxError
  unavailable : SqlxError

pub data DatabaseError : Type 0 where
  connection : SqlxError → DatabaseError
  query : SqlxError → DatabaseError
  invalid_data : String → DatabaseError
  not_found : String → DatabaseError

-- How errors of `sqlx` and numbers are printed.
pub record Texts : Type 0 where
  pub sqlx : SqlxError → String
  pub number : ℕ → String

-- `Display`
unfoldable pub error_text : Texts → DatabaseError → String
error_text t (connection e) = "Database connection error: " <> t.sqlx e
error_text t (query e) = "Database query error: " <> t.sqlx e
error_text t (invalid_data msg) = "Invalid data: " <> msg
error_text t (not_found msg) = "Not found: " <> msg

-- The tables, and the ids that AUTOINCREMENT gives next.
pub record Tables : Type 0 where
  pub users : List UserRow
  pub projects : List ProjectRow
  pub repositories : List RepositoryRow
  pub project_members : List ProjectMemberRow
  pub next_user : ℕ
  pub next_project : ℕ
  pub next_repository : ℕ

-- `now` is what CURRENT_TIMESTAMP gives.
pub record Database : Type 0 where
  pub tables : Tables
  pub faults : List Bool
  pub now : String

unfoldable pub next_fault : List Bool → Bool
next_fault [] = false
next_fault (b ∷ rest) = b

unfoldable pub rest_faults : List Bool → List Bool
rest_faults [] = []
rest_faults (b ∷ rest) = rest

unfoldable pub statement :
    {A : Type 0} → (Tables → Result A SqlxError × Tables) → Eff Database SqlxError A
unfolding next_fault rest_faults
statement f d =
    if next_fault d.faults
    then (err unavailable, record d { faults = rest_faults d.faults })
    else ((f d.tables).0, record d { tables = (f d.tables).1; faults = rest_faults d.faults })

-- `fetch_one`, `fetch_all` and an `execute` that answers with an id.
unfoldable pub fetched : {A : Type 0} → Option A → Result A SqlxError
fetched none = err row_not_found
fetched (some a) = ok a

abbrev pub select : {A : Type 0} → (Tables → Result A SqlxError) → Eff Database SqlxError A
select f = statement (λ t. (f t, t))

-- What `get_user_by_username` and the like make of an error.
unfoldable pub or_not_found : String → SqlxError → DatabaseError
or_not_found msg row_not_found = not_found msg
or_not_found msg e = query e

unfoldable pub find_first {ℓ} : {A : Type ℓ} → (A → Bool) → List A → Option A
find_first p [] = none
find_first p (x ∷ xs) = if p x then some x else find_first p xs

-- ORDER BY a text
unfoldable pub insert_by {ℓ} : {A : Type ℓ} → (A → String) → A → List A → List A
insert_by key x [] = x ∷ []
insert_by key x (y ∷ ys) =
    let rest = insert_by key x ys in if text_leb (key x) (key y) then x ∷ y ∷ ys else y ∷ rest

unfoldable pub order_by {ℓ} : {A : Type ℓ} → (A → String) → List A → List A
order_by key [] = []
order_by key (x ∷ xs) = insert_by key x (order_by key xs)

-- A foreign key
unfoldable pub has_user : ℕ → Tables → Bool
has_user id t = is_some (find_first (λ (r : UserRow). r.id == id) t.users)

unfoldable pub has_project : ℕ → Tables → Bool
has_project id t = is_some (find_first (λ (r : ProjectRow). r.id == id) t.projects)

-- The conditions of the queries.
abbrev pub is_user : String → UserRow → Bool
is_user username r = str_eq r.username username

abbrev pub is_project : ℕ → String → ProjectRow → Bool
is_project owner_id name r = (r.owner_id == owner_id) && str_eq r.name name

abbrev pub is_repository : ℕ → String → RepositoryRow → Bool
is_repository project_id name r = (r.project_id == project_id) && str_eq r.name name

abbrev pub is_member : ℕ → ℕ → ProjectMemberRow → Bool
is_member project_id user_id r = (r.project_id == project_id) && (r.user_id == user_id)
