-- ===== src/Repohub.antt =====
-- The repository hub: users, their projects and repositories, in a database and as bare git
-- repositories, behind a web front end.
pub mod Models
pub mod Database
pub mod Configuration
pub mod Service
pub mod Http
pub mod Web
mod Examples
