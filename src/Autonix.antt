-- ===== src/Autonix.antt =====
-- Autonix reads what a repository declares: the versions in its manifests (Version), the files that
-- tell what it needs (Mapping), its directories and what a flake is made of (Repo).
pub mod Version
pub mod Mapping
pub mod Repo
mod Examples
