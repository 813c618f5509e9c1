-- ===== src/RepoOutils.antt =====
-- The helpers around Nix and git: the reading of Nix's logs, and the git commands on bare repositories.
pub mod Logs
pub mod Git
pub mod Flake
pub mod Commands
mod Examples
