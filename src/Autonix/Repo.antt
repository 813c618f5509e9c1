-- ===== src/Autonix/Repo.antt =====
-- autonix/src/repo: the scan of a repository's directories, what is extracted from the files found,
-- and the flake's configuration.
pub mod Paths
pub mod Scan
pub mod Tree
pub mod Found
pub mod Counts
pub mod Iteration
pub mod Missed
pub mod Analysis
pub mod Flake
pub mod Parser
pub mod Total
mod Examples
