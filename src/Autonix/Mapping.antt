-- ===== src/Autonix/Mapping.antt =====
-- autonix/src/mapping: the files that tell what a repository needs, and what is read in them.
pub mod Languages
pub mod LockFiles
pub mod ParseErrors
pub mod Manifests
pub mod Tasks
pub mod CiCd
pub mod Containers
pub mod Versions
pub mod Kinds
pub mod Formats
mod Examples
