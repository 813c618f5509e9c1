-- ===== src/Ci.antt =====
-- The CI service: builds, their queue in a database, and the worker that runs them.
pub mod Builds
pub mod Rows
pub mod Queue
pub mod Api
pub mod Runner
mod Examples
