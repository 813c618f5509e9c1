-- ===== src/Cache.antt =====
-- cache/src/main.rs: the binary cache's answers about store paths.
pub mod Host
pub mod Serve
pub mod Parts
pub mod Files
mod Examples
