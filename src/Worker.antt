-- ===== src/Worker.antt =====
-- The worker: it manages the VM processes of one host.
pub mod Dto
pub mod Vmm
pub mod Manager
pub mod Server
pub mod CloudHypervisor
mod Examples
