-- ===== src/Worker/CloudHypervisor.antt =====
-- worker/src/vmm/cloud_hypervisor.rs: the production backend. Its parts are the modules below:
-- the configuration types, the host that it runs on (a parameter), the REST client, TAP devices,
-- process handles, and the backend itself with its proofs.
pub mod Config
pub mod Host
pub mod Client
pub mod Tap
pub mod Process
pub mod Backend
pub mod Laws
pub mod Waiting
pub mod Prepared
mod Examples
