-- ===== src/Sessions.antt =====
-- crates/gateway/src/registry.rs: the live sessions of the gateway.
pub mod Gate
pub mod Steps
pub mod Admission
pub mod Fencing
pub mod Registry
pub mod Ownership
pub mod Operations
pub mod History
pub mod Replacement
pub mod Writing
mod Tests
