-- ===== src/Versions.antt =====
-- crates/protocol/src/version.rs: the versions of the wire schema.
pub mod Version
pub mod Printed
mod Tests
