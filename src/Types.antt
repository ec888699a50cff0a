-- ===== src/Types.antt =====
-- crates/types/src, crates/protocol/src/payload.rs: the data that the components share.
pub mod Enums
pub mod Command
pub mod Plan
