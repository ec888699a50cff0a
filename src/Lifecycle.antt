-- ===== src/Lifecycle.antt =====
-- crates/execution/src/state.rs: the lifecycle of a command.
pub mod Status
pub mod Graph
pub mod Valid
pub mod Evidence
pub mod Transition
pub mod Progress
pub mod Advance
mod Tests
pub mod History
pub mod Counting
pub mod Precedence
pub mod Idempotence
pub mod Checks
pub mod Creation
pub mod FirstMove
pub mod Liveness
