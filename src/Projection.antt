-- ===== src/Projection.antt =====
-- crates/execution/src/projector.rs: the projection of plans from their commands, and the recovery.
pub mod PlanStatus
pub mod Leg
pub mod Recovery
pub mod Dependencies
pub mod Search
pub mod Acyclic
pub mod Validation
pub mod Plan
pub mod Again
pub mod Exposure
pub mod Fills
mod Tests
