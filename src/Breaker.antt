-- ===== src/Breaker.antt =====
-- The circuit breaker of the risk crate (crates/risk/src/circuit_breaker.rs).
pub mod Types
pub mod Incident
pub mod Input
pub mod State
pub mod Outcome
pub mod Policy
pub mod Detect
pub mod Machine
pub mod Requests
pub mod Closing
pub mod Snapshot
pub mod Restore
pub mod Ranks
pub mod Collected
pub mod Fingerprints
pub mod Errors
pub mod Times
pub mod Step
pub mod Refine
pub mod Moves
pub mod Served
pub mod Durable
pub mod Durability
pub mod History
pub mod Safety
pub mod Recovery
pub mod Recorded
pub mod Epochs
pub mod Exhaustion
pub mod Restart
pub mod Evidence
pub mod Samples
pub mod Repeats
mod Tests
