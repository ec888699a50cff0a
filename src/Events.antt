-- ===== src/Events.antt =====
-- crates/events/src/lib.rs: the subscriptions to the summary events.
pub mod Filter
pub mod Subscription
pub mod Scope
pub mod Order
mod Tests
