-- ===== src/Framing.antt =====
-- crates/protocol/src/framing.rs: frames of the native TCP transport, and their theorems.
pub mod Encode
pub mod Decode
pub mod Bytewise
pub mod Feeding
pub mod Chunks
pub mod Reads
pub mod RoundTrip
pub mod Json
mod Tests
