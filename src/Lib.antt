-- ===== src/Lib.antt =====
-- Sinan: the decision core of a trading service that must fail closed.
--
-- The service (crates/core) routes commands from strategies to execution terminals. Before a command
-- is built, the global circuit breaker (crates/risk/src/circuit_breaker.rs) is asked whether the
-- action is allowed; telemetry, clock and broker health are reported to it as requests, each of which
-- `transition` turns into a new state; after each one the state is stored as a snapshot, from which
-- a restart takes it over. A command that was built has a lifecycle (crates/execution/src/state.rs),
-- which evidence from delivery, terminals, brokers and reconciliation moves; the states of its
-- commands and the events of its executions give the status of a plan
-- (crates/execution/src/projector.rs). Terminals connect by sessions: their bytes are cut into frames
-- (crates/protocol/src/framing.rs) of a schema version (crates/protocol/src/version.rs), and the
-- registry (crates/gateway/src/registry.rs) tells which session of a route may be written to. Summaries
-- of what happened are streamed to subscribers (crates/events/src/lib.rs).
--
-- Prelude: Boolean tests, lists, maps, text, `i64`, `u64` and `f64`, and `Result` with `?`.
-- Breaker: crates/risk/src/circuit_breaker.rs. Types, Incident, Input, State and Outcome are its
--   data; Policy is `validate` and the validation of evidence; Detect is `collect_violations` and
--   the half-open filter; Evidence is `incident_fingerprint`; Machine is `open` and
--   `safety_fallback`; Requests is `observe` and `enter_half_open`; Closing is `close` and
--   `transition`; Snapshot and Restore are the durable snapshot and its validation. Step is the
--   abstract relation, which Errors, Fingerprints, Ranks, Collected, Times, Moves, Refine and Served
--   connect to the code; Durable, Durability and History hold the invariant and the histories;
--   Safety, Recovery, Recorded, Epochs, Exhaustion, Repeats and Restart state what callers rely on;
--   Samples and Tests run examples.
-- Framing: crates/protocol/src/framing.rs, the length-prefixed frames over which terminals connect.
--   Encode is `encode_native_tcp_frame`, Decode is `NativeTcpFrameDecoder`; Bytewise is the rounds
--   over single bytes, to which Feeding compares `feed`; Chunks is what a read leaves, Reads treats
--   streams that are cut into reads, whose frames stay delivered when a later read fails
--   (crates/gateway/src/native_tcp.rs); RoundTrip joins both directions, Json is `feed_json`, Tests
--   runs examples.
-- Types: the enumerations and records of crates/types/src/enums.rs, crates/types/src/dto.rs and
--   crates/protocol/src/payload.rs that the lifecycle and the projection read.
-- Lifecycle: crates/execution/src/state.rs, how evidence moves a command. Status is
--   `transition_is_allowed`, `command_status_is_terminal` and `event_status`, Graph is what they span;
--   Valid is `validate_command_state`, Evidence is `evidence_target` with `validate_execution_event`,
--   Transition is `transition_command`. Progress and Advance show what one piece of evidence keeps and
--   moves, History and Counting are about sequences of them, Precedence and Idempotence about one that is delivered
--   again; Checks takes the validation apart, Creation is `initial_command_state`, FirstMove and
--   Liveness are about the first move, Tests runs examples.
-- Sessions: crates/gateway/src/registry.rs, the live sessions of the terminals. Gate is the atomic word
--   of a handle and the threads that write through it, Steps, Admission and Fencing are about every
--   interleaving of them; Registry is the two maps with `activate`, `disconnect`, `fence_route` and
--   `clear`, Ownership, Operations and History are who may write, Replacement is what `activate`
--   displaces, Writing is `write` over a sink (crates/gateway/src/sink.rs), Tests runs examples.
-- Projection: crates/execution/src/projector.rs, the status of the legs and of a plan. Leg is
--   `project_leg`, PlanStatus is `derive_execution_plan_status` (crates/types/src/dto.rs), Validation and
--   Dependencies are `ExecutionPlan::validate`, Plan is `project_plan`, Recovery is
--   `decide_recovery`; Exposure and Fills state what they mean for open positions, Search and Acyclic
--   are about the search for a cycle, Again about a second projection; Tests runs examples.
-- Versions: crates/protocol/src/version.rs, the versions of the wire schema. Version is their text and
--   `compatibility_with`, Printed joins printing and reading, Tests runs an example.
-- Events: crates/events/src/lib.rs, with the filter and the account scope of crates/store. Filter is
--   `subscription_filter` and `matches`, Subscription is `recv`, where the channel is what its receiver
--   returns in turn; Order is about the order of what is delivered, Scope about who may see it.
--
-- A field of type `i64` is an integer ℤ; `checked_sub` and `checked_add` test the range and `-` wraps
-- around at 64 bits. `u32` and `u64` fields are natural numbers: counts and thresholds are only
-- compared, the epoch and the delivery attempts are incremented with the test at the largest value.
-- An `f64` is the natural number of its bits. `str::trim` is modelled by the code points with the
-- property White_Space. A byte is a natural number; `usize` has 64 bits, so that a `u32` length fits,
-- and so has the word of a handle. Shared handles (`Arc`) stand in a store and are named by their
-- address.
--
-- The loop of `feed` runs on fuel, the length of its input, since each round takes a byte. The search
-- for a cycle in the dependencies of a plan runs on fuel, one round for each id, since an id is queued
-- when its count reaches 0. The decimal digits of a `u16` are made on fuel 5. Every other recursion is
-- on a list. An `Option` or a `Result` that the code branches on is passed to a helper by clauses.
--
-- Reading JSON (`serde_json`) is a parameter, of a snapshot and of a frame; the sink of a session is
-- one too. Not modelled: `publish` and `subscribe` of crates/events; `encode_json` of the framing, `Display` and serde attributes; the builder of
-- commands and the planning of deliveries (crates/execution), the risk evaluator, the
-- reconciliation; and the crates that are I/O, SQL, HTTP or glue (crates/store, the rest of
-- crates/gateway, crates/http, crates/core).
pub mod Prelude
pub mod Types
pub mod Breaker
pub mod Framing
pub mod Lifecycle
pub mod Sessions
pub mod Projection
pub mod Versions
pub mod Events
