-- ===== src/Breaker/History.antt =====
-- crates/risk/src/circuit_breaker.rs: histories of requests, and the restart of the breaker from the
-- snapshot that a history has left (`durable_snapshot_v1`, `restore_circuit_breaker_snapshot`).
use sinan.Prelude.{
  ◌<◌, ℤ, String, List, [], ◌∷◌, false, Option, none, some, ◌≡◌, refl, arith, is_negative, u64_max,
  ok, ◌==◌,
}
use sinan.Breaker.Types.{CircuitBreakerPolicy, CircuitBreakerSnapshotTimestamp}
use sinan.Breaker.Input.{TransitionRequest}
use sinan.Breaker.State.{CircuitBreakerState, default_state}
use sinan.Breaker.Outcome.{unchanged}
use sinan.Breaker.Closing.{transition}
use sinan.Breaker.Snapshot.{check_timestamp, check_timestamps, validate_restored_state}
use sinan.Breaker.Restore.{
  CircuitBreakerSnapshotV1, durable_snapshot_v1, state_of, restore_circuit_breaker_snapshot_v1,
  restore_circuit_breaker_snapshot, restore_text, restore_parsed, restore_checked,
}
use sinan.Breaker.Times.{HasReached, NotAfter}
use sinan.Breaker.Durable.{IsDurable, NonNegative, default_state-IsDurable}
use sinan.Breaker.Durability.{Step-IsDurable}
use sinan.Breaker.Served.{transition-Step}

-- A call of `transition`, and the state that a list of calls leaves.
pub record Call : Type 0 where
  pub policy : CircuitBreakerPolicy
  pub request : TransitionRequest
  pub server_now_ms : ℤ

unfoldable pub run : CircuitBreakerState → List Call → CircuitBreakerState
run s [] = s
run s (c ∷ cs) = run (transition c.policy s c.request c.server_now_ms).state cs

run_from-IsDurable : (s : CircuitBreakerState) (cs : List Call) → IsDurable s → IsDurable (run s cs)
unfolding run
run_from-IsDurable s [] v = v
run_from-IsDurable s (c ∷ cs) v =
    run_from-IsDurable (transition c.policy s c.request c.server_now_ms).state cs (
      Step-IsDurable c.policy c.request c.server_now_ms s _
        (transition-Step c.policy s c.request c.server_now_ms) v)

pub run-IsDurable : (cs : List Call) → IsDurable (run default_state cs)
run-IsDurable cs = run_from-IsDurable default_state cs default_state-IsDurable

check_timestamp-ok :
    (field : CircuitBreakerSnapshotTimestamp) (o : Option ℤ) (now : ℤ)
    → NonNegative o
    → NotAfter o now
    → check_timestamp field o now ≡ ok tt
check_timestamp-ok field none now h k = refl
check_timestamp-ok field (some t) now h k = ground arith

check_timestamps-ok :
    (s : CircuitBreakerState) (now : ℤ)
    → IsDurable s
    → HasReached s now
    → check_timestamps s now ≡ ok tt
unfolding check_timestamps
check_timestamps-ok s now v r = rw (
  check_timestamp-ok CircuitBreakerSnapshotTimestamp.triggered_at s.triggered_at_ms now
      v.triggered_nonneg r.triggered,
  check_timestamp-ok CircuitBreakerSnapshotTimestamp.incident_evidence_cleared_at
      s.incident_evidence_cleared_at_ms now v.cleared_nonneg r.cleared,
  check_timestamp-ok CircuitBreakerSnapshotTimestamp.half_opened_at s.half_opened_at_ms now
      v.half_opened_nonneg r.half_opened,
  check_timestamp-ok CircuitBreakerSnapshotTimestamp.reset_at s.reset_at_ms now v.reset_nonneg
      r.reset,
)

pub validate_restored_state-ok :
    (s : CircuitBreakerState) (now : ℤ)
    → IsDurable s
    → HasReached s now
    → s.recovery_epoch < u64_max
    → validate_restored_state s now ≡ ok tt
unfolding validate_restored_state
validate_restored_state-ok s now v r room = rw (
  below,
  check_timestamps-ok s now v r,
  v.trigger,
  v.cause,
  v.reset_data,
  v.by_status,
  v.presence,
  v.source,
  v.fingerprint,
  v.order,
)
  where
    below : (s.recovery_epoch == u64_max) ≡ false
    below = ground arith

-- After any history of requests that has not used up the recovery epochs, under any policies and at
-- any times, the snapshot of the state restores to exactly that state, at every server time that is
-- not negative and not before a time recorded in it, given that the stored text parses to the
-- snapshot.
pub restore-durable_snapshot :
    (parse : String → Option CircuitBreakerSnapshotV1) (text : String) (cs : List Call) (now : ℤ)
    → parse text ≡ some (durable_snapshot_v1 (run default_state cs))
    → is_negative now ≡ false
    → HasReached (run default_state cs) now
    → (run default_state cs).recovery_epoch < u64_max
    → restore_circuit_breaker_snapshot parse (some text) now ≡ unchanged (run default_state cs)
unfolding restore_circuit_breaker_snapshot restore_text restore_circuit_breaker_snapshot_v1
    durable_snapshot_v1 state_of restore_parsed restore_checked
restore-durable_snapshot parse text cs now reads nonneg reached room =
    let s = run default_state cs in
    rw (nonneg, reads, restore_parsed, nonneg)
      (rw (validate_restored_state-ok s now (run-IsDurable cs) reached room, restore_checked))
