-- ===== src/Breaker/Restore.antt =====
-- crates/risk/src/circuit_breaker.rs: the snapshot of a state, and its fail-closed restoration.
-- Reading JSON is the parameter `parse` (`serde_json::from_str`): `none` is any parse error.
use sinan.Prelude.{
  ℕ, ℤ, String, Option, none, some, Result, ok, err, is_negative, str_eq, checked_suc,
  if◌then◌else◌,
}
use sinan.Breaker.Types.{
  CircuitBreakerStatus, CircuitBreakerReason, CircuitBreakerTriggerSource,
  CircuitBreakerRestoreFailure, CircuitBreakerError,
}
use sinan.Breaker.Incident.{CircuitBreakerIncidentFingerprint}
use sinan.Breaker.State.{CircuitBreakerState, default_state}
use sinan.Breaker.Outcome.{CircuitBreakerOutcome, unchanged}
use sinan.Breaker.Machine.{safety_fallback, epoch_overflow}
use sinan.Breaker.Snapshot.{Check, validate_restored_state}

pub record CircuitBreakerSnapshotV1 : Type 0 where
  pub schema_version : String
  pub recovery_epoch : ℕ  -- u64
  pub status : CircuitBreakerStatus
  pub reason : CircuitBreakerReason
  pub triggered_at_ms : Option ℤ
  pub triggered_by : Option CircuitBreakerTriggerSource
  pub last_incident_fingerprint : Option CircuitBreakerIncidentFingerprint
  pub incident_evidence_cleared_at_ms : Option ℤ
  pub half_opened_at_ms : Option ℤ
  pub half_open_daily_loss_baseline_bps : Option ℕ
  pub half_open_drawdown_baseline_bps : Option ℕ
  pub reset_at_ms : Option ℤ
  pub reset_by : Option String
  pub blocked_intent_count : ℕ  -- u64

abbrev pub circuit_breaker_snapshot_schema_version_v1 : String
circuit_breaker_snapshot_schema_version_v1 = "circuit-breaker-state.v1"

unfoldable pub durable_snapshot_v1 : CircuitBreakerState → CircuitBreakerSnapshotV1
durable_snapshot_v1 s = record {
  schema_version = circuit_breaker_snapshot_schema_version_v1;
  recovery_epoch = s.recovery_epoch;
  status = s.status;
  reason = s.reason;
  triggered_at_ms = s.triggered_at_ms;
  triggered_by = s.triggered_by;
  last_incident_fingerprint = s.last_incident_fingerprint;
  incident_evidence_cleared_at_ms = s.incident_evidence_cleared_at_ms;
  half_opened_at_ms = s.half_opened_at_ms;
  half_open_daily_loss_baseline_bps = s.half_open_daily_loss_baseline_bps;
  half_open_drawdown_baseline_bps = s.half_open_drawdown_baseline_bps;
  reset_at_ms = s.reset_at_ms;
  reset_by = s.reset_by;
  blocked_intent_count = s.blocked_intent_count;
}

unfoldable pub state_of : CircuitBreakerSnapshotV1 → CircuitBreakerState
state_of p = record {
  recovery_epoch = p.recovery_epoch;
  status = p.status;
  reason = p.reason;
  triggered_at_ms = p.triggered_at_ms;
  triggered_by = p.triggered_by;
  last_incident_fingerprint = p.last_incident_fingerprint;
  incident_evidence_cleared_at_ms = p.incident_evidence_cleared_at_ms;
  half_opened_at_ms = p.half_opened_at_ms;
  half_open_daily_loss_baseline_bps = p.half_open_daily_loss_baseline_bps;
  half_open_drawdown_baseline_bps = p.half_open_drawdown_baseline_bps;
  reset_at_ms = p.reset_at_ms;
  reset_by = p.reset_by;
  blocked_intent_count = p.blocked_intent_count;
}

pub record CircuitBreakerRecoveryEpochExhausted : Type 0 where
  pub last_recovery_epoch : ℕ  -- u64
  pub restore_failure : CircuitBreakerRestoreFailure
  pub outcome : CircuitBreakerOutcome

unfoldable pub at_epoch : ℕ → CircuitBreakerState
at_epoch epoch = record default_state { recovery_epoch = epoch }

-- `debug_assert_eq!` of the source is a theorem of `Restart`.
unfoldable pub fail_closed_circuit_breaker_restore_after_epoch :
    CircuitBreakerRestoreFailure
    → ℤ
    → ℕ
    → Result CircuitBreakerRecoveryEpochExhausted CircuitBreakerOutcome
fail_closed_circuit_breaker_restore_after_epoch failure now last = elim (checked_suc last) [
  | none ↦ err (record {
    last_recovery_epoch = last;
    restore_failure = failure;
    outcome = epoch_overflow (at_epoch last) now;
  })
  | some next ↦
      ok (safety_fallback (at_epoch last) now (CircuitBreakerError.durable_restore_failed failure))
]

-- The source's `Err` arm is `unreachable!`, since epoch 0 has a successor; the model puts the
-- outcome there that the error carries.
unfoldable pub outcome_of :
    Result CircuitBreakerRecoveryEpochExhausted CircuitBreakerOutcome → CircuitBreakerOutcome
outcome_of (ok o) = o
outcome_of (err e) = e.outcome

unfoldable pub fail_closed_circuit_breaker_restore :
    CircuitBreakerRestoreFailure → ℤ → CircuitBreakerOutcome
fail_closed_circuit_breaker_restore failure now =
    outcome_of (fail_closed_circuit_breaker_restore_after_epoch failure now 0)

-- The end of `restore_circuit_breaker_snapshot_v1`, given the result of the validation.
unfoldable pub restore_checked : CircuitBreakerState → Check → ℤ → CircuitBreakerOutcome
restore_checked s (err failure) now = fail_closed_circuit_breaker_restore failure now
restore_checked s (ok _) now = unchanged s

unfoldable pub restore_circuit_breaker_snapshot_v1 :
    CircuitBreakerSnapshotV1 → ℤ → CircuitBreakerOutcome
restore_circuit_breaker_snapshot_v1 p now =
    if is_negative now
    then fail_closed_circuit_breaker_restore (CircuitBreakerRestoreFailure.invalid_server_time now)
        now
    else if str_eq p.schema_version circuit_breaker_snapshot_schema_version_v1
    then restore_checked (state_of p) (validate_restored_state (state_of p) now) now
    else fail_closed_circuit_breaker_restore
        (CircuitBreakerRestoreFailure.unsupported_schema_version p.schema_version) now

-- The end of `restore_circuit_breaker_snapshot`, given what the text was parsed to.
unfoldable pub restore_parsed : Option CircuitBreakerSnapshotV1 → ℤ → CircuitBreakerOutcome
restore_parsed none now =
    fail_closed_circuit_breaker_restore CircuitBreakerRestoreFailure.corrupt_payload now
restore_parsed (some p) now = restore_circuit_breaker_snapshot_v1 p now

module _ (parse : String → Option CircuitBreakerSnapshotV1) where
  unfoldable pub restore_text : Option String → ℤ → CircuitBreakerOutcome
  restore_text none now =
      fail_closed_circuit_breaker_restore CircuitBreakerRestoreFailure.missing_snapshot now
  restore_text (some text) now = restore_parsed (parse text) now

  unfoldable pub restore_circuit_breaker_snapshot : Option String → ℤ → CircuitBreakerOutcome
  restore_circuit_breaker_snapshot snapshot now =
      if is_negative now
      then fail_closed_circuit_breaker_restore
          (CircuitBreakerRestoreFailure.invalid_server_time now) now
      else restore_text snapshot now
