-- ===== src/Breaker/Snapshot.antt =====
-- crates/risk/src/circuit_breaker.rs: the durable snapshot, and the parts of the validation that a
-- restored state passes. The JSON text of a snapshot is read by a parameter of `Restore`.
use sinan.Prelude.{
  ℤ, [], ◌∷◌, ◌++◌, Bool, false, ◌||◌, ◌&&◌, not, Option, none, some, Result, ok, err, ◌>>◌,
  reject_if, is_negative, ltb_ℤ, ltb, is_some, is_some_and, bool_ne, any, is_blank, u64_max, ◌==◌,
  if◌then◌else◌,
}
use mathlib.Core.Bool.{decide}
use sinan.Breaker.Types.{
  CircuitBreakerStatus, closed, opened, half_open, CircuitBreakerReason,
  CircuitBreakerReason-discrete, CircuitBreakerTriggerSource, CircuitBreakerTriggerSource-discrete,
  CircuitBreakerSnapshotInvariant, CircuitBreakerSnapshotTimestamp, CircuitBreakerRestoreFailure,
}
use sinan.Breaker.Incident.{
  CircuitBreakerIncidentEvidence, CircuitBreakerIncidentEvidence-discrete,
  CircuitBreakerIncidentFingerprint,
}
use sinan.Breaker.State.{CircuitBreakerState, is_active}
use sinan.Breaker.Evidence.{
  incident_evidence_reason, incident_evidence_source, incident_evidence_has_blank_text,
}

abbrev pub Check : Type 0
Check = Result CircuitBreakerRestoreFailure (Unit {0})

-- The closure `invalid`.
abbrev pub invalid : CircuitBreakerSnapshotInvariant → CircuitBreakerRestoreFailure
invalid invariant = CircuitBreakerRestoreFailure.invalid_snapshot invariant

abbrev pub check_timestamp : CircuitBreakerSnapshotTimestamp → Option ℤ → ℤ → Check
check_timestamp field none now = ok tt
check_timestamp field (some t) now = do
  reject_if (is_negative t) (invalid CircuitBreakerSnapshotInvariant.timestamp_negative)
  reject_if (ltb_ℤ now t) (CircuitBreakerRestoreFailure.snapshot_timestamp_in_future field t now)

unfoldable pub check_timestamps : CircuitBreakerState → ℤ → Check
check_timestamps s now = do
  check_timestamp CircuitBreakerSnapshotTimestamp.triggered_at s.triggered_at_ms now
  check_timestamp CircuitBreakerSnapshotTimestamp.incident_evidence_cleared_at
      s.incident_evidence_cleared_at_ms now
  check_timestamp CircuitBreakerSnapshotTimestamp.half_opened_at s.half_opened_at_ms now
  check_timestamp CircuitBreakerSnapshotTimestamp.reset_at s.reset_at_ms now

unfoldable pub check_trigger : CircuitBreakerState → Check
check_trigger s = do
  reject_if (bool_ne (is_some s.triggered_at_ms) (is_some s.triggered_by))
      (invalid CircuitBreakerSnapshotInvariant.incident_state_missing_trigger)
  reject_if (s.recovery_epoch == 0 && is_some s.triggered_at_ms)
      (invalid CircuitBreakerSnapshotInvariant.trigger_present_without_recovery_epoch)
  reject_if (ltb 0 s.recovery_epoch && not (is_some s.triggered_at_ms))
      (invalid CircuitBreakerSnapshotInvariant.incident_state_missing_trigger)

unfoldable pub check_reason : CircuitBreakerState → Check
check_reason s =
    reject_if
      (bool_ne (not (is_active s.status))
        (decide (CircuitBreakerReason-discrete s.reason CircuitBreakerReason.okay)))
      (invalid CircuitBreakerSnapshotInvariant.status_reason_mismatch)

unfoldable pub check_reset : CircuitBreakerState → Check
check_reset s = do
  reject_if (bool_ne (is_some s.reset_at_ms) (is_some s.reset_by))
      (invalid CircuitBreakerSnapshotInvariant.reset_identity_incomplete)
  reject_if (is_some_and is_blank s.reset_by)
      (invalid CircuitBreakerSnapshotInvariant.reset_by_blank)

abbrev pub any_half_open_field : CircuitBreakerState → Bool
any_half_open_field s =
    is_some s.half_opened_at_ms
    || is_some s.half_open_daily_loss_baseline_bps
    || is_some s.half_open_drawdown_baseline_bps

abbrev pub all_half_open_fields : CircuitBreakerState → Bool
all_half_open_fields s =
    is_some s.half_opened_at_ms
    && is_some s.half_open_daily_loss_baseline_bps
    && is_some s.half_open_drawdown_baseline_bps

abbrev pub reset_pair_present : CircuitBreakerState → Bool
reset_pair_present s = is_some s.reset_at_ms && is_some s.reset_by

-- The `match state.status`.
unfoldable pub check_by_status : CircuitBreakerStatus → CircuitBreakerState → Check
check_by_status closed s = do
  reject_if (any_half_open_field s)
      (invalid CircuitBreakerSnapshotInvariant.half_open_recovery_data_outside_half_open)
  if s.recovery_epoch == 0
      then reject_if
          (is_some s.triggered_at_ms
            || is_some s.last_incident_fingerprint
            || is_some s.incident_evidence_cleared_at_ms
            || reset_pair_present s)
          (invalid CircuitBreakerSnapshotInvariant.initial_state_has_incident_data)
      else reject_if (not (reset_pair_present s))
          (invalid CircuitBreakerSnapshotInvariant.closed_state_missing_reset_data)
check_by_status opened s = do
  reject_if (reset_pair_present s)
      (invalid CircuitBreakerSnapshotInvariant.active_state_has_reset_data)
  reject_if (any_half_open_field s)
      (invalid CircuitBreakerSnapshotInvariant.half_open_recovery_data_outside_half_open)
check_by_status half_open s = do
  reject_if (reset_pair_present s)
      (invalid CircuitBreakerSnapshotInvariant.active_state_has_reset_data)
  reject_if (not (all_half_open_fields s))
      (invalid CircuitBreakerSnapshotInvariant.half_open_recovery_data_incomplete)

unfoldable pub check_status : CircuitBreakerState → Check
check_status s = check_by_status s.status s

unfoldable pub check_presence : CircuitBreakerState → Check
check_presence s = do
  reject_if (is_some s.last_incident_fingerprint && is_some s.incident_evidence_cleared_at_ms)
      (invalid CircuitBreakerSnapshotInvariant.fingerprint_and_evidence_cleared_coexist)
  reject_if
      (is_active s.status
        && not (is_some s.last_incident_fingerprint)
        && not (is_some s.incident_evidence_cleared_at_ms))
      (invalid CircuitBreakerSnapshotInvariant.active_state_missing_fingerprint_or_clear_evidence)

unfoldable pub blank_operator : CircuitBreakerTriggerSource → Bool
blank_operator (CircuitBreakerTriggerSource.operator operator_id) = is_blank operator_id
blank_operator _ = false

unfoldable pub check_source : CircuitBreakerState → Check
check_source s =
    reject_if (is_some_and blank_operator s.triggered_by)
      (invalid CircuitBreakerSnapshotInvariant.trigger_source_blank)

-- `fingerprint.0[..index].contains(evidence)`.
abbrev pub contains : CircuitBreakerIncidentFingerprint → CircuitBreakerIncidentEvidence → Bool
contains seen e = any (λ x. decide (CircuitBreakerIncidentEvidence-discrete x e)) seen

-- The loop over the evidence: `seen` is what stands before the index.
unfoldable pub check_evidence :
    CircuitBreakerIncidentFingerprint → CircuitBreakerIncidentFingerprint → Check
check_evidence seen [] = ok tt
check_evidence seen (e ∷ es) = do
  reject_if (contains seen e)
      (invalid CircuitBreakerSnapshotInvariant.fingerprint_duplicate_evidence)
  reject_if (incident_evidence_has_blank_text e)
      (invalid CircuitBreakerSnapshotInvariant.fingerprint_text_blank)
  check_evidence (seen ++ e ∷ []) es

abbrev pub same_source : Option CircuitBreakerTriggerSource → CircuitBreakerTriggerSource → Bool
same_source none source = false
same_source (some by) source = decide (CircuitBreakerTriggerSource-discrete by source)

unfoldable pub check_primary : CircuitBreakerIncidentEvidence → CircuitBreakerState → Check
check_primary primary s = do
  reject_if
      (not (decide (CircuitBreakerReason-discrete (incident_evidence_reason primary) s.reason)))
      (invalid CircuitBreakerSnapshotInvariant.fingerprint_primary_reason_mismatch)
  reject_if (not (same_source s.triggered_by (incident_evidence_source primary)))
      (invalid CircuitBreakerSnapshotInvariant.fingerprint_primary_source_mismatch)

unfoldable pub check_fingerprint :
    Option CircuitBreakerIncidentFingerprint → CircuitBreakerState → Check
check_fingerprint none s = ok tt
check_fingerprint (some []) s = err (invalid CircuitBreakerSnapshotInvariant.fingerprint_empty)
check_fingerprint (some (primary ∷ es)) s = do
  check_evidence [] (primary ∷ es)
  let primary_check = check_primary primary s
  if is_active s.status then primary_check else ok tt

abbrev pub before : Option ℤ → Option ℤ → Bool
before none t = false
before (some u) none = false
before (some u) (some t) = ltb_ℤ u t

unfoldable pub check_order : CircuitBreakerState → Check
check_order s =
    reject_if
      (before s.incident_evidence_cleared_at_ms s.triggered_at_ms
        || before s.half_opened_at_ms s.triggered_at_ms
        || before s.reset_at_ms s.triggered_at_ms
        || before s.half_opened_at_ms s.incident_evidence_cleared_at_ms
        || before s.reset_at_ms s.incident_evidence_cleared_at_ms)
      (invalid CircuitBreakerSnapshotInvariant.timestamp_order_invalid)

unfoldable pub validate_restored_state : CircuitBreakerState → ℤ → Check
validate_restored_state s now = do
  reject_if (s.recovery_epoch == u64_max)
      (invalid CircuitBreakerSnapshotInvariant.recovery_epoch_exhausted)
  check_timestamps s now
  check_trigger s
  check_reason s
  check_reset s
  check_status s
  check_presence s
  check_source s
  check_fingerprint s.last_incident_fingerprint s
  check_order s
