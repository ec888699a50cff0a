-- ===== src/Breaker/Types.antt =====
-- crates/risk/src/circuit_breaker.rs: the policy, and the enumerations of statuses, reasons,
-- sources, restore failures and errors, with their derived equality.
use sinan.Prelude.{ℕ, ℤ, String, List, Bool, ℕ_discrete, ℤ-discrete, String-discrete}

pub record CircuitBreakerPolicy : Type 0 where
  pub max_daily_realized_loss_bps : ℕ  -- u32
  pub max_equity_drawdown_bps : ℕ  -- u32
  pub max_consecutive_broker_rejections : ℕ  -- u32
  pub max_consecutive_command_failures : ℕ  -- u32
  pub max_time_sync_unhealthy_ms : ℤ  -- i64
  pub max_consecutive_snapshot_stale : ℕ  -- u32
  pub max_consecutive_symbol_metadata_stale : ℕ  -- u32
  pub half_open_observation_ms : ℤ  -- i64
  pub auto_reset : Bool

-- `Open` of the source is `opened`: `open` is a word of the language.
pub data CircuitBreakerStatus : Type 0 where
  closed opened half_open : CircuitBreakerStatus

pub data CircuitBreakerReason : Type 0 where
  okay daily_realized_loss_limit equity_drawdown_limit : CircuitBreakerReason
  consecutive_broker_rejections consecutive_command_failures : CircuitBreakerReason
  manual_reconciliation_required store_recovery_reconciliation_pending : CircuitBreakerReason
  time_sync_unhealthy snapshot_stale symbol_metadata_stale manual_trigger : CircuitBreakerReason
  hard_risk_violation_during_recovery safety_invariant_violation : CircuitBreakerReason

pub data CircuitBreakerTriggerSource : Type 0 where
  risk_telemetry broker execution reconciliation store_recovery : CircuitBreakerTriggerSource
  clock snapshot_health : CircuitBreakerTriggerSource
  operator : String → CircuitBreakerTriggerSource
  safety_invariant : CircuitBreakerTriggerSource

pub data RecoveryPrerequisite : Type 0 where
  account_refresh position_refresh order_refresh symbol_metadata_refresh : RecoveryPrerequisite
  pending_command_reconciliation clock_health state_store_health : RecoveryPrerequisite

pub data TransitionRequestKind : Type 0 where
  observe enter_half_open close record_blocked_intent_count : TransitionRequestKind

pub data CircuitBreakerSnapshotTimestamp : Type 0 where
  triggered_at incident_evidence_cleared_at half_opened_at : CircuitBreakerSnapshotTimestamp
  reset_at : CircuitBreakerSnapshotTimestamp

pub data CircuitBreakerSnapshotInvariant : Type 0 where
  recovery_epoch_exhausted initial_state_has_incident_data : CircuitBreakerSnapshotInvariant
  incident_state_missing_trigger : CircuitBreakerSnapshotInvariant
  trigger_present_without_recovery_epoch status_reason_mismatch : CircuitBreakerSnapshotInvariant
  active_state_has_reset_data closed_state_missing_reset_data : CircuitBreakerSnapshotInvariant
  reset_identity_incomplete reset_by_blank : CircuitBreakerSnapshotInvariant
  half_open_recovery_data_incomplete : CircuitBreakerSnapshotInvariant
  half_open_recovery_data_outside_half_open : CircuitBreakerSnapshotInvariant
  fingerprint_empty fingerprint_duplicate_evidence : CircuitBreakerSnapshotInvariant
  fingerprint_primary_reason_mismatch : CircuitBreakerSnapshotInvariant
  fingerprint_primary_source_mismatch : CircuitBreakerSnapshotInvariant
  fingerprint_and_evidence_cleared_coexist : CircuitBreakerSnapshotInvariant
  active_state_missing_fingerprint_or_clear_evidence : CircuitBreakerSnapshotInvariant
  timestamp_negative timestamp_order_invalid : CircuitBreakerSnapshotInvariant
  trigger_source_blank fingerprint_text_blank : CircuitBreakerSnapshotInvariant

pub data CircuitBreakerRestoreFailure : Type 0 where
  missing_snapshot corrupt_payload : CircuitBreakerRestoreFailure
  unsupported_schema_version : (found : String) → CircuitBreakerRestoreFailure
  invalid_snapshot : CircuitBreakerSnapshotInvariant → CircuitBreakerRestoreFailure
  snapshot_timestamp_in_future :
      (field : CircuitBreakerSnapshotTimestamp) (timestamp_ms server_now_ms : ℤ)
      → CircuitBreakerRestoreFailure
  invalid_server_time : (server_now_ms : ℤ) → CircuitBreakerRestoreFailure
  store_unavailable : CircuitBreakerRestoreFailure

pub data CircuitBreakerError : Type 0 where
  invalid_policy : (field requirement : String) → CircuitBreakerError
  invalid_input : (field requirement : String) → CircuitBreakerError
  server_time_regressed : (latest_transition_at_ms server_now_ms : ℤ) → CircuitBreakerError
  invalid_transition :
      (status : CircuitBreakerStatus) (request : TransitionRequestKind) → CircuitBreakerError
  recovery_prerequisites_missing : List RecoveryPrerequisite → CircuitBreakerError
  recovery_epoch_mismatch : (expected observed : ℕ) → CircuitBreakerError
  recovery_blocked_by_violations : List CircuitBreakerReason → CircuitBreakerError
  half_open_observation_not_complete : (remaining_ms : ℤ) → CircuitBreakerError
  automatic_reset_disabled : CircuitBreakerError
  manual_reset_evidence_missing : (field : String) → CircuitBreakerError
  half_open_baseline_missing recovery_epoch_overflow : CircuitBreakerError
  durable_restore_failed : (failure : CircuitBreakerRestoreFailure) → CircuitBreakerError

-- The error as a durable fingerprint keeps it: the same data, with owned strings.
pub data CircuitBreakerErrorFingerprint : Type 0 where
  invalid_policy : (field requirement : String) → CircuitBreakerErrorFingerprint
  invalid_input : (field requirement : String) → CircuitBreakerErrorFingerprint
  server_time_regressed :
      (latest_transition_at_ms server_now_ms : ℤ) → CircuitBreakerErrorFingerprint
  invalid_transition :
      (status : CircuitBreakerStatus) (request : TransitionRequestKind)
      → CircuitBreakerErrorFingerprint
  recovery_prerequisites_missing : List RecoveryPrerequisite → CircuitBreakerErrorFingerprint
  recovery_epoch_mismatch : (expected observed : ℕ) → CircuitBreakerErrorFingerprint
  recovery_blocked_by_violations : List CircuitBreakerReason → CircuitBreakerErrorFingerprint
  half_open_observation_not_complete : (remaining_ms : ℤ) → CircuitBreakerErrorFingerprint
  automatic_reset_disabled : CircuitBreakerErrorFingerprint
  manual_reset_evidence_missing : (field : String) → CircuitBreakerErrorFingerprint
  half_open_baseline_missing recovery_epoch_overflow : CircuitBreakerErrorFingerprint
  durable_restore_failed : (failure : CircuitBreakerRestoreFailure) → CircuitBreakerErrorFingerprint

-- `impl From<&CircuitBreakerError> for CircuitBreakerErrorFingerprint`.
unfoldable pub error_fingerprint : CircuitBreakerError → CircuitBreakerErrorFingerprint
error_fingerprint (CircuitBreakerError.invalid_policy f r) =
    CircuitBreakerErrorFingerprint.invalid_policy f r
error_fingerprint (CircuitBreakerError.invalid_input f r) =
    CircuitBreakerErrorFingerprint.invalid_input f r
error_fingerprint (CircuitBreakerError.server_time_regressed l n) =
    CircuitBreakerErrorFingerprint.server_time_regressed l n
error_fingerprint (CircuitBreakerError.invalid_transition s k) =
    CircuitBreakerErrorFingerprint.invalid_transition s k
error_fingerprint (CircuitBreakerError.recovery_prerequisites_missing ps) =
    CircuitBreakerErrorFingerprint.recovery_prerequisites_missing ps
error_fingerprint (CircuitBreakerError.recovery_epoch_mismatch e o) =
    CircuitBreakerErrorFingerprint.recovery_epoch_mismatch e o
error_fingerprint (CircuitBreakerError.recovery_blocked_by_violations rs) =
    CircuitBreakerErrorFingerprint.recovery_blocked_by_violations rs
error_fingerprint (CircuitBreakerError.half_open_observation_not_complete ms) =
    CircuitBreakerErrorFingerprint.half_open_observation_not_complete ms
error_fingerprint CircuitBreakerError.automatic_reset_disabled =
    CircuitBreakerErrorFingerprint.automatic_reset_disabled
error_fingerprint (CircuitBreakerError.manual_reset_evidence_missing f) =
    CircuitBreakerErrorFingerprint.manual_reset_evidence_missing f
error_fingerprint CircuitBreakerError.half_open_baseline_missing =
    CircuitBreakerErrorFingerprint.half_open_baseline_missing
error_fingerprint CircuitBreakerError.recovery_epoch_overflow =
    CircuitBreakerErrorFingerprint.recovery_epoch_overflow
error_fingerprint (CircuitBreakerError.durable_restore_failed failure) =
    CircuitBreakerErrorFingerprint.durable_restore_failed failure

pub CircuitBreakerStatus-discrete : Discrete CircuitBreakerStatus
CircuitBreakerStatus-discrete = hlevel

pub CircuitBreakerReason-discrete : Discrete CircuitBreakerReason
CircuitBreakerReason-discrete = hlevel

pub CircuitBreakerTriggerSource-discrete : Discrete CircuitBreakerTriggerSource
CircuitBreakerTriggerSource-discrete = hlevel String-discrete

pub CircuitBreakerErrorFingerprint-discrete : Discrete CircuitBreakerErrorFingerprint
CircuitBreakerErrorFingerprint-discrete = hlevel (String-discrete, ℤ-discrete, ℕ_discrete)
