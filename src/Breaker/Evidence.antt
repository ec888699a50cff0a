-- ===== src/Breaker/Evidence.antt =====
-- crates/risk/src/circuit_breaker.rs: the reason and the source of a violation and of its durable
-- evidence, and the fingerprint of an incident.
use sinan.Prelude.{List, map, Bool, false, ◌||◌, Option, none, some, ℤ, is_blank}
use sinan.Breaker.Types.{
  CircuitBreakerReason, CircuitBreakerTriggerSource, CircuitBreakerErrorFingerprint,
}
use sinan.Breaker.Incident.{
  CircuitBreakerViolation, CircuitBreakerIncidentEvidence, CircuitBreakerIncidentFingerprint,
}
use sinan.Breaker.Input.{CircuitBreakerInput}

-- `CircuitBreakerViolation::reason`.
unfoldable pub violation_reason : CircuitBreakerViolation → CircuitBreakerReason
violation_reason (CircuitBreakerViolation.daily_realized_loss _ _) =
    CircuitBreakerReason.daily_realized_loss_limit
violation_reason (CircuitBreakerViolation.daily_realized_loss_worsened _ _) =
    CircuitBreakerReason.daily_realized_loss_limit
violation_reason (CircuitBreakerViolation.equity_drawdown _ _) =
    CircuitBreakerReason.equity_drawdown_limit
violation_reason (CircuitBreakerViolation.equity_drawdown_worsened _ _) =
    CircuitBreakerReason.equity_drawdown_limit
violation_reason (CircuitBreakerViolation.broker_rejections _ _) =
    CircuitBreakerReason.consecutive_broker_rejections
violation_reason (CircuitBreakerViolation.command_failures _ _) =
    CircuitBreakerReason.consecutive_command_failures
violation_reason (CircuitBreakerViolation.manual_reconciliation _) =
    CircuitBreakerReason.manual_reconciliation_required
violation_reason CircuitBreakerViolation.store_recovery_pending =
    CircuitBreakerReason.store_recovery_reconciliation_pending
violation_reason (CircuitBreakerViolation.time_sync _ _) = CircuitBreakerReason.time_sync_unhealthy
violation_reason (CircuitBreakerViolation.stale_snapshot _ _) = CircuitBreakerReason.snapshot_stale
violation_reason (CircuitBreakerViolation.stale_symbol_metadata _ _) =
    CircuitBreakerReason.symbol_metadata_stale
violation_reason (CircuitBreakerViolation.triggered_manually _ _) =
    CircuitBreakerReason.manual_trigger
violation_reason CircuitBreakerViolation.hard_risk_during_recovery =
    CircuitBreakerReason.hard_risk_violation_during_recovery
violation_reason CircuitBreakerViolation.safety_violation =
    CircuitBreakerReason.safety_invariant_violation

-- `CircuitBreakerViolation::source`.
unfoldable pub violation_source : CircuitBreakerViolation → CircuitBreakerTriggerSource
violation_source (CircuitBreakerViolation.daily_realized_loss _ _) =
    CircuitBreakerTriggerSource.risk_telemetry
violation_source (CircuitBreakerViolation.daily_realized_loss_worsened _ _) =
    CircuitBreakerTriggerSource.risk_telemetry
violation_source (CircuitBreakerViolation.equity_drawdown _ _) =
    CircuitBreakerTriggerSource.risk_telemetry
violation_source (CircuitBreakerViolation.equity_drawdown_worsened _ _) =
    CircuitBreakerTriggerSource.risk_telemetry
violation_source (CircuitBreakerViolation.broker_rejections _ _) =
    CircuitBreakerTriggerSource.broker
violation_source (CircuitBreakerViolation.command_failures _ _) =
    CircuitBreakerTriggerSource.execution
violation_source (CircuitBreakerViolation.manual_reconciliation _) =
    CircuitBreakerTriggerSource.reconciliation
violation_source CircuitBreakerViolation.store_recovery_pending =
    CircuitBreakerTriggerSource.store_recovery
violation_source (CircuitBreakerViolation.time_sync _ _) = CircuitBreakerTriggerSource.clock
violation_source (CircuitBreakerViolation.stale_snapshot _ _) =
    CircuitBreakerTriggerSource.snapshot_health
violation_source (CircuitBreakerViolation.stale_symbol_metadata _ _) =
    CircuitBreakerTriggerSource.snapshot_health
violation_source (CircuitBreakerViolation.triggered_manually operator_id _) =
    CircuitBreakerTriggerSource.operator operator_id
violation_source CircuitBreakerViolation.hard_risk_during_recovery =
    CircuitBreakerTriggerSource.execution
violation_source CircuitBreakerViolation.safety_violation =
    CircuitBreakerTriggerSource.safety_invariant

unfoldable pub incident_evidence_reason : CircuitBreakerIncidentEvidence → CircuitBreakerReason
incident_evidence_reason (CircuitBreakerIncidentEvidence.daily_realized_loss _ _) =
    CircuitBreakerReason.daily_realized_loss_limit
incident_evidence_reason (CircuitBreakerIncidentEvidence.daily_realized_loss_worsened _ _) =
    CircuitBreakerReason.daily_realized_loss_limit
incident_evidence_reason (CircuitBreakerIncidentEvidence.equity_drawdown _ _) =
    CircuitBreakerReason.equity_drawdown_limit
incident_evidence_reason (CircuitBreakerIncidentEvidence.equity_drawdown_worsened _ _) =
    CircuitBreakerReason.equity_drawdown_limit
incident_evidence_reason (CircuitBreakerIncidentEvidence.broker_rejections _ _) =
    CircuitBreakerReason.consecutive_broker_rejections
incident_evidence_reason (CircuitBreakerIncidentEvidence.command_failures _ _) =
    CircuitBreakerReason.consecutive_command_failures
incident_evidence_reason (CircuitBreakerIncidentEvidence.manual_reconciliation _) =
    CircuitBreakerReason.manual_reconciliation_required
incident_evidence_reason CircuitBreakerIncidentEvidence.store_recovery_pending =
    CircuitBreakerReason.store_recovery_reconciliation_pending
incident_evidence_reason (CircuitBreakerIncidentEvidence.time_sync _ _) =
    CircuitBreakerReason.time_sync_unhealthy
incident_evidence_reason (CircuitBreakerIncidentEvidence.stale_snapshot _ _) =
    CircuitBreakerReason.snapshot_stale
incident_evidence_reason (CircuitBreakerIncidentEvidence.stale_symbol_metadata _ _) =
    CircuitBreakerReason.symbol_metadata_stale
incident_evidence_reason (CircuitBreakerIncidentEvidence.triggered_manually _ _) =
    CircuitBreakerReason.manual_trigger
incident_evidence_reason CircuitBreakerIncidentEvidence.hard_risk_during_recovery =
    CircuitBreakerReason.hard_risk_violation_during_recovery
incident_evidence_reason CircuitBreakerIncidentEvidence.safety_violation =
    CircuitBreakerReason.safety_invariant_violation
incident_evidence_reason (CircuitBreakerIncidentEvidence.safety_error _) =
    CircuitBreakerReason.safety_invariant_violation

unfoldable pub incident_evidence_source :
    CircuitBreakerIncidentEvidence → CircuitBreakerTriggerSource
incident_evidence_source (CircuitBreakerIncidentEvidence.daily_realized_loss _ _) =
    CircuitBreakerTriggerSource.risk_telemetry
incident_evidence_source (CircuitBreakerIncidentEvidence.daily_realized_loss_worsened _ _) =
    CircuitBreakerTriggerSource.risk_telemetry
incident_evidence_source (CircuitBreakerIncidentEvidence.equity_drawdown _ _) =
    CircuitBreakerTriggerSource.risk_telemetry
incident_evidence_source (CircuitBreakerIncidentEvidence.equity_drawdown_worsened _ _) =
    CircuitBreakerTriggerSource.risk_telemetry
incident_evidence_source (CircuitBreakerIncidentEvidence.broker_rejections _ _) =
    CircuitBreakerTriggerSource.broker
incident_evidence_source (CircuitBreakerIncidentEvidence.command_failures _ _) =
    CircuitBreakerTriggerSource.execution
incident_evidence_source (CircuitBreakerIncidentEvidence.manual_reconciliation _) =
    CircuitBreakerTriggerSource.reconciliation
incident_evidence_source CircuitBreakerIncidentEvidence.store_recovery_pending =
    CircuitBreakerTriggerSource.store_recovery
incident_evidence_source (CircuitBreakerIncidentEvidence.time_sync _ _) =
    CircuitBreakerTriggerSource.clock
incident_evidence_source (CircuitBreakerIncidentEvidence.stale_snapshot _ _) =
    CircuitBreakerTriggerSource.snapshot_health
incident_evidence_source (CircuitBreakerIncidentEvidence.stale_symbol_metadata _ _) =
    CircuitBreakerTriggerSource.snapshot_health
incident_evidence_source (CircuitBreakerIncidentEvidence.triggered_manually operator_id _) =
    CircuitBreakerTriggerSource.operator operator_id
incident_evidence_source CircuitBreakerIncidentEvidence.hard_risk_during_recovery =
    CircuitBreakerTriggerSource.execution
incident_evidence_source CircuitBreakerIncidentEvidence.safety_violation =
    CircuitBreakerTriggerSource.safety_invariant
incident_evidence_source (CircuitBreakerIncidentEvidence.safety_error _) =
    CircuitBreakerTriggerSource.safety_invariant

-- The closure that `incident_fingerprint` maps over the violations.
unfoldable pub violation_evidence :
    Option ℤ → CircuitBreakerViolation → CircuitBreakerIncidentEvidence
violation_evidence since (CircuitBreakerViolation.daily_realized_loss a b) =
    CircuitBreakerIncidentEvidence.daily_realized_loss a b
violation_evidence since (CircuitBreakerViolation.daily_realized_loss_worsened a b) =
    CircuitBreakerIncidentEvidence.daily_realized_loss_worsened a b
violation_evidence since (CircuitBreakerViolation.equity_drawdown a b) =
    CircuitBreakerIncidentEvidence.equity_drawdown a b
violation_evidence since (CircuitBreakerViolation.equity_drawdown_worsened a b) =
    CircuitBreakerIncidentEvidence.equity_drawdown_worsened a b
violation_evidence since (CircuitBreakerViolation.broker_rejections a b) =
    CircuitBreakerIncidentEvidence.broker_rejections a b
violation_evidence since (CircuitBreakerViolation.command_failures a b) =
    CircuitBreakerIncidentEvidence.command_failures a b
violation_evidence since (CircuitBreakerViolation.manual_reconciliation a) =
    CircuitBreakerIncidentEvidence.manual_reconciliation a
violation_evidence since CircuitBreakerViolation.store_recovery_pending =
    CircuitBreakerIncidentEvidence.store_recovery_pending
violation_evidence since (CircuitBreakerViolation.time_sync _ b) =
    CircuitBreakerIncidentEvidence.time_sync since b
violation_evidence since (CircuitBreakerViolation.stale_snapshot a b) =
    CircuitBreakerIncidentEvidence.stale_snapshot a b
violation_evidence since (CircuitBreakerViolation.stale_symbol_metadata a b) =
    CircuitBreakerIncidentEvidence.stale_symbol_metadata a b
violation_evidence since (CircuitBreakerViolation.triggered_manually a b) =
    CircuitBreakerIncidentEvidence.triggered_manually a b
violation_evidence since CircuitBreakerViolation.hard_risk_during_recovery =
    CircuitBreakerIncidentEvidence.hard_risk_during_recovery
violation_evidence since CircuitBreakerViolation.safety_violation =
    CircuitBreakerIncidentEvidence.safety_violation

abbrev pub unhealthy_since : Option CircuitBreakerInput → Option ℤ
unhealthy_since none = none
unhealthy_since (some input) = input.time_sync_unhealthy_since_ms

unfoldable pub incident_fingerprint :
    List CircuitBreakerViolation → Option CircuitBreakerInput → CircuitBreakerIncidentFingerprint
incident_fingerprint violations input = map (violation_evidence (unhealthy_since input)) violations

unfoldable pub error_fingerprint_has_blank_text : CircuitBreakerErrorFingerprint → Bool
error_fingerprint_has_blank_text (CircuitBreakerErrorFingerprint.invalid_policy field req) =
    is_blank field || is_blank req
error_fingerprint_has_blank_text (CircuitBreakerErrorFingerprint.invalid_input field req) =
    is_blank field || is_blank req
error_fingerprint_has_blank_text
      (CircuitBreakerErrorFingerprint.manual_reset_evidence_missing field) =
    is_blank field
error_fingerprint_has_blank_text _ = false

unfoldable pub incident_evidence_has_blank_text : CircuitBreakerIncidentEvidence → Bool
incident_evidence_has_blank_text
      (CircuitBreakerIncidentEvidence.triggered_manually operator_id reason) =
    is_blank operator_id || is_blank reason
incident_evidence_has_blank_text (CircuitBreakerIncidentEvidence.safety_error e) =
    error_fingerprint_has_blank_text e
incident_evidence_has_blank_text _ = false
