-- ===== src/Breaker/Incident.antt =====
-- crates/risk/src/circuit_breaker.rs: violations, the durable evidence kept of them, and the
-- reason and the source that each one stands for.
use sinan.Prelude.{ℕ, ℤ, String, List, Option, ℕ_discrete, ℤ-discrete, String-discrete}
use sinan.Breaker.Types.{CircuitBreakerErrorFingerprint, CircuitBreakerErrorFingerprint-discrete}

pub data CircuitBreakerViolation : Type 0 where
  daily_realized_loss : (observed_bps threshold_bps : ℕ) → CircuitBreakerViolation
  daily_realized_loss_worsened : (baseline_bps observed_bps : ℕ) → CircuitBreakerViolation
  equity_drawdown : (observed_bps threshold_bps : ℕ) → CircuitBreakerViolation
  equity_drawdown_worsened : (baseline_bps observed_bps : ℕ) → CircuitBreakerViolation
  broker_rejections : (observed threshold : ℕ) → CircuitBreakerViolation
  command_failures : (observed threshold : ℕ) → CircuitBreakerViolation
  manual_reconciliation : (count : ℕ) → CircuitBreakerViolation
  store_recovery_pending : CircuitBreakerViolation
  time_sync : (unhealthy_for_ms threshold_ms : ℤ) → CircuitBreakerViolation
  stale_snapshot : (consecutive_count threshold : ℕ) → CircuitBreakerViolation
  stale_symbol_metadata : (consecutive_count threshold : ℕ) → CircuitBreakerViolation
  triggered_manually : (operator_id reason : String) → CircuitBreakerViolation
  hard_risk_during_recovery : CircuitBreakerViolation
  safety_violation : CircuitBreakerViolation

pub data CircuitBreakerIncidentEvidence : Type 0 where
  daily_realized_loss : (observed_bps threshold_bps : ℕ) → CircuitBreakerIncidentEvidence
  daily_realized_loss_worsened : (baseline_bps observed_bps : ℕ) → CircuitBreakerIncidentEvidence
  equity_drawdown : (observed_bps threshold_bps : ℕ) → CircuitBreakerIncidentEvidence
  equity_drawdown_worsened : (baseline_bps observed_bps : ℕ) → CircuitBreakerIncidentEvidence
  broker_rejections : (observed threshold : ℕ) → CircuitBreakerIncidentEvidence
  command_failures : (observed threshold : ℕ) → CircuitBreakerIncidentEvidence
  manual_reconciliation : (count : ℕ) → CircuitBreakerIncidentEvidence
  store_recovery_pending : CircuitBreakerIncidentEvidence
  time_sync : (unhealthy_since_ms : Option ℤ) (threshold_ms : ℤ) → CircuitBreakerIncidentEvidence
  stale_snapshot : (consecutive_count threshold : ℕ) → CircuitBreakerIncidentEvidence
  stale_symbol_metadata : (consecutive_count threshold : ℕ) → CircuitBreakerIncidentEvidence
  triggered_manually : (operator_id reason : String) → CircuitBreakerIncidentEvidence
  hard_risk_during_recovery : CircuitBreakerIncidentEvidence
  safety_violation : CircuitBreakerIncidentEvidence
  safety_error : CircuitBreakerErrorFingerprint → CircuitBreakerIncidentEvidence

pub CircuitBreakerIncidentEvidence-discrete : Discrete CircuitBreakerIncidentEvidence
CircuitBreakerIncidentEvidence-discrete =
    hlevel (String-discrete, ℤ-discrete, ℕ_discrete, CircuitBreakerErrorFingerprint-discrete)

-- `struct CircuitBreakerIncidentFingerprint(Vec<CircuitBreakerIncidentEvidence>)`.
abbrev pub CircuitBreakerIncidentFingerprint : Type 0
CircuitBreakerIncidentFingerprint = List CircuitBreakerIncidentEvidence

pub fingerprint_discrete : Discrete CircuitBreakerIncidentFingerprint
fingerprint_discrete = hlevel CircuitBreakerIncidentEvidence-discrete
