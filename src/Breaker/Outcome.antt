-- ===== src/Breaker/Outcome.antt =====
-- crates/risk/src/circuit_breaker.rs: the outcome that every operation of the breaker returns.
use sinan.Prelude.{ℤ, String, List, [], Option, none, some}
use sinan.Breaker.Types.{CircuitBreakerStatus, CircuitBreakerError}
use sinan.Breaker.Incident.{CircuitBreakerViolation}
use sinan.Breaker.State.{CircuitBreakerState}

pub record ManualResetAuditRecord : Type 0 where
  pub audit_event_id : String
  pub operator_id : String
  pub reason : String
  pub evidence : String
  pub before_state : CircuitBreakerStatus
  pub after_state : CircuitBreakerStatus
  pub recorded_at_ms : ℤ

pub data CircuitBreakerTransition : Type 0 where
  no_change opened entered_half_open reopened closed : CircuitBreakerTransition
  safety_fallback_opened incident_evidence_cleared : CircuitBreakerTransition
  blocked_intent_count_advanced : CircuitBreakerTransition

pub record CircuitBreakerOutcome : Type 0 where
  pub state : CircuitBreakerState
  pub transition : CircuitBreakerTransition
  pub violations : List CircuitBreakerViolation
  pub error : Option CircuitBreakerError
  pub manual_reset_audit : Option ManualResetAuditRecord

unfoldable pub unchanged : CircuitBreakerState → CircuitBreakerOutcome
unchanged s = record {
  state = s;
  transition = CircuitBreakerTransition.no_change;
  violations = [];
  error = none;
  manual_reset_audit = none;
}

unfoldable pub with_error : CircuitBreakerState → CircuitBreakerError → CircuitBreakerOutcome
with_error s e = record {
  state = s;
  transition = CircuitBreakerTransition.no_change;
  violations = [];
  error = some e;
  manual_reset_audit = none;
}
