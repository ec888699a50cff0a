-- ===== src/Breaker/Machine.antt =====
-- crates/risk/src/circuit_breaker.rs: the operations of the state machine and `transition`, which
-- selects one. `open` of the source is `open_incident`, given its violations as a first one and the
-- others: each of its callers has tested that there is one, which is what its `expect` relies on.
use sinan.Prelude.{
  ℕ, ℤ, pos, List, [], ◌∷◌, Bool, true, false, Option, none, some, is_negative, max_ℤ, checked_suc,
  if◌then◌else◌,
}
use mathlib.Core.Bool.{decide}
use sinan.Breaker.Types.{
  CircuitBreakerStatus, closed, opened, half_open, CircuitBreakerReason,
  CircuitBreakerTriggerSource, CircuitBreakerError, error_fingerprint,
}
use sinan.Breaker.Incident.{
  CircuitBreakerViolation, CircuitBreakerIncidentEvidence, CircuitBreakerIncidentFingerprint,
  fingerprint_discrete,
}
use sinan.Breaker.State.{CircuitBreakerState, latest_transition_at_ms}
use sinan.Breaker.Outcome.{CircuitBreakerOutcome, CircuitBreakerTransition}
use sinan.Breaker.Evidence.{violation_reason, violation_source}

-- `server_now_ms.max(0)`.
abbrev pub at_least_zero : ℤ → ℤ
at_least_zero now = if is_negative now then pos 0 else now

-- `latest_transition_at_ms().map_or(now.max(0), |latest| latest.max(now.max(0)))`.
unfoldable pub fallback_at_ms : CircuitBreakerState → ℤ → ℤ
fallback_at_ms s now = elim (latest_transition_at_ms s) [
  | none ↦ at_least_zero now
  | some latest ↦ max_ℤ latest (at_least_zero now)
]

-- The state after an incident: what `open` and `recovery_epoch_overflow` write.
unfoldable pub incident_state :
    CircuitBreakerState
    → ℕ
    → CircuitBreakerReason
    → CircuitBreakerTriggerSource
    → CircuitBreakerIncidentFingerprint
    → ℤ
    → CircuitBreakerState
incident_state s epoch cause source fingerprint at = record s {
  recovery_epoch = epoch;
  status = opened;
  reason = cause;
  triggered_at_ms = some at;
  triggered_by = some source;
  last_incident_fingerprint = some fingerprint;
  incident_evidence_cleared_at_ms = none;
  half_opened_at_ms = none;
  half_open_daily_loss_baseline_bps = none;
  half_open_drawdown_baseline_bps = none;
  reset_at_ms = none;
  reset_by = none;
}

abbrev pub safety_error_fingerprint : CircuitBreakerError → CircuitBreakerIncidentFingerprint
safety_error_fingerprint e = CircuitBreakerIncidentEvidence.safety_error (error_fingerprint e) ∷ []

unfoldable pub epoch_overflow : CircuitBreakerState → ℤ → CircuitBreakerOutcome
epoch_overflow s now = record {
  state =
      incident_state s s.recovery_epoch CircuitBreakerReason.safety_invariant_violation
        CircuitBreakerTriggerSource.safety_invariant
        (safety_error_fingerprint CircuitBreakerError.recovery_epoch_overflow)
        (fallback_at_ms s now);
  transition = CircuitBreakerTransition.safety_fallback_opened;
  violations = CircuitBreakerViolation.safety_violation ∷ [];
  error = some CircuitBreakerError.recovery_epoch_overflow;
  manual_reset_audit = none;
}

unfoldable pub open_incident :
    CircuitBreakerState
    → CircuitBreakerViolation
    → List CircuitBreakerViolation
    → CircuitBreakerIncidentFingerprint
    → ℤ
    → Bool
    → CircuitBreakerOutcome
open_incident s primary others fingerprint now reopened = elim (checked_suc s.recovery_epoch) [
  | none ↦ epoch_overflow s now
  | some epoch ↦ record {
    state =
        incident_state s epoch (violation_reason primary) (violation_source primary) fingerprint
          now;
    transition =
        if reopened then CircuitBreakerTransition.reopened else CircuitBreakerTransition.opened;
    violations = primary ∷ others;
    error = none;
    manual_reset_audit = none;
  }
]

-- `state.last_incident_fingerprint.as_ref() == Some(&fingerprint)`.
unfoldable pub same_fingerprint :
    Option CircuitBreakerIncidentFingerprint → CircuitBreakerIncidentFingerprint → Bool
same_fingerprint none fingerprint = false
same_fingerprint (some last) fingerprint = decide (fingerprint_discrete last fingerprint)

unfoldable pub is_overflow : Option CircuitBreakerError → Bool
is_overflow (some CircuitBreakerError.recovery_epoch_overflow) = true
is_overflow _ = false

-- The end of `safety_fallback`: an overflow stands, any other outcome carries the error.
unfoldable pub as_fallback : CircuitBreakerError → CircuitBreakerOutcome → CircuitBreakerOutcome
as_fallback e o =
    if is_overflow o.error
    then o
    else record o { transition = CircuitBreakerTransition.safety_fallback_opened; error = some e }

abbrev pub safety_incident :
    CircuitBreakerState → ℤ → CircuitBreakerError → Bool → CircuitBreakerOutcome
safety_incident s now e reopened =
    open_incident s CircuitBreakerViolation.safety_violation [] (safety_error_fingerprint e)
      (fallback_at_ms s now) reopened

unfoldable pub fallback_by_status :
    CircuitBreakerStatus → CircuitBreakerState → ℤ → CircuitBreakerError → CircuitBreakerOutcome
fallback_by_status opened s now e =
    if same_fingerprint s.last_incident_fingerprint (safety_error_fingerprint e)
    then record {
      state = s;
      transition = CircuitBreakerTransition.no_change;
      violations = CircuitBreakerViolation.safety_violation ∷ [];
      error = some e;
      manual_reset_audit = none;
    }
    else as_fallback e (safety_incident s now e true)
fallback_by_status half_open s now e = as_fallback e (safety_incident s now e true)
fallback_by_status closed s now e = as_fallback e (safety_incident s now e false)

unfoldable pub safety_fallback :
    CircuitBreakerState → ℤ → CircuitBreakerError → CircuitBreakerOutcome
safety_fallback s now e = fallback_by_status s.status s now e
