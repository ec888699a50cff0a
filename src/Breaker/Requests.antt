-- ===== src/Breaker/Requests.antt =====
-- crates/risk/src/circuit_breaker.rs: the requests that the state machine serves, and `transition`.
use sinan.Prelude.{
  ℤ, List, [], ◌∷◌, map, true, false, Option, none, some, Result, ok, err, keep_if, if◌then◌else◌,
  ◌==◌, is_some,
}
use sinan.Breaker.Types.{
  CircuitBreakerPolicy, CircuitBreakerStatus, closed, opened, half_open, CircuitBreakerError,
  RecoveryPrerequisite,
}
use sinan.Breaker.Incident.{CircuitBreakerViolation, CircuitBreakerIncidentEvidence}
use sinan.Breaker.Input.{CircuitBreakerInput, HalfOpenReadiness}
use sinan.Breaker.State.{CircuitBreakerState}
use sinan.Breaker.Outcome.{CircuitBreakerOutcome, CircuitBreakerTransition, unchanged, with_error}
use sinan.Breaker.Evidence.{violation_reason, incident_fingerprint}
use sinan.Breaker.Policy.{missing_half_open_prerequisites}
use sinan.Breaker.Detect.{collect_violations, filter_half_open_violations, is_blocking}
use sinan.Breaker.Machine.{open_incident, same_fingerprint, safety_fallback}

abbrev pub fingerprint_of :
    CircuitBreakerViolation
    → List CircuitBreakerViolation
    → CircuitBreakerInput
    → List CircuitBreakerIncidentEvidence
fingerprint_of v vs input = incident_fingerprint (v ∷ vs) (some input)

abbrev pub seen_with : CircuitBreakerState → List CircuitBreakerViolation → CircuitBreakerOutcome
seen_with s vs = record (unchanged s) { violations = vs }

unfoldable pub half_open_outcome :
    CircuitBreakerState
    → Result CircuitBreakerError (List CircuitBreakerViolation)
    → CircuitBreakerInput
    → ℤ
    → CircuitBreakerOutcome
half_open_outcome s (err e) input now = safety_fallback s now e
half_open_outcome s (ok []) input now = unchanged s
half_open_outcome s (ok (v ∷ vs)) input now =
    open_incident s v vs (fingerprint_of v vs input) now true

unfoldable pub observe_half_open :
    CircuitBreakerState
    → List CircuitBreakerViolation
    → CircuitBreakerInput
    → ℤ
    → CircuitBreakerOutcome
observe_half_open s all input now =
    half_open_outcome s (filter_half_open_violations s all input) input now

unfoldable pub cleared_state : CircuitBreakerState → ℤ → CircuitBreakerState
cleared_state s now = record s {
  last_incident_fingerprint = none;
  incident_evidence_cleared_at_ms = some now;
}

-- The arms of the `match` of `observe`.
unfoldable pub observed :
    CircuitBreakerStatus
    → List CircuitBreakerViolation
    → CircuitBreakerState
    → CircuitBreakerInput
    → ℤ
    → CircuitBreakerOutcome
observed closed (v ∷ vs) s input now = open_incident s v vs (fingerprint_of v vs input) now false
observed half_open vs s input now = observe_half_open s vs input now
observed opened (v ∷ vs) s input now =
    if same_fingerprint s.last_incident_fingerprint (fingerprint_of v vs input)
    then seen_with s (v ∷ vs)
    else open_incident s v vs (fingerprint_of v vs input) now true
observed opened [] s input now =
    if is_some s.last_incident_fingerprint
    then record {
      state = cleared_state s now;
      transition = CircuitBreakerTransition.incident_evidence_cleared;
      violations = [];
      error = none;
      manual_reset_audit = none;
    }
    else seen_with s []
observed closed [] s input now = seen_with s []

unfoldable pub observe :
    CircuitBreakerPolicy → CircuitBreakerState → CircuitBreakerInput → ℤ → CircuitBreakerOutcome
observe policy s input now = elim (collect_violations policy input now) [
  | ok vs ↦ observed s.status vs s input now
  | err e ↦ safety_fallback s now e
]

unfoldable pub half_open_state : CircuitBreakerState → CircuitBreakerInput → ℤ → CircuitBreakerState
half_open_state s input now = record s {
  status = half_open;
  half_opened_at_ms = some now;
  half_open_daily_loss_baseline_bps = some input.daily_realized_loss_bps;
  half_open_drawdown_baseline_bps = some input.equity_drawdown_bps;
}

-- The end of `enter_half_open`, given the prerequisites that are missing.
unfoldable pub ready_outcome :
    CircuitBreakerState
    → List CircuitBreakerViolation
    → CircuitBreakerInput
    → Result CircuitBreakerError (List RecoveryPrerequisite)
    → ℤ
    → CircuitBreakerOutcome
ready_outcome s vs input (err e) now = safety_fallback s now e
ready_outcome s vs input (ok (p ∷ ps)) now =
    with_error s (CircuitBreakerError.recovery_prerequisites_missing (p ∷ ps))
ready_outcome s vs input (ok []) now = record {
  state = half_open_state s input now;
  transition = CircuitBreakerTransition.entered_half_open;
  violations = vs;
  error = none;
  manual_reset_audit = none;
}

-- `enter_half_open` from the time at which the incident was triggered on.
unfoldable pub with_readiness :
    CircuitBreakerState
    → HalfOpenReadiness
    → List CircuitBreakerViolation
    → CircuitBreakerInput
    → Option ℤ
    → ℤ
    → CircuitBreakerOutcome
with_readiness s readiness vs input none now = safety_fallback s now (
    CircuitBreakerError.invalid_input "state.triggered_at_ms"
      "must be present while the breaker is open")
with_readiness s readiness vs input (some triggered_at) now =
    if readiness.recovery_epoch == s.recovery_epoch
    then ready_outcome s vs input (missing_half_open_prerequisites readiness triggered_at now) now
    else with_error s
        (CircuitBreakerError.recovery_epoch_mismatch s.recovery_epoch readiness.recovery_epoch)

-- `enter_half_open` after the fingerprint was compared: the violations that block it.
unfoldable pub unless_any :
    CircuitBreakerState
    → HalfOpenReadiness
    → List CircuitBreakerViolation
    → CircuitBreakerInput
    → List CircuitBreakerViolation
    → ℤ
    → CircuitBreakerOutcome
unless_any s readiness vs input (b ∷ bs) now =
    record (with_error s
      (CircuitBreakerError.recovery_blocked_by_violations (map violation_reason (b ∷ bs)))) {
        violations = vs;
      }
unless_any s readiness vs input [] now = with_readiness s readiness vs input s.triggered_at_ms now

unfoldable pub unless_blocked :
    CircuitBreakerState
    → HalfOpenReadiness
    → List CircuitBreakerViolation
    → CircuitBreakerInput
    → ℤ
    → CircuitBreakerOutcome
unless_blocked s readiness vs input now =
    unless_any s readiness vs input (keep_if is_blocking vs) now

unfoldable pub entered :
    CircuitBreakerState
    → HalfOpenReadiness
    → List CircuitBreakerViolation
    → CircuitBreakerInput
    → ℤ
    → CircuitBreakerOutcome
entered s readiness [] input now = unless_blocked s readiness [] input now
entered s readiness (v ∷ vs) input now =
    if same_fingerprint s.last_incident_fingerprint (fingerprint_of v vs input)
    then unless_blocked s readiness (v ∷ vs) input now
    else open_incident s v vs (fingerprint_of v vs input) now true

unfoldable pub enter_by_status :
    CircuitBreakerStatus
    → CircuitBreakerPolicy
    → CircuitBreakerState
    → HalfOpenReadiness
    → CircuitBreakerInput
    → ℤ
    → CircuitBreakerOutcome
enter_by_status closed policy s readiness input now = unchanged s
enter_by_status half_open policy s readiness input now = observe policy s input now
enter_by_status opened policy s readiness input now = elim (collect_violations policy input now) [
  | ok vs ↦ entered s readiness vs input now
  | err e ↦ safety_fallback s now e
]

unfoldable pub enter_half_open :
    CircuitBreakerPolicy
    → CircuitBreakerState
    → HalfOpenReadiness
    → CircuitBreakerInput
    → ℤ
    → CircuitBreakerOutcome
enter_half_open policy s readiness input now = enter_by_status s.status policy s readiness input now
