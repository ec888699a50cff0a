-- ===== src/Breaker/Closing.antt =====
-- crates/risk/src/circuit_breaker.rs: `close`, `record_blocked_intent_count`, and `transition`.
use sinan.Prelude.{
  ℕ, ℤ, String, List, [], ◌∷◌, ◌++◌, true, Option, none, some, Result, ok, err, ◌>>=◌, is_negative,
  ltb_ℤ, leb, wrapping_sub, if◌then◌else◌,
}
use sinan.Breaker.Types.{
  CircuitBreakerPolicy, CircuitBreakerStatus, closed, opened, half_open, CircuitBreakerReason,
  CircuitBreakerError, RecoveryPrerequisite, TransitionRequestKind,
}
use sinan.Breaker.Incident.{CircuitBreakerViolation}
use sinan.Breaker.Input.{RecoveryHealth, ManualResetEvidence, ResetAuthorization, TransitionRequest}
use sinan.Breaker.State.{CircuitBreakerState, latest_transition_at_ms}
use sinan.Breaker.Outcome.{
  CircuitBreakerOutcome, CircuitBreakerTransition, ManualResetAuditRecord, unchanged, with_error,
}
use sinan.Breaker.Evidence.{incident_fingerprint}
use sinan.Breaker.Policy.{validate, validate_manual_reset_evidence}
use sinan.Breaker.Detect.{half_open_violations}
use sinan.Breaker.Machine.{open_incident, safety_fallback}
use sinan.Breaker.Requests.{observe, enter_half_open}

unfoldable pub closed_state : CircuitBreakerState → String → ℤ → CircuitBreakerState
closed_state s by now = record s {
  status = closed;
  reason = CircuitBreakerReason.okay;
  half_opened_at_ms = none;
  half_open_daily_loss_baseline_bps = none;
  half_open_drawdown_baseline_bps = none;
  reset_at_ms = some now;
  reset_by = some by;
}

unfoldable pub closing :
    CircuitBreakerState → String → Option ManualResetAuditRecord → ℤ → CircuitBreakerOutcome
closing s by audit now = record {
  state = closed_state s by now;
  transition = CircuitBreakerTransition.closed;
  violations = [];
  error = none;
  manual_reset_audit = audit;
}

unfoldable pub audit_of : ManualResetEvidence → ℤ → ManualResetAuditRecord
audit_of e now = record {
  audit_event_id = e.audit_event_id;
  operator_id = e.operator_id;
  reason = e.reason;
  evidence = e.evidence;
  before_state = half_open;
  after_state = closed;
  recorded_at_ms = now;
}

-- The `match` on the authorization, which ends `close`.
unfoldable pub authorized :
    CircuitBreakerPolicy → CircuitBreakerState → ResetAuthorization → ℤ → CircuitBreakerOutcome
authorized policy s ResetAuthorization.automatic now =
    if policy.auto_reset
    then closing s "AUTOMATIC" none now
    else with_error s CircuitBreakerError.automatic_reset_disabled
authorized policy s (ResetAuthorization.operator evidence) now =
    elim (validate_manual_reset_evidence evidence) [
      | ok _ ↦ closing s evidence.operator_id (some (audit_of evidence now)) now
      | err e ↦ with_error s e
    ]

-- The observation window. `-` on `i64` wraps around.
unfoldable pub after_window :
    CircuitBreakerPolicy
    → CircuitBreakerState
    → ResetAuthorization
    → Option ℤ
    → ℤ
    → CircuitBreakerOutcome
after_window policy s authorization none now =
    safety_fallback s now CircuitBreakerError.half_open_baseline_missing
after_window policy s authorization (some half_opened_at) now =
    let elapsed = wrapping_sub now half_opened_at in
    if ltb_ℤ elapsed policy.half_open_observation_ms
    then with_error s (
        CircuitBreakerError.half_open_observation_not_complete
          (wrapping_sub policy.half_open_observation_ms elapsed))
    else authorized policy s authorization now

unfoldable pub unhealthy : RecoveryHealth → List RecoveryPrerequisite
unhealthy health =
    (if health.clock_healthy then [] else RecoveryPrerequisite.clock_health ∷ [])
    ++ (if health.state_store_healthy then [] else RecoveryPrerequisite.state_store_health ∷ [])

unfoldable pub if_healthy :
    CircuitBreakerPolicy
    → CircuitBreakerState
    → List RecoveryPrerequisite
    → ResetAuthorization
    → ℤ
    → CircuitBreakerOutcome
if_healthy policy s (p ∷ ps) authorization now =
    with_error s (CircuitBreakerError.recovery_prerequisites_missing (p ∷ ps))
if_healthy policy s [] authorization now =
    after_window policy s authorization s.half_opened_at_ms now

-- The end of `close`, given the violations.
unfoldable pub close_outcome :
    CircuitBreakerPolicy
    → CircuitBreakerState
    → RecoveryHealth
    → ResetAuthorization
    → Result CircuitBreakerError (List CircuitBreakerViolation)
    → ℤ
    → CircuitBreakerOutcome
close_outcome policy s health authorization (err e) now = safety_fallback s now e
close_outcome policy s health authorization (ok (v ∷ vs)) now =
    open_incident s v vs (incident_fingerprint (v ∷ vs) (some health.input)) now true
close_outcome policy s health authorization (ok []) now =
    if_healthy policy s (unhealthy health) authorization now

-- The violations of `close`: those of the half-open state, and one for a reported violation.
unfoldable pub close_violations :
    CircuitBreakerPolicy
    → CircuitBreakerState
    → RecoveryHealth
    → ℤ
    → Result CircuitBreakerError (List CircuitBreakerViolation)
close_violations policy s health now = do
  vs ← half_open_violations policy s health.input now
  ok (
      if health.new_hard_risk_violation
      then vs ++ CircuitBreakerViolation.hard_risk_during_recovery ∷ []
      else vs)

unfoldable pub close_by_status :
    CircuitBreakerStatus
    → CircuitBreakerPolicy
    → CircuitBreakerState
    → RecoveryHealth
    → ResetAuthorization
    → ℤ
    → CircuitBreakerOutcome
close_by_status closed policy s health authorization now = unchanged s
close_by_status opened policy s health authorization now =
    with_error s (CircuitBreakerError.invalid_transition s.status TransitionRequestKind.close)
close_by_status half_open policy s health authorization now =
    close_outcome policy s health authorization (close_violations policy s health now) now

unfoldable pub close :
    CircuitBreakerPolicy
    → CircuitBreakerState
    → RecoveryHealth
    → ResetAuthorization
    → ℤ
    → CircuitBreakerOutcome
close policy s health authorization now = close_by_status s.status policy s health authorization now

unfoldable pub record_blocked_intent_count : CircuitBreakerState → ℕ → CircuitBreakerOutcome
record_blocked_intent_count s observed_total =
    if leb observed_total s.blocked_intent_count then unchanged s else record {
      state = record s { blocked_intent_count = observed_total };
      transition = CircuitBreakerTransition.blocked_intent_count_advanced;
      violations = [];
      error = none;
      manual_reset_audit = none;
    }

-- The `match` of `transition` on the request.
unfoldable pub serve :
    CircuitBreakerPolicy → CircuitBreakerState → TransitionRequest → ℤ → CircuitBreakerOutcome
serve policy s (TransitionRequest.observe input) now = observe policy s input now
serve policy s (TransitionRequest.enter_half_open readiness input) now =
    enter_half_open policy s readiness input now
serve policy s (TransitionRequest.close health authorization) now =
    close policy s health authorization now
serve policy s (TransitionRequest.record_blocked_intent_count observed_total) now =
    record_blocked_intent_count s observed_total

-- The guard against a server time that runs backwards.
unfoldable pub unless_regressed :
    CircuitBreakerPolicy
    → CircuitBreakerState
    → TransitionRequest
    → Option ℤ
    → ℤ
    → CircuitBreakerOutcome
unless_regressed policy s request none now = serve policy s request now
unless_regressed policy s request (some latest) now =
    if ltb_ℤ now latest
    then safety_fallback s now (CircuitBreakerError.server_time_regressed latest now)
    else serve policy s request now

unfoldable pub transition :
    CircuitBreakerPolicy → CircuitBreakerState → TransitionRequest → ℤ → CircuitBreakerOutcome
transition policy s request now =
    if is_negative now
    then safety_fallback s now
        (CircuitBreakerError.invalid_input "server_now_ms" "must not be negative")
    else elim (validate policy) [
      | err e ↦ safety_fallback s now e
      | ok _ ↦ unless_regressed policy s request (latest_transition_at_ms s) now
    ]
