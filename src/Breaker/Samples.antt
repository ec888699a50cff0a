-- ===== src/Breaker/Samples.antt =====
-- crates/risk/src/circuit_breaker.rs: a life of the breaker at fixed inputs, run step by step.
use sinan.Prelude.{
  pos, List, [], ◌∷◌, true, false, none, some, ◌≡◌, refl, ap, ◌∙◌, ok, pos_part, neg_part,
  checked_suc, wrapping_sub, of_bits,
}
use sinan.Breaker.Types.{
  CircuitBreakerPolicy, closed, opened, half_open, CircuitBreakerReason,
  CircuitBreakerTriggerSource,
}
use sinan.Breaker.Incident.{CircuitBreakerIncidentEvidence}
use sinan.Breaker.Input.{
  CircuitBreakerInput, HalfOpenReadiness, RecoveryHealth, ResetAuthorization, TransitionRequest,
}
use sinan.Breaker.State.{CircuitBreakerState, default_state, latest_transition_at_ms, latest_of}
use sinan.Breaker.Outcome.{with_error}
use sinan.Breaker.Evidence.{
  violation_reason, violation_source, violation_evidence, incident_evidence_reason,
  incident_evidence_source, incident_fingerprint,
}
use sinan.Breaker.Policy.{require_positive, validate, missing_of, missing_half_open_prerequisites}
use sinan.Breaker.Detect.{
  validate_trigger, clock_violations, trigger_violations, limit_violations, stale_violations,
  collect_violations, is_blocking, filter_half_open_violations, half_open_violations,
}
use sinan.Breaker.Machine.{incident_state, open_incident}
use sinan.Breaker.Requests.{
  observed, observe, half_open_state, ready_outcome, with_readiness, unless_any, unless_blocked,
  entered, enter_by_status, enter_half_open,
}
use sinan.Breaker.Closing.{
  closed_state, closing, authorized, after_window, unhealthy, if_healthy, close_outcome,
  close_violations, close_by_status, close, serve, unless_regressed, transition,
}
use sinan.Breaker.History.{Call, run}

abbrev pub policy : CircuitBreakerPolicy
policy = record {
  max_daily_realized_loss_bps = 500;
  max_equity_drawdown_bps = 1000;
  max_consecutive_broker_rejections = 3;
  max_consecutive_command_failures = 3;
  max_time_sync_unhealthy_ms = pos 5000;
  max_consecutive_snapshot_stale = 3;
  max_consecutive_symbol_metadata_stale = 3;
  half_open_observation_ms = pos 60000;
  auto_reset = true;
}

abbrev pub quiet : CircuitBreakerInput
quiet = record {
  daily_realized_loss_bps = 0;
  equity_drawdown_bps = 0;
  consecutive_broker_rejections = 0;
  consecutive_command_failures = 0;
  manual_reconciliation_required_count = 0;
  store_recovery_reconciliation_pending = false;
  time_sync_unhealthy_since_ms = none;
  consecutive_snapshot_stale_count = 0;
  consecutive_symbol_metadata_stale_count = 0;
  manual_trigger = none;
}

abbrev pub loss : CircuitBreakerInput
loss = record quiet { daily_realized_loss_bps = 600; consecutive_broker_rejections = 4 }

abbrev pub ready : HalfOpenReadiness
ready = record {
  recovery_epoch = 1;
  account_refreshed_at_ms = some (pos 1500);
  positions_refreshed_at_ms = some (pos 1600);
  orders_refreshed_at_ms = some (pos 1700);
  symbol_metadata_refreshed_at_ms = some (pos 1800);
  pending_commands_reconciled_at_ms = some (pos 1900);
}

abbrev pub healthy : RecoveryHealth
healthy = record {
  clock_healthy = true;
  state_store_healthy = true;
  new_hard_risk_violation = false;
  input = quiet;
}

abbrev pub to_close : TransitionRequest
to_close = TransitionRequest.close healthy ResetAuthorization.automatic

abbrev pub to_recover : TransitionRequest
to_recover = TransitionRequest.enter_half_open ready quiet

abbrev pub at_loss : Call
at_loss = record {
  policy = policy;
  request = TransitionRequest.observe loss;
  server_now_ms = pos 1000;
}

abbrev pub at_recovery : Call
at_recovery = record { policy = policy; request = to_recover; server_now_ms = pos 2000 }

abbrev pub at_close : Call
at_close = record { policy = policy; request = to_close; server_now_ms = pos 62000 }

-- A daily loss opens the breaker.
abbrev pub halted : CircuitBreakerState
halted = record {
  recovery_epoch = 1;
  status = opened;
  reason = CircuitBreakerReason.daily_realized_loss_limit;
  triggered_at_ms = some (pos 1000);
  triggered_by = some CircuitBreakerTriggerSource.risk_telemetry;
  last_incident_fingerprint = some (
      CircuitBreakerIncidentEvidence.daily_realized_loss 600 500
      ∷ CircuitBreakerIncidentEvidence.broker_rejections 4 3
      ∷ []);
  incident_evidence_cleared_at_ms = none;
  half_opened_at_ms = none;
  half_open_daily_loss_baseline_bps = none;
  half_open_drawdown_baseline_bps = none;
  reset_at_ms = none;
  reset_by = none;
  blocked_intent_count = 0;
}

pub halts :
    (transition policy default_state (TransitionRequest.observe loss) (pos 1000)).state ≡ halted
unfolding default_state transition validate require_positive unless_regressed
    latest_transition_at_ms latest_of serve observe collect_violations validate_trigger
    clock_violations limit_violations stale_violations trigger_violations observed open_incident
    incident_state violation_reason violation_source incident_fingerprint violation_evidence
    checked_suc pos_part neg_part incident_evidence_reason incident_evidence_source
halts = refl

-- A quiet observation and fresh evidence let it recover.
abbrev pub recovering : CircuitBreakerState
recovering = record halted {
  status = half_open;
  half_opened_at_ms = some (pos 2000);
  half_open_daily_loss_baseline_bps = some 0;
  half_open_drawdown_baseline_bps = some 0;
}

pub recovers : (transition policy halted to_recover (pos 2000)).state ≡ recovering
unfolding transition validate require_positive unless_regressed latest_transition_at_ms latest_of
    serve enter_half_open enter_by_status collect_violations validate_trigger clock_violations
    limit_violations stale_violations trigger_violations entered unless_blocked unless_any
    with_readiness ready_outcome missing_half_open_prerequisites missing_of half_open_state
    is_blocking pos_part neg_part
recovers = refl

-- After the observation window a healthy close resets it.
abbrev pub recovered : CircuitBreakerState
recovered = record halted {
  status = closed;
  reason = CircuitBreakerReason.okay;
  reset_at_ms = some (pos 62000);
  reset_by = some "AUTOMATIC";
}

pub closes : (transition policy recovering to_close (pos 62000)).state ≡ recovered
unfolding transition validate require_positive unless_regressed latest_transition_at_ms latest_of
    serve close close_by_status close_violations half_open_violations filter_half_open_violations
    collect_violations validate_trigger clock_violations limit_violations stale_violations
    trigger_violations close_outcome if_healthy unhealthy after_window wrapping_sub of_bits
    authorized closing closed_state is_blocking pos_part neg_part
closes = refl

-- One second too early it does not.
close_too_early : (transition policy recovering to_close (pos 61000)).state ≡ recovering
unfolding transition validate require_positive unless_regressed latest_transition_at_ms latest_of
    serve close close_by_status close_violations half_open_violations filter_half_open_violations
    collect_violations validate_trigger clock_violations limit_violations stale_violations
    trigger_violations close_outcome if_healthy unhealthy after_window wrapping_sub of_bits
    with_error is_blocking pos_part neg_part
close_too_early = refl

abbrev pub lifecycle : List Call
lifecycle = at_loss ∷ at_recovery ∷ at_close ∷ []

pub lifecycle_recovers : run default_state lifecycle ≡ recovered
unfolding run
lifecycle_recovers =
    ap (λ s. run s (at_recovery ∷ at_close ∷ [])) halts
    ∙ ap (λ s. run s (at_close ∷ [])) recovers
    ∙ closes

pub policy_accepted : validate policy ≡ ok tt
unfolding validate require_positive pos_part neg_part
policy_accepted = refl
