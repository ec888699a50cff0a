-- ===== src/Breaker/Tests.antt =====
-- crates/risk/src/circuit_breaker.rs: the theorems of the other modules at fixed inputs.
use sinan.Prelude.{
  ◌+◌, ◌≤◌, ◌<◌, ℤ, pos, negsuc, String, List, [], ◌∷◌, true, Option, none, some, ◌≡◌, refl, subst,
  sym, ap, ◌⊎◌, arith, str_eq, if◌then◌else◌, u64_max, is_some, not, ok, err, pos_part, neg_part,
}
use sinan.Breaker.Types.{
  opened, half_open, CircuitBreakerError, CircuitBreakerRestoreFailure,
  CircuitBreakerSnapshotInvariant,
}
use sinan.Breaker.Incident.{CircuitBreakerViolation}
use sinan.Breaker.Input.{
  CircuitBreakerInput, CircuitBreakerAction, HalfOpenReadiness, RecoveryHealth, TransitionRequest,
}
use sinan.Breaker.State.{default_state, is_active, authorize, is_risk_increasing}
use sinan.Breaker.Outcome.{CircuitBreakerOutcome, unchanged}
use sinan.Breaker.Policy.{validate}
use sinan.Breaker.Detect.{
  find_or, is_daily_loss, is_drawdown, validate_trigger, clock_violations, trigger_violations,
  limit_violations, stale_violations, collect_violations, is_blocking, filter_half_open_violations,
  half_open_violations,
}
use sinan.Breaker.Closing.{closed_state, close_violations, transition}
use sinan.Breaker.Restore.{
  CircuitBreakerSnapshotV1, CircuitBreakerRecoveryEpochExhausted, durable_snapshot_v1,
  restore_circuit_breaker_snapshot, fail_closed_circuit_breaker_restore_after_epoch,
}
use sinan.Breaker.Times.{HasReached}
use sinan.Breaker.History.{run, restore-durable_snapshot}
use sinan.Breaker.Exhaustion.{validate-run}
use sinan.Breaker.Snapshot.{validate_restored_state}
use sinan.Breaker.Step.{Step, Closes}
use sinan.Breaker.Served.{transition-Step}
use sinan.Breaker.Safety.{negative_time, transition_fail_closed, validate_negative_window}
use sinan.Breaker.Recovery.{IsFresh, transition-closing, transition-half_opened, authorize-run}
use sinan.Breaker.Restart.{
  Restored, FailedClosed, restore_circuit_breaker_snapshot_lem, restore_after_epoch_lem,
}
use sinan.Breaker.Ranks.{Rising}
use sinan.Breaker.Collected.{close_violations-Rising}
use sinan.Breaker.Epochs.{IsLater, transition-IsLater}
use sinan.Breaker.Machine.{safety_fallback}
use sinan.Breaker.Repeats.{safety_fallback_repeats}
use sinan.Breaker.Samples.{
  policy, loss, healthy, to_close, to_recover, at_recovery, halted, recovering, recovered,
  lifecycle, recovers, closes, lifecycle_recovers, policy_accepted,
}

-- The text of the snapshot is read by this stand-in for `serde_json::from_str`.
abbrev parse : String → Option CircuitBreakerSnapshotV1
parse text =
    if str_eq text "recovered"
    then some (durable_snapshot_v1 (run default_state lifecycle))
    else none

recovered_before : HasReached recovered (pos 70000)
unfolding pos_part neg_part
recovered_before = record {
  triggered = omega arith;
  cleared = tt;
  half_opened = tt;
  reset = omega arith;
}

restore-durable_snapshot_example :
    restore_circuit_breaker_snapshot parse (some "recovered") (pos 70000)
    ≡ unchanged (run default_state lifecycle)
unfolding neg_part
restore-durable_snapshot_example =
    restore-durable_snapshot parse "recovered" lifecycle (pos 70000) refl refl
      (subst (λ s. HasReached s (pos 70000)) (sym lifecycle_recovers) recovered_before)
      (subst (λ s. s.recovery_epoch < u64_max) (sym lifecycle_recovers) (omega arith))

transition-Step_example :
    Step policy to_recover (pos 2000) halted (transition policy halted to_recover (pos 2000)).state
transition-Step_example = transition-Step policy halted to_recover (pos 2000)

transition_fail_closed_example :
    ((transition policy recovering to_close (negsuc 4)).state.status ≡ opened)
    × (is_some (transition policy recovering to_close (negsuc 4)).error ≡ true)
unfolding neg_part
transition_fail_closed_example =
    transition_fail_closed policy recovering to_close (negsuc 4) (negative_time refl)

transition-closing_example :
    (recovering.status ≡ half_open)
    × ((by : String) × ((transition policy recovering to_close (pos 62000)).state
          ≡ closed_state recovering by (pos 62000))
        × Closes policy to_close recovering by (pos 62000))
unfolding is_active
transition-closing_example =
    transition-closing policy recovering to_close (pos 62000) refl (ap (λ s. s.status) closes)

transition-half_opened_example :
    (halted.status ≡ opened)
    × ((r : HalfOpenReadiness) × (input : CircuitBreakerInput) × (t : ℤ) × (to_recover
          ≡ TransitionRequest.enter_half_open r input)
        × (halted.triggered_at_ms ≡ some t)
        × (r.recovery_epoch ≡ halted.recovery_epoch)
        × IsFresh t (pos 2000) r.account_refreshed_at_ms
        × IsFresh t (pos 2000) r.positions_refreshed_at_ms
        × IsFresh t (pos 2000) r.orders_refreshed_at_ms
        × IsFresh t (pos 2000) r.symbol_metadata_refreshed_at_ms
        × IsFresh t (pos 2000) r.pending_commands_reconciled_at_ms)
transition-half_opened_example =
    transition-half_opened policy halted to_recover (pos 2000) (λ e. cc)
      (ap (λ s. s.status) recovers)

authorize-run_example :
    ((authorize
        (run halted (at_recovery ∷ []))
        CircuitBreakerAction.risk_increasing_command).allowed
      ≡ not (is_risk_increasing CircuitBreakerAction.risk_increasing_command))
    × (is_risk_increasing CircuitBreakerAction.risk_increasing_command ≡ true
        → (authorize
            (run halted (at_recovery ∷ []))
            CircuitBreakerAction.risk_increasing_command).blocked_reason
          ≡ some (run halted (at_recovery ∷ [])).reason)
unfolding is_active
authorize-run_example =
    authorize-run halted (at_recovery ∷ []) CircuitBreakerAction.risk_increasing_command refl
      (refl, tt)

restore_circuit_breaker_snapshot_lem_example :
    Restored parse
      (some "recovered")
      (pos 70000)
      (restore_circuit_breaker_snapshot parse (some "recovered") (pos 70000))
    ⊎ FailedClosed parse
        (some "recovered")
        (pos 70000)
        (restore_circuit_breaker_snapshot parse (some "recovered") (pos 70000))
restore_circuit_breaker_snapshot_lem_example =
    restore_circuit_breaker_snapshot_lem parse (some "recovered") (pos 70000)

restore_after_epoch_lem_example :
    ((7 < u64_max)
      × ((o : CircuitBreakerOutcome) × (fail_closed_circuit_breaker_restore_after_epoch
              CircuitBreakerRestoreFailure.store_unavailable
              (pos 5)
              7
            ≡ ok o)
          × (o.state.status ≡ opened)
          × (o.state.recovery_epoch ≡ 7 + 1)
          × (o.error
              ≡ some (
                  CircuitBreakerError.durable_restore_failed
                    CircuitBreakerRestoreFailure.store_unavailable))))
    ⊎ ((u64_max ≤ 7)
        × ((x : CircuitBreakerRecoveryEpochExhausted)
            × (fail_closed_circuit_breaker_restore_after_epoch
                  CircuitBreakerRestoreFailure.store_unavailable
                  (pos 5)
                  7
                ≡ err x)
            × (x.outcome.state.status ≡ opened)
            × (x.outcome.state.recovery_epoch ≡ 7)
            × (x.restore_failure ≡ CircuitBreakerRestoreFailure.store_unavailable)))
restore_after_epoch_lem_example =
    restore_after_epoch_lem CircuitBreakerRestoreFailure.store_unavailable (pos 5) 7

transition-IsLater_example : IsLater halted (transition policy halted to_recover (pos 2000)).state
transition-IsLater_example = transition-IsLater policy halted to_recover (pos 2000)

validate-run_example :
    (((run default_state lifecycle).recovery_epoch < u64_max)
      × (validate_restored_state (run default_state lifecycle) (pos 70000) ≡ ok tt))
    ⊎ (((run default_state lifecycle).recovery_epoch ≡ u64_max)
        × (validate_restored_state (run default_state lifecycle) (pos 70000)
            ≡ err (
                CircuitBreakerRestoreFailure.invalid_snapshot
                  CircuitBreakerSnapshotInvariant.recovery_epoch_exhausted)))
validate-run_example =
    validate-run lifecycle (pos 70000)
      (subst (λ s. HasReached s (pos 70000)) (sym lifecycle_recovers) recovered_before)

validate_negative_window_example :
    validate (record policy { half_open_observation_ms = negsuc 59999 }) ≡ ok tt
validate_negative_window_example = validate_negative_window policy 59999 policy_accepted

-- During the recovery the loss has grown, and a hard-risk violation is reported.
abbrev worse : RecoveryHealth
worse = record healthy { new_hard_risk_violation = true; input = loss }

abbrev worsened : List CircuitBreakerViolation
worsened =
    CircuitBreakerViolation.daily_realized_loss 600 500
    ∷ CircuitBreakerViolation.broker_rejections 4 3
    ∷ CircuitBreakerViolation.hard_risk_during_recovery
    ∷ []

close_violations-Rising_example : Rising true 0 13 worsened
unfolding close_violations half_open_violations filter_half_open_violations find_or is_daily_loss
    is_drawdown is_blocking collect_violations validate_trigger clock_violations limit_violations
    stale_violations trigger_violations pos_part neg_part
close_violations-Rising_example =
    close_violations-Rising policy recovering worse (pos 3000) {vs = worsened} refl

safety_fallback_repeats_example :
    let s =
      (safety_fallback recovering
        (pos 3000)
        CircuitBreakerError.half_open_baseline_missing).state in
    (safety_fallback s (pos 9000) CircuitBreakerError.half_open_baseline_missing).state ≡ s
safety_fallback_repeats_example =
    safety_fallback_repeats recovering (pos 3000) (pos 9000)
      CircuitBreakerError.half_open_baseline_missing (omega arith)
