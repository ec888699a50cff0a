-- ===== src/Breaker/Exhaustion.antt =====
-- crates/risk/src/circuit_breaker.rs: the states that use up the recovery epochs, and the validation
-- of the states that a history leaves (`validate_restored_state`).
use sinan.Prelude.{
  ◌≤◌, ◌<◌, ℤ, List, [], ◌∷◌, true, ◌≡◌, refl, ◌⊎◌, inl, inr, arith, u64_max, ok, err, ◌==◌,
  Bool-cases,
}
use sinan.Breaker.Types.{CircuitBreakerRestoreFailure, CircuitBreakerSnapshotInvariant}
use sinan.Breaker.State.{CircuitBreakerState, default_state}
use sinan.Breaker.Closing.{transition}
use sinan.Breaker.Snapshot.{validate_restored_state}
use sinan.Breaker.Times.{HasReached}
use sinan.Breaker.History.{Call, run, run-IsDurable, validate_restored_state-ok}
use sinan.Breaker.Epochs.{transition-IsLater}

run_from_fits :
    (s : CircuitBreakerState) (cs : List Call)
    → s.recovery_epoch ≤ u64_max
    → (run s cs).recovery_epoch ≤ u64_max
unfolding run
run_from_fits s [] h = h
run_from_fits s (c ∷ cs) h =
    run_from_fits (transition c.policy s c.request c.server_now_ms).state cs
      ((transition-IsLater c.policy s c.request c.server_now_ms).epoch_fits h)

run_fits : (cs : List Call) → (run default_state cs).recovery_epoch ≤ u64_max
unfolding default_state
run_fits cs = run_from_fits default_state cs (omega arith)

validate_exhausted :
    (s : CircuitBreakerState) (now : ℤ)
    → (s.recovery_epoch == u64_max) ≡ true
    → validate_restored_state s now
      ≡ err (
          CircuitBreakerRestoreFailure.invalid_snapshot
            CircuitBreakerSnapshotInvariant.recovery_epoch_exhausted)
unfolding validate_restored_state
validate_exhausted s now h = rw h refl

-- The state of any history of requests, at a server time that is not before a time recorded in it,
-- passes the validation of a restored state if an epoch is left, and is refused as exhausted if its
-- epoch is the largest `u64`; there is no third case.
pub validate-run :
    (cs : List Call) (now : ℤ)
    → HasReached (run default_state cs) now
    → (((run default_state cs).recovery_epoch < u64_max)
        × (validate_restored_state (run default_state cs) now ≡ ok tt))
      ⊎ (((run default_state cs).recovery_epoch ≡ u64_max)
          × (validate_restored_state (run default_state cs) now
              ≡ err (
                  CircuitBreakerRestoreFailure.invalid_snapshot
                    CircuitBreakerSnapshotInvariant.recovery_epoch_exhausted)))
validate-run cs now reached =
    let s = run default_state cs in
    elim (Bool-cases (s.recovery_epoch == u64_max)) [
      | inl e ↦ inr (ground arith, validate_exhausted s now e)
      | inr e ↦
          let room : s.recovery_epoch < u64_max = ground (arith, run_fits cs) in
          inl (room, validate_restored_state-ok s now (run-IsDurable cs) reached room)
    ]
