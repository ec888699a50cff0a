-- ===== src/Breaker/Epochs.antt =====
-- crates/risk/src/circuit_breaker.rs: what only grows over the life of a breaker: the recovery
-- epoch, the recorded times and the count of blocked intents.
use sinan.Prelude.{◌+◌, ◌≤◌, ℤ, List, [], ◌∷◌, ◌≡◌, subst, arith, u64_max, length}
use sinan.Breaker.Types.{CircuitBreakerPolicy}
use sinan.Breaker.Input.{TransitionRequest}
use sinan.Breaker.State.{CircuitBreakerState, default_state}
use sinan.Breaker.Machine.{incident_state}
use sinan.Breaker.Requests.{cleared_state, half_open_state}
use sinan.Breaker.Closing.{closed_state, transition}
use sinan.Breaker.Times.{HasReached, HasReached-trans}
use sinan.Breaker.Step.{
  Step, stay, incident, exhausted, evidence_cleared, half_opened, reset, counted,
}
use sinan.Breaker.Recorded.{IsRecordedLater, Step-IsRecordedLater}
use sinan.Breaker.Served.{transition-Step}
use sinan.Breaker.History.{Call, run}

-- `t` is a later state than `s`.
pub record IsLater (s t : CircuitBreakerState) : Type 0 where
  pub epoch_grows : s.recovery_epoch ≤ t.recovery_epoch
  pub epoch_by_one : t.recovery_epoch ≤ s.recovery_epoch + 1
  pub epoch_fits : s.recovery_epoch ≤ u64_max → t.recovery_epoch ≤ u64_max
  pub count_grows : s.blocked_intent_count ≤ t.blocked_intent_count
  pub times_grow : (u : ℤ) → HasReached t u → HasReached s u
  pub recorded : IsRecordedLater s t

same_epoch-IsLater :
    (s t : CircuitBreakerState)
    → t.recovery_epoch ≡ s.recovery_epoch
    → s.blocked_intent_count ≤ t.blocked_intent_count
    → ((u : ℤ) → HasReached t u → HasReached s u)
    → IsRecordedLater s t
    → IsLater s t
same_epoch-IsLater s t e h times recorded = record {
  epoch_grows = omega arith;
  epoch_by_one = omega arith;
  epoch_fits = λ k. omega arith;
  count_grows = h;
  times_grow = times;
  recorded = recorded;
}

Step-IsLater :
    (p : CircuitBreakerPolicy) (request : TransitionRequest) (now : ℤ) (s t : CircuitBreakerState)
    → IsRecordedLater s t
    → Step p request now s t
    → IsLater s t
unfolding incident_state cleared_state half_open_state closed_state
Step-IsLater p request now s t recorded (stay e) =
    same_epoch-IsLater s t (ground arith) (ground arith) (λ u r. subst (λ x. HasReached x u) e r)
      recorded
Step-IsLater p request now s t recorded (incident e es at _ _ reached room q) = record {
  epoch_grows = ground arith;
  epoch_by_one = ground arith;
  epoch_fits = λ k. ground arith;
  count_grows = ground arith;
  times_grow = λ u r. HasReached-trans s at u (subst (λ x. HasReached x u) q r).triggered reached;
  recorded = recorded;
}
Step-IsLater p request now s t recorded (exhausted e at _ _ reached _ q) =
    same_epoch-IsLater s t (ground arith) (ground arith)
      (λ u r. HasReached-trans s at u (subst (λ x. HasReached x u) q r).triggered reached) recorded
Step-IsLater p request now s t recorded (evidence_cleared _ reached _ _ q) =
    same_epoch-IsLater s t (ground arith) (ground arith)
      (λ u r. HasReached-trans s now u (subst (λ x. HasReached x u) q r).cleared reached) recorded
Step-IsLater p request now s t recorded (half_opened input _ reached _ _ q) =
    same_epoch-IsLater s t (ground arith) (ground arith)
      (λ u r. HasReached-trans s now u (subst (λ x. HasReached x u) q r).half_opened reached)
      recorded
Step-IsLater p request now s t recorded (reset by _ reached _ _ _ q) =
    same_epoch-IsLater s t (ground arith) (ground arith)
      (λ u r. HasReached-trans s now u (subst (λ x. HasReached x u) q r).reset reached) recorded
Step-IsLater p request now s t recorded (counted n h q) =
    same_epoch-IsLater s t (ground arith) (ground arith)
      (λ u r.
        let k = subst (λ x. HasReached x u) q r in
        record {
          triggered = k.triggered;
          cleared = k.cleared;
          half_opened = k.half_opened;
          reset = k.reset;
        })
      recorded

-- A call of `transition` never lowers the recovery epoch, raises it by at most one and keeps it a
-- `u64`, and never lowers the count of blocked intents. The time of the trigger stays recorded once
-- it is, and does not become earlier; each other time, where it is recorded before and after the
-- call, does not become earlier; and the latest of all recorded times does not fall.
pub transition-IsLater :
    (p : CircuitBreakerPolicy) (s : CircuitBreakerState) (request : TransitionRequest) (now : ℤ)
    → IsLater s (transition p s request now).state
transition-IsLater p s request now =
    let step = transition-Step p s request now in
    let t = (transition p s request now).state in
    Step-IsLater p request now s t (Step-IsRecordedLater p request now s t step) step

run_epoch_le :
    (s : CircuitBreakerState) (cs : List Call)
    → (run s cs).recovery_epoch ≤ s.recovery_epoch + length cs
unfolding run
run_epoch_le s [] = omega arith
run_epoch_le s (c ∷ cs) =
    let t = (transition c.policy s c.request c.server_now_ms).state in
    let later = transition-IsLater c.policy s c.request c.server_now_ms in
    omega (arith, later.epoch_by_one, run_epoch_le t cs)

-- A history of n calls uses up at most n recovery epochs.
pub run-epoch-le-length : (cs : List Call) → (run default_state cs).recovery_epoch ≤ length cs
unfolding default_state
run-epoch-le-length cs = omega (arith, run_epoch_le default_state cs)
