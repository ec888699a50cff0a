-- ===== src/Breaker/Safety.antt =====
-- crates/risk/src/circuit_breaker.rs: what the breaker guarantees to its callers.
use sinan.Prelude.{
  ℤ, String, List, Bool, true, false, some, ◌≡◌, refl, inl, inr, arith, is_negative, ltb_ℤ, u64_max,
  ok, err, eqb_ℤ, pos, negsuc, ℕ, ◌∷◌, >>=-eq-ok, reject_if-eq-ok, reject_if, drop, pos_part,
  neg_part, Bool-cases, Result-cases, is_some, checked_suc, ltb,
}
use sinan.Breaker.Types.{
  CircuitBreakerPolicy, CircuitBreakerStatus, closed, opened, half_open, CircuitBreakerError,
}
use sinan.Breaker.Incident.{CircuitBreakerViolation, CircuitBreakerIncidentEvidence}
use sinan.Breaker.Input.{TransitionRequest}
use sinan.Breaker.State.{CircuitBreakerState, is_active, latest_transition_at_ms}
use sinan.Breaker.Outcome.{CircuitBreakerOutcome}
use sinan.Breaker.Policy.{validate, require_positive, required_positive}
use sinan.Breaker.Machine.{
  incident_state, open_incident, epoch_overflow, safety_fallback, fallback_by_status, as_fallback,
  is_overflow, same_fingerprint, safety_error_fingerprint, fallback_at_ms,
}
use sinan.Breaker.Requests.{cleared_state, half_open_state}
use sinan.Breaker.Closing.{closed_state, transition, unless_regressed}
use sinan.Breaker.Step.{
  Step, stay, incident, exhausted, evidence_cleared, half_opened, reset, counted, Closes,
}

open_incident-opened :
    (s : CircuitBreakerState) (v : CircuitBreakerViolation) (vs : List CircuitBreakerViolation)
    (f : List CircuitBreakerIncidentEvidence) (at : ℤ) (reopened : Bool)
    → (open_incident s v vs f at reopened).state.status ≡ opened
unfolding open_incident checked_suc epoch_overflow incident_state
open_incident-opened s v vs f at reopened = elim (Bool-cases (ltb s.recovery_epoch u64_max)) [
  | inl e ↦ rw (e, open_incident)
  | inr e ↦ rw (e, open_incident)
]

as_fallback-opened :
    (e : CircuitBreakerError) (o : CircuitBreakerOutcome)
    → o.state.status ≡ opened
    → ((as_fallback e o).state.status ≡ opened) × (is_some (as_fallback e o).error ≡ true)
unfolding as_fallback is_overflow
as_fallback-opened e o h = ground arith

fallback_by_status-opened :
    (status : CircuitBreakerStatus) (s : CircuitBreakerState) (now : ℤ) (e : CircuitBreakerError)
    → s.status ≡ status
    → ((fallback_by_status status s now e).state.status ≡ opened)
      × (is_some (fallback_by_status status s now e).error ≡ true)
unfolding fallback_by_status
fallback_by_status-opened opened s now e at =
    elim (Bool-cases (same_fingerprint s.last_incident_fingerprint (safety_error_fingerprint e))) [
      | inl q ↦ rw (q, fallback_by_status) (at, refl)
      | inr q ↦
          rw (q, fallback_by_status)
            (as_fallback-opened e _ (open_incident-opened s _ _ _ (fallback_at_ms s now) true))
    ]
fallback_by_status-opened half_open s now e at =
    as_fallback-opened e _ (open_incident-opened s _ _ _ (fallback_at_ms s now) true)
fallback_by_status-opened closed s now e at =
    as_fallback-opened e _ (open_incident-opened s _ _ _ (fallback_at_ms s now) false)

pub safety_fallback-opened :
    (s : CircuitBreakerState) (now : ℤ) (e : CircuitBreakerError)
    → ((safety_fallback s now e).state.status ≡ opened)
      × (is_some (safety_fallback s now e).error ≡ true)
unfolding safety_fallback
safety_fallback-opened s now e = fallback_by_status-opened s.status s now e refl

-- What makes a call of `transition` unsafe: a negative time, a policy that is refused, or a time
-- before the latest transition.
pub data IsUnsafe (p : CircuitBreakerPolicy) (s : CircuitBreakerState) (now : ℤ) : Type 0 where
  negative_time : is_negative now ≡ true → IsUnsafe p s now
  bad_policy : (e : CircuitBreakerError) → validate p ≡ err e → IsUnsafe p s now
  regressed :
      (latest : ℤ)
      → latest_transition_at_ms s ≡ some latest
      → ltb_ℤ now latest ≡ true
      → IsUnsafe p s now

guarded-opened :
    (p : CircuitBreakerPolicy) (s : CircuitBreakerState) (request : TransitionRequest) (now : ℤ)
    → is_negative now ≡ false
    → IsUnsafe p s now
    → ((transition p s request now).state.status ≡ opened)
      × (is_some (transition p s request now).error ≡ true)
unfolding transition unless_regressed
guarded-opened p s request now nonneg (negative_time h) = cc
guarded-opened p s request now nonneg (bad_policy e h) =
    rw (nonneg, h, transition) (safety_fallback-opened s now e)
guarded-opened p s request now nonneg (regressed latest h k) = elim (Result-cases (validate p)) [
  | inl (u, v) ↦ rw (nonneg, v, h, unless_regressed, k, transition) (safety_fallback-opened s now _)
  | inr (e, v) ↦ rw (nonneg, v, transition) (safety_fallback-opened s now e)
]

-- An unsafe call, with a negative time, a policy that is refused or a time before the latest
-- transition, fails closed: the breaker is open after it, whatever its state and the request were,
-- and the outcome carries an error.
pub transition_fail_closed :
    (p : CircuitBreakerPolicy) (s : CircuitBreakerState) (request : TransitionRequest) (now : ℤ)
    → IsUnsafe p s now
    → ((transition p s request now).state.status ≡ opened)
      × (is_some (transition p s request now).error ≡ true)
unfolding transition
transition_fail_closed p s request now h = elim (Bool-cases (is_negative now)) [
  | inl e ↦ rw (e, transition) (safety_fallback-opened s now _)
  | inr e ↦ guarded-opened p s request now e h
]

pub Step-closing :
    (p : CircuitBreakerPolicy) (request : TransitionRequest) (now : ℤ) (s t : CircuitBreakerState)
    → Step p request now s t
    → is_active s.status ≡ true
    → t.status ≡ closed
    → (s.status ≡ half_open)
      × ((by : String) × (t ≡ closed_state s by now) × Closes p request s by now)
unfolding incident_state cleared_state half_open_state is_active
Step-closing p request now s t (stay e) on off = ground arith
Step-closing p request now s t (incident e es at _ _ _ _ q) on off = ground arith
Step-closing p request now s t (exhausted e at _ _ _ _ q) on off = ground arith
Step-closing p request now s t (evidence_cleared _ _ at _ q) on off = ground arith
Step-closing p request now s t (half_opened input _ _ _ _ q) on off = ground arith
Step-closing p request now s t (reset by _ _ at _ closing q) on off = (at, (by, q, closing))
Step-closing p request now s t (counted n _ q) on off = ground arith

require_positive-cons :
    (field : String) (value : ℤ) (rest : List (String × ℤ))
    → require_positive ((field, value) ∷ rest) ≡ ok tt
    → (eqb_ℤ value (pos 0) ≡ false) × (require_positive rest ≡ ok tt)
unfolding require_positive
require_positive-cons field value rest h =
    let (u, e, k) = >>=-eq-ok (reject_if (eqb_ℤ value (pos 0)) _) _ h in
    (reject_if-eq-ok (eqb_ℤ value (pos 0)) _ e, k)

negsuc-nonzero : (n : ℕ) → eqb_ℤ (negsuc n) (pos 0) ≡ false
unfolding pos_part neg_part
negsuc-nonzero n = ground arith

-- A policy that is accepted is still accepted with any negative observation window in place of its
-- own, although the requirement reported for the window is to be greater than zero.
pub validate_negative_window :
    (p : CircuitBreakerPolicy) (n : ℕ)
    → validate p ≡ ok tt
    → validate (record p { half_open_observation_ms = negsuc n }) ≡ ok tt
unfolding validate require_positive
validate_negative_window p n h =
    let (u, e, k) = >>=-eq-ok (require_positive (required_positive p)) _ h in
    let (a, ka) =
      require_positive-cons "max_daily_realized_loss_bps" (pos p.max_daily_realized_loss_bps)
        (drop 1 (required_positive p)) e in
    let (b, kb) =
      require_positive-cons "max_equity_drawdown_bps" (pos p.max_equity_drawdown_bps)
        (drop 2 (required_positive p)) ka in
    let (c, kc) =
      require_positive-cons "max_consecutive_broker_rejections"
        (pos p.max_consecutive_broker_rejections) (drop 3 (required_positive p)) kb in
    let (d, kd) =
      require_positive-cons "max_consecutive_command_failures"
        (pos p.max_consecutive_command_failures) (drop 4 (required_positive p)) kc in
    rw (a, b, c, d, negsuc-nonzero n) k
