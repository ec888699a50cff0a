-- ===== src/Breaker/Served.antt =====
-- crates/risk/src/circuit_breaker.rs: `close` and `transition` make one move of `Step`.
use sinan.Prelude.{
  ℕ, ℤ, String, List, [], ◌∷◌, true, false, Option, none, some, ◌≡◌, refl, inl, inr, arith,
  is_negative, ltb_ℤ, leb, Result, ok, err, Result-cases, Bool-cases, Fails-err, wrapping_sub,
  is_blank, is_whitespace,
}
use sinan.Breaker.Types.{
  CircuitBreakerPolicy, CircuitBreakerStatus, closed, opened, half_open, CircuitBreakerError,
  RecoveryPrerequisite, error_fingerprint,
}
use sinan.Breaker.Incident.{CircuitBreakerViolation}
use sinan.Breaker.Input.{RecoveryHealth, ManualResetEvidence, ResetAuthorization, TransitionRequest}
use sinan.Breaker.State.{CircuitBreakerState, latest_transition_at_ms}
use sinan.Breaker.Outcome.{unchanged, with_error}
use sinan.Breaker.Evidence.{error_fingerprint_has_blank_text}
use sinan.Breaker.Policy.{validate, require_text, validate_manual_reset_evidence}
use sinan.Breaker.Closing.{
  authorized, after_window, unhealthy, if_healthy, close_outcome, close_violations, close_by_status,
  closing, close, record_blocked_intent_count, serve, unless_regressed, transition,
}
use sinan.Breaker.Collected.{close_violations-Rising}
use sinan.Breaker.Errors.{close_violations-IsClean, validate-IsClean}
use sinan.Breaker.Times.{HasReached, latest-HasReached}
use sinan.Breaker.Step.{Step, stay, reset, counted, Closes, Authorizes, by_policy, by_operator}
use sinan.Breaker.Refine.{open_incident-Step, safety_fallback-Step}
use sinan.Breaker.Moves.{observe-Step, enter_half_open-Step}

-- Accepted evidence of a manual reset names its operator.
pub validate_manual_reset_evidence-operator :
    (e : ManualResetEvidence) {u : Unit {0}}
    → validate_manual_reset_evidence e ≡ ok u
    → is_blank e.operator_id ≡ false
unfolding validate_manual_reset_evidence require_text
validate_manual_reset_evidence-operator e h = ground arith

module _ (p : CircuitBreakerPolicy) (s : CircuitBreakerState) (now : ℤ)
    (nonneg : is_negative now ≡ false) (reached : HasReached s now) where
  module _ (health : RecoveryHealth) (at : s.status ≡ half_open)
      (no_violation : close_violations p s health now ≡ ok []) (clock : health.clock_healthy ≡ true)
      (store : health.state_store_healthy ≡ true) (t : ℤ) (was : s.half_opened_at_ms ≡ some t)
      (waited : ltb_ℤ (wrapping_sub now t) p.half_open_observation_ms ≡ false) where
    closes :
        (a : ResetAuthorization) (by : String)
        → Authorizes p by a
        → Closes p (TransitionRequest.close health a) s by now
    closes a by authorized_by = record {
      health = health;
      authorization = a;
      asked = refl;
      half_opened_at = t;
      was_half_opened = was;
      waited = waited;
      no_violation = no_violation;
      clock_healthy = clock;
      state_store_healthy = store;
      authorized = authorized_by;
    }

    authorized-Step :
        (a : ResetAuthorization)
        → Step p (TransitionRequest.close health a) now s (authorized p s a now).state
    unfolding authorized with_error closing is_blank is_whitespace
    authorized-Step ResetAuthorization.automatic = elim (Bool-cases p.auto_reset) [
      | inl e ↦ simp e (
          reset "AUTOMATIC" nonneg reached at refl
            (closes ResetAuthorization.automatic "AUTOMATIC" (by_policy e refl)) refl)
      | inr e ↦ simp e (stay refl)
    ]
    authorized-Step (ResetAuthorization.operator evidence) =
        elim (Result-cases (validate_manual_reset_evidence evidence)) [
          | inl (u, e) ↦
              rw (e, authorized)
                (reset evidence.operator_id nonneg reached at
                  (validate_manual_reset_evidence-operator evidence e)
                  (closes (ResetAuthorization.operator evidence) evidence.operator_id
                    (by_operator evidence e refl))
                  refl)
          | inr (x, e) ↦ rw (e, authorized) (stay refl)
        ]

  module _ (health : RecoveryHealth) (a : ResetAuthorization) (at : s.status ≡ half_open)
      (no_violation : close_violations p s health now ≡ ok []) where
    after_window-Step :
        (half_opened_at : Option ℤ)
        → s.half_opened_at_ms ≡ half_opened_at
        → health.clock_healthy ≡ true
        → health.state_store_healthy ≡ true
        → Step p
            (TransitionRequest.close health a)
            now
            s
            (after_window p s a half_opened_at now).state
    unfolding after_window with_error error_fingerprint error_fingerprint_has_blank_text
    after_window-Step none was clock store =
        safety_fallback-Step p (TransitionRequest.close health a) now s now _ refl
    after_window-Step (some t) was clock store =
        elim (Bool-cases (ltb_ℤ (wrapping_sub now t) p.half_open_observation_ms)) [
          | inl e ↦ rw (e, after_window) (stay refl)
          | inr e ↦
              rw (e, after_window) (authorized-Step health at no_violation clock store t was e a)
        ]

    if_healthy-Step :
        (missing : List RecoveryPrerequisite)
        → unhealthy health ≡ missing
        → Step p (TransitionRequest.close health a) now s (if_healthy p s missing a now).state
    unfolding if_healthy with_error unhealthy
    if_healthy-Step (m ∷ ms) h = stay refl
    if_healthy-Step [] h = after_window-Step s.half_opened_at_ms refl (ground arith) (ground arith)

  close_outcome-Step :
      (health : RecoveryHealth) (a : ResetAuthorization)
      (r : Result CircuitBreakerError (List CircuitBreakerViolation))
      → s.status ≡ half_open
      → close_violations p s health now ≡ r
      → Step p (TransitionRequest.close health a) now s (close_outcome p s health a r now).state
  unfolding close_outcome
  close_outcome-Step health a (err e) at h =
      safety_fallback-Step p (TransitionRequest.close health a) now s now e
        (Fails-err _ (close_violations-IsClean p s health now) h)
  close_outcome-Step health a (ok (v ∷ vs)) at h =
      open_incident-Step p (TransitionRequest.close health a) now s v vs true 13 health.input now
        true (close_violations-Rising p s health now h) nonneg reached
  close_outcome-Step health a (ok []) at h = if_healthy-Step health a at h _ refl

  close_by_status-Step :
      (status : CircuitBreakerStatus) (health : RecoveryHealth) (a : ResetAuthorization)
      → s.status ≡ status
      → Step p
          (TransitionRequest.close health a)
          now
          s
          (close_by_status status p s health a now).state
  unfolding close_by_status unchanged with_error
  close_by_status-Step closed health a at = stay refl
  close_by_status-Step opened health a at = stay refl
  close_by_status-Step half_open health a at = close_outcome-Step health a _ at refl

  count-Step :
      (request : TransitionRequest) (n : ℕ)
      → Step p request now s (record_blocked_intent_count s n).state
  unfolding record_blocked_intent_count unchanged
  count-Step request n = elim (Bool-cases (leb n s.blocked_intent_count)) [
    | inl e ↦ rw (e, record_blocked_intent_count) (stay refl)
    | inr e ↦ rw (e, record_blocked_intent_count) (counted n (ground arith) refl)
  ]

  serve-Step : (request : TransitionRequest) → Step p request now s (serve p s request now).state
  unfolding serve close
  serve-Step (TransitionRequest.observe input) =
      observe-Step p (TransitionRequest.observe input) s input now nonneg reached
  serve-Step (TransitionRequest.enter_half_open readiness input) =
      enter_half_open-Step p (TransitionRequest.enter_half_open readiness input) s input now nonneg
        reached readiness refl
  serve-Step (TransitionRequest.close health a) = close_by_status-Step s.status health a refl
  serve-Step (TransitionRequest.record_blocked_intent_count n) =
      count-Step (TransitionRequest.record_blocked_intent_count n) n

unless_regressed-Step :
    (p : CircuitBreakerPolicy) (s : CircuitBreakerState) (request : TransitionRequest)
    (latest : Option ℤ) (now : ℤ)
    → is_negative now ≡ false
    → latest_transition_at_ms s ≡ latest
    → Step p request now s (unless_regressed p s request latest now).state
unfolding unless_regressed error_fingerprint error_fingerprint_has_blank_text
unless_regressed-Step p s request none now nonneg h =
    serve-Step p s now nonneg (latest-HasReached s now (rw h tt)) request
unless_regressed-Step p s request (some t) now nonneg h = elim (Bool-cases (ltb_ℤ now t)) [
  | inl e ↦ rw (e, unless_regressed) (safety_fallback-Step p request now s now _ refl)
  | inr e ↦
      rw (e, unless_regressed)
        (serve-Step p s now nonneg (latest-HasReached s now (rw h (ground arith))) request)
]

-- Every call of `transition` makes one move of the relation `Step`, whatever the policy, the state,
-- the request and the time.
pub transition-Step :
    (p : CircuitBreakerPolicy) (s : CircuitBreakerState) (request : TransitionRequest) (now : ℤ)
    → Step p request now s (transition p s request now).state
unfolding transition error_fingerprint error_fingerprint_has_blank_text is_blank is_whitespace
transition-Step p s request now = elim (Bool-cases (is_negative now)) [
  | inl e ↦ rw (e, transition) (safety_fallback-Step p request now s now _ refl)
  | inr e ↦ elim (Result-cases (validate p)) [
    | inl (u, v) ↦ rw (e, v, transition) (unless_regressed-Step p s request _ now e refl)
    | inr (x, v) ↦
        rw (e, v, transition)
          (safety_fallback-Step p request now s now x (Fails-err _ (validate-IsClean p) v))
  ]
]
