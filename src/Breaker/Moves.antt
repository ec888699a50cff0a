-- ===== src/Breaker/Moves.antt =====
-- crates/risk/src/circuit_breaker.rs: each request of `transition` makes one move of `Step`.
use sinan.Prelude.{
  ℤ, List, [], ◌∷◌, true, false, Option, none, some, ◌≡◌, refl, inl, inr, arith, is_negative,
  Result, ok, err, Result-cases, Bool-cases, Fails-err, is_some, keep_if, ◌==◌, is_blank,
  is_whitespace,
}
use sinan.Breaker.Types.{
  CircuitBreakerPolicy, CircuitBreakerStatus, closed, opened, half_open, CircuitBreakerError,
  RecoveryPrerequisite, error_fingerprint,
}
use sinan.Breaker.Incident.{CircuitBreakerViolation}
use sinan.Breaker.Input.{CircuitBreakerInput, HalfOpenReadiness, TransitionRequest}
use sinan.Breaker.State.{CircuitBreakerState}
use sinan.Breaker.Outcome.{unchanged, with_error}
use sinan.Breaker.Evidence.{error_fingerprint_has_blank_text}
use sinan.Breaker.Policy.{missing_half_open_prerequisites}
use sinan.Breaker.Detect.{collect_violations, filter_half_open_violations, is_blocking}
use sinan.Breaker.Machine.{same_fingerprint}
use sinan.Breaker.Requests.{
  half_open_outcome, observe_half_open, observed, observe, fingerprint_of, with_readiness,
  ready_outcome, unless_any, unless_blocked, entered, enter_by_status, enter_half_open,
}
use sinan.Breaker.Collected.{collect_violations-Rising, filter_half_open_violations-Rising}
use sinan.Breaker.Errors.{
  collect_violations-IsClean, filter_half_open_violations-IsClean,
  missing_half_open_prerequisites-IsClean,
}
use sinan.Breaker.Ranks.{Rising}
use sinan.Breaker.Times.{HasReached}
use sinan.Breaker.Step.{Step, stay, evidence_cleared, half_opened}
use sinan.Breaker.Refine.{open_incident-Step, safety_fallback-Step}

module _ (p : CircuitBreakerPolicy) (request : TransitionRequest) (s : CircuitBreakerState)
    (i : CircuitBreakerInput) (now : ℤ) (nonneg : is_negative now ≡ false)
    (reached : HasReached s now) where
  half_open_outcome-Step :
      (all : List CircuitBreakerViolation)
      (r : Result CircuitBreakerError (List CircuitBreakerViolation))
      → Rising false 0 12 all
      → filter_half_open_violations s all i ≡ r
      → Step p request now s (half_open_outcome s r i now).state
  unfolding half_open_outcome unchanged
  half_open_outcome-Step all (err e) rising h =
      safety_fallback-Step p request now s now e
        (Fails-err _ (filter_half_open_violations-IsClean s all i) h)
  half_open_outcome-Step all (ok []) rising h = stay refl
  half_open_outcome-Step all (ok (v ∷ vs)) rising h =
      open_incident-Step p request now s v vs true 12 i now true
        (filter_half_open_violations-Rising s i all rising h) nonneg reached

  observe_half_open-Step :
      (all : List CircuitBreakerViolation)
      → Rising false 0 12 all
      → Step p request now s (observe_half_open s all i now).state
  unfolding observe_half_open
  observe_half_open-Step all rising = half_open_outcome-Step all _ rising refl

  observed-Step :
      (status : CircuitBreakerStatus) (vs : List CircuitBreakerViolation)
      → s.status ≡ status
      → Rising false 0 12 vs
      → Step p request now s (observed status vs s i now).state
  unfolding observed unchanged
  observed-Step closed [] at rising = stay refl
  observed-Step closed (v ∷ vs) at rising =
      open_incident-Step p request now s v vs false 12 i now false rising nonneg reached
  observed-Step half_open vs at rising = observe_half_open-Step vs rising
  observed-Step opened [] at rising = elim (Bool-cases (is_some s.last_incident_fingerprint)) [
    | inl e ↦ rw (e, observed) (evidence_cleared nonneg reached at e refl)
    | inr e ↦ rw (e, observed) (stay refl)
  ]
  observed-Step opened (v ∷ vs) at rising =
      elim (Bool-cases (same_fingerprint s.last_incident_fingerprint (fingerprint_of v vs i))) [
        | inl e ↦ rw (e, observed) (stay refl)
        | inr e ↦
            rw (e, observed)
              (open_incident-Step p request now s v vs false 12 i now true rising nonneg reached)
      ]

  pub observe-Step : Step p request now s (observe p s i now).state
  unfolding observe
  observe-Step = elim (Result-cases (collect_violations p i now)) [
    | inl (vs, e) ↦
        rw (e, observe) (observed-Step s.status vs refl (collect_violations-Rising p i now e))
    | inr (x, e) ↦
        rw (e, observe)
          (safety_fallback-Step p request now s now x
            (Fails-err _ (collect_violations-IsClean p i now) e))
  ]

  module _ (readiness : HalfOpenReadiness)
      (asked : request ≡ TransitionRequest.enter_half_open readiness i) (at : s.status ≡ opened)
      (vs : List CircuitBreakerViolation) (collected : collect_violations p i now ≡ ok vs) where
    ready_outcome-Step :
        (t : ℤ) (missing : Result CircuitBreakerError (List RecoveryPrerequisite))
        → missing_half_open_prerequisites readiness t now ≡ missing
        → s.triggered_at_ms ≡ some t
        → readiness.recovery_epoch ≡ s.recovery_epoch
        → keep_if is_blocking vs ≡ []
        → Step p request now s (ready_outcome s vs i missing now).state
    unfolding ready_outcome with_error
    ready_outcome-Step t (err e) h was epoch unblocked =
        safety_fallback-Step p request now s now e
          (Fails-err _ (missing_half_open_prerequisites-IsClean readiness t now) h)
    ready_outcome-Step t (ok (q ∷ qs)) h was epoch unblocked = stay refl
    ready_outcome-Step t (ok []) h was epoch unblocked =
        half_opened i nonneg reached at
          (record {
            readiness = readiness;
            asked = asked;
            triggered_at = t;
            was_triggered = was;
            same_epoch = epoch;
            complete = h;
            violations = vs;
            collected = collected;
            unblocked = unblocked;
          })
          refl

    with_readiness-Step :
        (triggered_at : Option ℤ)
        → s.triggered_at_ms ≡ triggered_at
        → keep_if is_blocking vs ≡ []
        → Step p request now s (with_readiness s readiness vs i triggered_at now).state
    unfolding with_readiness with_error error_fingerprint error_fingerprint_has_blank_text is_blank
        is_whitespace
    with_readiness-Step none was unblocked = safety_fallback-Step p request now s now _ refl
    with_readiness-Step (some t) was unblocked =
        elim (Bool-cases (readiness.recovery_epoch == s.recovery_epoch)) [
          | inr e ↦ rw (e, with_readiness) (stay refl)
          | inl e ↦
              rw (e, with_readiness) (ready_outcome-Step t _ refl was (ground arith) unblocked)
        ]

    unless_any-Step :
        (blocking : List CircuitBreakerViolation)
        → keep_if is_blocking vs ≡ blocking
        → Step p request now s (unless_any s readiness vs i blocking now).state
    unfolding unless_any with_error
    unless_any-Step [] h = with_readiness-Step s.triggered_at_ms refl h
    unless_any-Step (b ∷ bs) h = stay refl

    unless_blocked-Step : Step p request now s (unless_blocked s readiness vs i now).state
    unfolding unless_blocked
    unless_blocked-Step = unless_any-Step _ refl

  module _ (readiness : HalfOpenReadiness)
      (asked : request ≡ TransitionRequest.enter_half_open readiness i) where
    entered-Step :
        (vs : List CircuitBreakerViolation)
        → s.status ≡ opened
        → collect_violations p i now ≡ ok vs
        → Step p request now s (entered s readiness vs i now).state
    unfolding entered
    entered-Step [] at collected = unless_blocked-Step readiness asked at [] collected
    entered-Step (v ∷ vs) at collected =
        elim (Bool-cases (same_fingerprint s.last_incident_fingerprint (fingerprint_of v vs i))) [
          | inl e ↦ rw (e, entered) (unless_blocked-Step readiness asked at (v ∷ vs) collected)
          | inr e ↦
              rw (e, entered)
                (open_incident-Step p request now s v vs false 12 i now true
                  (collect_violations-Rising p i now collected) nonneg reached)
        ]

    enter_by_status-Step :
        (status : CircuitBreakerStatus)
        → s.status ≡ status
        → Step p request now s (enter_by_status status p s readiness i now).state
    unfolding enter_by_status unchanged
    enter_by_status-Step closed at = stay refl
    enter_by_status-Step half_open at = observe-Step
    enter_by_status-Step opened at = elim (Result-cases (collect_violations p i now)) [
      | inl (vs, e) ↦ rw (e, enter_by_status) (entered-Step vs at e)
      | inr (x, e) ↦
          rw (e, enter_by_status)
            (safety_fallback-Step p request now s now x
              (Fails-err _ (collect_violations-IsClean p i now) e))
    ]

    pub enter_half_open-Step : Step p request now s (enter_half_open p s readiness i now).state
    unfolding enter_half_open
    enter_half_open-Step = enter_by_status-Step s.status refl
