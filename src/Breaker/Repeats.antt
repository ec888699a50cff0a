-- ===== src/Breaker/Repeats.antt =====
-- crates/risk/src/circuit_breaker.rs: a safety error that repeats is one incident
-- (`safety_fallback`).
use sinan.Prelude.{
  decide_refl, ◌<◌, ℤ, Bool, true, false, Option, none, some, ◌≡◌, refl, ap, inl, inr, arith,
  u64_max, Bool-cases, checked_suc, ltb, ◌∙◌,
}
use mathlib.Core.Bool.{decide_iff}
use sinan.Breaker.Types.{CircuitBreakerStatus, closed, opened, half_open, CircuitBreakerError}
use sinan.Breaker.Incident.{CircuitBreakerIncidentFingerprint, fingerprint_discrete}
use sinan.Breaker.State.{CircuitBreakerState}
use sinan.Breaker.Machine.{
  incident_state, open_incident, safety_fallback, fallback_by_status, as_fallback, is_overflow,
  same_fingerprint, safety_error_fingerprint, safety_incident,
}

-- The state is open for the safety error `e`.
abbrev OpenFor : CircuitBreakerError → CircuitBreakerState → Type 0
OpenFor e s =
    (s.status ≡ opened) × (s.last_incident_fingerprint ≡ some (safety_error_fingerprint e))

same_fingerprint_refl : (f : CircuitBreakerIncidentFingerprint) → same_fingerprint (some f) f ≡ true
unfolding same_fingerprint
same_fingerprint_refl f = decide_refl fingerprint_discrete f

same_fingerprint_eq :
    (o : Option CircuitBreakerIncidentFingerprint) (f : CircuitBreakerIncidentFingerprint)
    → same_fingerprint o f ≡ true
    → o ≡ some f
unfolding same_fingerprint
same_fingerprint_eq none f h = cc
same_fingerprint_eq (some g) f h = ap some ((decide_iff (fingerprint_discrete g f)).0 h)

fallback_by_status_again :
    (status : CircuitBreakerStatus) (s : CircuitBreakerState) (now : ℤ) (e : CircuitBreakerError)
    → status ≡ opened
    → same_fingerprint s.last_incident_fingerprint (safety_error_fingerprint e) ≡ true
    → (fallback_by_status status s now e).state ≡ s
unfolding fallback_by_status
fallback_by_status_again opened s now e h q = rw (q, fallback_by_status)
fallback_by_status_again half_open s now e h q = absurd (cc h)
fallback_by_status_again closed s now e h q = absurd (cc h)

safety_fallback_again :
    (s : CircuitBreakerState) (now : ℤ) (e : CircuitBreakerError)
    → OpenFor e s
    → (safety_fallback s now e).state ≡ s
unfolding safety_fallback
safety_fallback_again s now e h = fallback_by_status_again s.status s now e h.0 (
    ap (λ o. same_fingerprint o (safety_error_fingerprint e)) h.1
    ∙ same_fingerprint_refl (safety_error_fingerprint e))

as_fallback-OpenFor :
    (s : CircuitBreakerState) (now : ℤ) (e : CircuitBreakerError) (reopened : Bool)
    → s.recovery_epoch < u64_max
    → OpenFor e (as_fallback e (safety_incident s now e reopened)).state
unfolding as_fallback is_overflow open_incident checked_suc incident_state
as_fallback-OpenFor s now e reopened room = rw (below, open_incident) (refl, refl)
  where
    below : ltb s.recovery_epoch u64_max ≡ true
    below = ground arith

fallback_by_status-OpenFor :
    (status : CircuitBreakerStatus) (s : CircuitBreakerState) (now : ℤ) (e : CircuitBreakerError)
    → s.status ≡ status
    → s.recovery_epoch < u64_max
    → OpenFor e (fallback_by_status status s now e).state
unfolding fallback_by_status
fallback_by_status-OpenFor opened s now e at room =
    elim (Bool-cases (same_fingerprint s.last_incident_fingerprint (safety_error_fingerprint e))) [
      | inl q ↦ rw (q, fallback_by_status) (at, same_fingerprint_eq _ _ q)
      | inr q ↦ rw (q, fallback_by_status) (as_fallback-OpenFor s now e true room)
    ]
fallback_by_status-OpenFor half_open s now e at room = as_fallback-OpenFor s now e true room
fallback_by_status-OpenFor closed s now e at room = as_fallback-OpenFor s now e false room

fallback-OpenFor :
    (s : CircuitBreakerState) (now : ℤ) (e : CircuitBreakerError)
    → s.recovery_epoch < u64_max
    → OpenFor e (safety_fallback s now e).state
unfolding safety_fallback
fallback-OpenFor s now e room = fallback_by_status-OpenFor s.status s now e refl room

-- Where a recovery epoch is left, a safety error that is reported again, at whatever time, changes
-- nothing: it neither opens a new recovery epoch nor moves the time of the incident.
pub safety_fallback_repeats :
    (s : CircuitBreakerState) (now later : ℤ) (e : CircuitBreakerError)
    → s.recovery_epoch < u64_max
    → (safety_fallback (safety_fallback s now e).state later e).state
      ≡ (safety_fallback s now e).state
safety_fallback_repeats s now later e room =
    safety_fallback_again (safety_fallback s now e).state later e (fallback-OpenFor s now e room)
