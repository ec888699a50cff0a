-- ===== src/Breaker/Refine.antt =====
-- crates/risk/src/circuit_breaker.rs: every operation makes one move of the relation `Step`.
use sinan.Prelude.{
  ℕ, ◌<◌, ℤ, List, [], ◌∷◌, map, Bool, true, false, some, ◌≡◌, refl, sym, subst, inl, inr, arith,
  is_negative, checked_suc, u64_max, Bool-cases, ltb,
}
use sinan.Breaker.Types.{
  CircuitBreakerPolicy, CircuitBreakerStatus, closed, opened, half_open, CircuitBreakerError,
  error_fingerprint,
}
use sinan.Breaker.Incident.{CircuitBreakerViolation, CircuitBreakerIncidentEvidence}
use sinan.Breaker.Input.{CircuitBreakerInput, TransitionRequest}
use sinan.Breaker.State.{CircuitBreakerState}
use sinan.Breaker.Outcome.{CircuitBreakerOutcome}
use sinan.Breaker.Evidence.{
  violation_evidence, violation_reason, violation_source, incident_fingerprint,
  incident_evidence_reason, incident_evidence_source, incident_evidence_has_blank_text,
  error_fingerprint_has_blank_text,
}
use sinan.Breaker.Machine.{
  open_incident, epoch_overflow, safety_fallback, fallback_by_status, as_fallback, fallback_at_ms,
  safety_error_fingerprint, safety_incident, same_fingerprint,
}
use sinan.Breaker.Ranks.{Rising}
use sinan.Breaker.Fingerprints.{
  Evident, Rising-Evident, reason-violation_evidence, source-violation_evidence, IsClean,
  IsClean-Evident,
}
use sinan.Breaker.Times.{HasReached, fallback_at_ms-nonneg, fallback_at_ms-HasReached}
use sinan.Breaker.Step.{Step, stay, incident, exhausted}

as_fallback-state :
    (e : CircuitBreakerError) (o : CircuitBreakerOutcome) → (as_fallback e o).state ≡ o.state
unfolding as_fallback
as_fallback-state e o = ground arith

module _ (p : CircuitBreakerPolicy) (request : TransitionRequest) (called : ℤ) where
  pub epoch_overflow-Step :
      (s : CircuitBreakerState) (now : ℤ)
      → ¬ (s.recovery_epoch < u64_max)
      → Step p request called s (epoch_overflow s now).state
  unfolding epoch_overflow incident_evidence_reason incident_evidence_source error_fingerprint
      error_fingerprint_has_blank_text incident_evidence_has_blank_text
  epoch_overflow-Step s now h =
      exhausted
        (CircuitBreakerIncidentEvidence.safety_error
          (error_fingerprint CircuitBreakerError.recovery_epoch_overflow))
        (fallback_at_ms s now) (IsClean-Evident CircuitBreakerError.recovery_epoch_overflow refl)
        (fallback_at_ms-nonneg s now) (fallback_at_ms-HasReached s now) h refl

  -- `open` with any evidence that stands for the reason and the source of the first violation.
  open_evidence-Step :
      (s : CircuitBreakerState) (v : CircuitBreakerViolation) (vs : List CircuitBreakerViolation)
      (e : CircuitBreakerIncidentEvidence) (es : List CircuitBreakerIncidentEvidence) (at : ℤ)
      (reopened : Bool)
      → incident_evidence_reason e ≡ violation_reason v
      → incident_evidence_source e ≡ violation_source v
      → Evident 0 (e ∷ es)
      → is_negative at ≡ false
      → HasReached s at
      → Step p request called s (open_incident s v vs (e ∷ es) at reopened).state
  unfolding open_incident checked_suc
  open_evidence-Step s v vs e es at reopened same_reason same_source evident nonneg reached =
      elim (Bool-cases (ltb s.recovery_epoch u64_max)) [
        | inl room ↦
            rw (room, open_incident)
              (incident e es at evident nonneg reached (ground arith)
                (rw (same_reason, same_source)))
        | inr full ↦ rw (full, open_incident) (epoch_overflow-Step s at (ground arith))
      ]

  -- `open` on a list of violations that rises in rank, with the fingerprint of that list.
  pub open_incident-Step :
      (s : CircuitBreakerState) (v : CircuitBreakerViolation) (vs : List CircuitBreakerViolation)
      (w : Bool) (hi : ℕ) (input : CircuitBreakerInput) (at : ℤ) (reopened : Bool)
      → Rising w 0 hi (v ∷ vs)
      → is_negative at ≡ false
      → HasReached s at
      → Step p request called s
          (open_incident s v vs (incident_fingerprint (v ∷ vs) (some input)) at reopened).state
  unfolding incident_fingerprint
  open_incident-Step s v vs w hi input at reopened r nonneg reached =
      let since = input.time_sync_unhealthy_since_ms in
      open_evidence-Step s v vs (violation_evidence since v) (map (violation_evidence since) vs) at
        reopened (reason-violation_evidence since v) (source-violation_evidence since v)
        (Rising-Evident w 0 hi since (v ∷ vs) r) nonneg reached

  safety_incident-Step :
      (s : CircuitBreakerState) (now : ℤ) (e : CircuitBreakerError) (reopened : Bool)
      → IsClean e
      → Step p request called s (as_fallback e (safety_incident s now e reopened)).state
  unfolding incident_evidence_reason incident_evidence_source violation_reason violation_source
  safety_incident-Step s now e reopened clean =
      subst (Step p request called s) (sym (as_fallback-state e (safety_incident s now e reopened)))
        (open_evidence-Step s CircuitBreakerViolation.safety_violation []
          (CircuitBreakerIncidentEvidence.safety_error (error_fingerprint e)) []
          (fallback_at_ms s now) reopened refl refl (IsClean-Evident e clean)
          (fallback_at_ms-nonneg s now) (fallback_at_ms-HasReached s now))

  fallback_by_status-Step :
      (status : CircuitBreakerStatus) (s : CircuitBreakerState) (now : ℤ) (e : CircuitBreakerError)
      → IsClean e
      → Step p request called s (fallback_by_status status s now e).state
  unfolding fallback_by_status
  fallback_by_status-Step opened s now e clean =
      elim (Bool-cases
        (same_fingerprint s.last_incident_fingerprint (safety_error_fingerprint e))) [
          | inl same ↦ rw (same, fallback_by_status) (stay refl)
          | inr other ↦ rw (other, fallback_by_status) (safety_incident-Step s now e true clean)
        ]
  fallback_by_status-Step half_open s now e clean = safety_incident-Step s now e true clean
  fallback_by_status-Step closed s now e clean = safety_incident-Step s now e false clean

  pub safety_fallback-Step :
      (s : CircuitBreakerState) (now : ℤ) (e : CircuitBreakerError)
      → IsClean e
      → Step p request called s (safety_fallback s now e).state
  unfolding safety_fallback
  safety_fallback-Step s now e clean = fallback_by_status-Step s.status s now e clean
