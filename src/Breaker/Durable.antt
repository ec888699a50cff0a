-- ===== src/Breaker/Durable.antt =====
-- crates/risk/src/circuit_breaker.rs: what holds of every state that the machine reaches, in the
-- terms of the checks that `validate_restored_state` makes. The test whether an epoch is left is not
-- among them (see Exhaustion), and neither is that of the recorded times against the server time.
use sinan.Prelude.{
  ℕ, suc, ◌≤◌, ◌<◌, ℤ, [], ◌∷◌, ◌++◌, true, false, Option, none, some, ◌≡◌, refl, ap, arith,
  is_negative, ok, decide_refl, decide_ne,
}
use sinan.Breaker.Types.{CircuitBreakerReason, CircuitBreakerReason-discrete}
use sinan.Breaker.Incident.{
  CircuitBreakerIncidentEvidence, CircuitBreakerIncidentEvidence-discrete,
  CircuitBreakerIncidentFingerprint,
}
use sinan.Breaker.State.{CircuitBreakerState, default_state, is_active}
use sinan.Breaker.Snapshot.{
  contains, check_trigger, check_reason, check_reset, check_by_status, check_status, check_presence,
  check_source, check_evidence, check_fingerprint, check_order,
}
use sinan.Breaker.Ranks.{evidence_rank}
use sinan.Breaker.Fingerprints.{Evident}

abbrev pub NonNegative : Option ℤ → Type 0
NonNegative none = Unit {0}
NonNegative (some t) = is_negative t ≡ false

-- The recorded times are not negative, and each check that neither reads the server time nor tests
-- whether an epoch is left is passed.
pub record IsDurable (s : CircuitBreakerState) : Type 0 where
  pub triggered_nonneg : NonNegative s.triggered_at_ms
  pub cleared_nonneg : NonNegative s.incident_evidence_cleared_at_ms
  pub half_opened_nonneg : NonNegative s.half_opened_at_ms
  pub reset_nonneg : NonNegative s.reset_at_ms
  pub trigger : check_trigger s ≡ ok tt
  pub cause : check_reason s ≡ ok tt
  pub reset_data : check_reset s ≡ ok tt
  pub by_status : check_status s ≡ ok tt
  pub presence : check_presence s ≡ ok tt
  pub source : check_source s ≡ ok tt
  pub fingerprint : check_fingerprint s.last_incident_fingerprint s ≡ ok tt
  pub order : check_order s ≡ ok tt
  pub epoch : is_active s.status ≡ true → 0 < s.recovery_epoch

pub default_state-IsDurable : IsDurable default_state
unfolding default_state check_trigger check_reason check_reset check_status check_by_status
    check_presence check_source check_fingerprint check_order is_active
default_state-IsDurable = record {
  triggered_nonneg = tt;
  cleared_nonneg = tt;
  half_opened_nonneg = tt;
  reset_nonneg = tt;
  trigger = refl;
  cause = rw (decide_refl CircuitBreakerReason-discrete CircuitBreakerReason.okay);
  reset_data = refl;
  by_status = refl;
  presence = refl;
  source = refl;
  fingerprint = refl;
  order = refl;
  epoch = λ on. cc;
}

-- Evidence of lower rank is no duplicate.
abbrev Below : ℕ → CircuitBreakerIncidentFingerprint → Type 0
Below n [] = Unit {0}
Below n (e ∷ es) = (evidence_rank e < n) × Below n es

Below-append :
    (n : ℕ) (seen : CircuitBreakerIncidentFingerprint) (e : CircuitBreakerIncidentEvidence)
    → Below n seen
    → n ≤ evidence_rank e
    → Below (suc (evidence_rank e)) (seen ++ e ∷ [])
Below-append n [] e h k = (omega arith, tt)
Below-append n (x ∷ seen) e h k = (omega arith, Below-append n seen e h.1 k)

not-contains :
    (n : ℕ) (seen : CircuitBreakerIncidentFingerprint) (e : CircuitBreakerIncidentEvidence)
    → Below n seen
    → n ≤ evidence_rank e
    → contains seen e ≡ false
not-contains n [] e h k = refl
not-contains n (x ∷ seen) e h k =
    rw
      (decide_ne CircuitBreakerIncidentEvidence-discrete x e
        (λ p. omega (arith, ap evidence_rank p)))
      (not-contains n seen e h.1 k)

pub check_evidence-ok :
    (n : ℕ) (seen es : CircuitBreakerIncidentFingerprint)
    → Below n seen
    → Evident n es
    → check_evidence seen es ≡ ok tt
unfolding check_evidence
check_evidence-ok n seen [] h k = refl
check_evidence-ok n seen (e ∷ es) h k =
    rw (not-contains n seen e h k.0, k.1)
      (check_evidence-ok (suc (evidence_rank e)) (seen ++ e ∷ []) es (Below-append n seen e h k.0)
        k.2)
