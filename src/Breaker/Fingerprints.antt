-- ===== src/Breaker/Fingerprints.antt =====
-- crates/risk/src/circuit_breaker.rs: what a fingerprint keeps of the violations behind it.
use sinan.Prelude.{ℕ, suc, ◌≤◌, ℤ, List, [], ◌∷◌, map, Bool, false, Option, ◌≡◌, ◌∙◌, arith}
use sinan.Breaker.Types.{CircuitBreakerError, error_fingerprint}
use sinan.Breaker.Incident.{
  CircuitBreakerViolation, CircuitBreakerIncidentEvidence, CircuitBreakerIncidentFingerprint,
}
use sinan.Breaker.Evidence.{
  violation_reason, violation_source, violation_evidence, incident_evidence_reason,
  incident_evidence_source, incident_evidence_has_blank_text, error_fingerprint_has_blank_text,
}
use sinan.Breaker.Ranks.{evidence_rank, rank, has_blank, Rising}

-- Evidence that rises strictly in rank from `lo`, with no blank text.
abbrev pub Evident : ℕ → CircuitBreakerIncidentFingerprint → Type 0
Evident lo [] = Unit {0}
Evident lo (e ∷ es) =
    (lo ≤ evidence_rank e)
    × (incident_evidence_has_blank_text e ≡ false)
    × Evident (suc (evidence_rank e)) es

pub evidence_rank-violation_evidence :
    (since : Option ℤ) (v : CircuitBreakerViolation)
    → evidence_rank (violation_evidence since v) ≡ rank v
unfolding evidence_rank violation_evidence
evidence_rank-violation_evidence since v = ground arith

blank-violation_evidence :
    (since : Option ℤ) (v : CircuitBreakerViolation)
    → incident_evidence_has_blank_text (violation_evidence since v) ≡ has_blank v
unfolding incident_evidence_has_blank_text violation_evidence
blank-violation_evidence since v = ground arith

pub Rising-Evident :
    (w : Bool) (lo hi : ℕ) (since : Option ℤ) (vs : List CircuitBreakerViolation)
    → Rising w lo hi vs
    → Evident lo (map (violation_evidence since) vs)
Rising-Evident w lo hi since [] r = tt
Rising-Evident w lo hi since (v ∷ vs) r =
    let same = evidence_rank-violation_evidence since v in
    (
      rw same r.0,
      blank-violation_evidence since v ∙ r.1,
      rw same (Rising-Evident w (suc (rank v)) hi since vs r.3),
    )

-- The evidence of a violation stands for its reason and its source.
pub reason-violation_evidence :
    (since : Option ℤ) (v : CircuitBreakerViolation)
    → incident_evidence_reason (violation_evidence since v) ≡ violation_reason v
unfolding incident_evidence_reason violation_evidence violation_reason
reason-violation_evidence since v = ground arith

pub source-violation_evidence :
    (since : Option ℤ) (v : CircuitBreakerViolation)
    → incident_evidence_source (violation_evidence since v) ≡ violation_source v
unfolding incident_evidence_source violation_evidence violation_source
source-violation_evidence since v = ground arith

-- An error whose texts are not blank.
abbrev pub IsClean : CircuitBreakerError → Type 0
IsClean e = error_fingerprint_has_blank_text (error_fingerprint e) ≡ false

pub IsClean-Evident :
    (e : CircuitBreakerError)
    → IsClean e
    → Evident 0 (CircuitBreakerIncidentEvidence.safety_error (error_fingerprint e) ∷ [])
unfolding incident_evidence_has_blank_text
IsClean-Evident e h = (omega arith, h, tt)
