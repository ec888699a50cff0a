-- ===== src/Breaker/Errors.antt =====
-- crates/risk/src/circuit_breaker.rs: the errors that reach the safety fallback carry texts that are
-- not blank, so that the fingerprint made of them survives a restart.
use sinan.Prelude.{
  ℤ, String, List, [], ◌∷◌, false, Option, none, some, ◌≡◌, refl, is_blank, is_whitespace, All,
  Fails, Fails->>=, Fails-reject_if, Fails-ok_or, reject_if, eqb_ℤ, pos, is_negative, ltb_ℤ, ◌||◌,
  checked_sub, ok_or,
}
use sinan.Breaker.Types.{CircuitBreakerPolicy, error_fingerprint, RecoveryPrerequisite}
use sinan.Breaker.Incident.{CircuitBreakerViolation}
use sinan.Breaker.Input.{CircuitBreakerInput, ManualTrigger, RecoveryHealth, HalfOpenReadiness}
use sinan.Breaker.State.{CircuitBreakerState}
use sinan.Breaker.Evidence.{error_fingerprint_has_blank_text}
use sinan.Breaker.Policy.{
  validate, require_positive, validate_non_blank, missing_of, check_range,
  missing_half_open_prerequisites,
}
use sinan.Breaker.Detect.{
  validate_trigger, clock_violations, collect_violations, filter_half_open_violations,
  half_open_violations,
}
use sinan.Breaker.Closing.{close_violations}
use sinan.Breaker.Fingerprints.{IsClean}

require_positive-IsClean :
    (fields : List (String × ℤ))
    → All (λ f. is_blank f.0 ≡ false) fields
    → Fails IsClean (require_positive fields)
unfolding require_positive error_fingerprint error_fingerprint_has_blank_text is_blank is_whitespace
require_positive-IsClean [] h = tt
require_positive-IsClean ((field, value) ∷ rest) h =
    Fails->>= IsClean (reject_if (eqb_ℤ value (pos 0)) _) _
      (Fails-reject_if IsClean _ _ (rw h.0 refl)) λ _. require_positive-IsClean rest h.1

pub validate-IsClean : (p : CircuitBreakerPolicy) → Fails IsClean (validate p)
unfolding validate error_fingerprint error_fingerprint_has_blank_text is_blank is_whitespace
validate-IsClean p =
    Fails->>= IsClean (require_positive _) _
      (require_positive-IsClean _ (refl, (refl, (refl, (refl, (refl, tt))))))
      λ _. Fails-reject_if IsClean _ _ refl

validate_non_blank-IsClean :
    (field value : String) → is_blank field ≡ false → Fails IsClean (validate_non_blank field value)
unfolding validate_non_blank error_fingerprint error_fingerprint_has_blank_text is_blank
    is_whitespace
validate_non_blank-IsClean field value h = Fails-reject_if IsClean (is_blank value) _ (rw h refl)

validate_trigger-IsClean : (t : Option ManualTrigger) → Fails IsClean (validate_trigger t)
unfolding validate_trigger is_blank is_whitespace
validate_trigger-IsClean none = tt
validate_trigger-IsClean (some t) =
    Fails->>= IsClean (validate_non_blank _ t.operator_id) _
      (validate_non_blank-IsClean _ t.operator_id refl)
      λ _. validate_non_blank-IsClean _ t.reason refl

clock_violations-IsClean :
    (p : CircuitBreakerPolicy) (since : Option ℤ) (now : ℤ)
    → Fails IsClean (clock_violations p since now)
unfolding clock_violations error_fingerprint error_fingerprint_has_blank_text is_blank is_whitespace
clock_violations-IsClean p none now = tt
clock_violations-IsClean p (some since) now =
    Fails->>= IsClean (reject_if (is_negative since || ltb_ℤ now since) _) _
      (Fails-reject_if IsClean _ _ refl)
      λ _.
        Fails->>= IsClean (ok_or (checked_sub now since) _) _
          (Fails-ok_or IsClean (checked_sub now since) _ refl) (λ _. tt)

pub collect_violations-IsClean :
    (p : CircuitBreakerPolicy) (i : CircuitBreakerInput) (now : ℤ)
    → Fails IsClean (collect_violations p i now)
unfolding collect_violations
collect_violations-IsClean p i now =
    Fails->>= IsClean (validate_trigger i.manual_trigger) _
      (validate_trigger-IsClean i.manual_trigger)
      λ _.
        Fails->>= IsClean (clock_violations p i.time_sync_unhealthy_since_ms now) _
          (clock_violations-IsClean p i.time_sync_unhealthy_since_ms now) (λ _. tt)

pub filter_half_open_violations-IsClean :
    (s : CircuitBreakerState) (all : List CircuitBreakerViolation) (i : CircuitBreakerInput)
    → Fails IsClean (filter_half_open_violations s all i)
unfolding filter_half_open_violations error_fingerprint error_fingerprint_has_blank_text
filter_half_open_violations-IsClean s all i =
    Fails->>= IsClean (ok_or s.half_open_daily_loss_baseline_bps _) _ (Fails-ok_or IsClean _ _ refl)
      λ _.
        Fails->>= IsClean (ok_or s.half_open_drawdown_baseline_bps _) _
          (Fails-ok_or IsClean _ _ refl) (λ _. tt)

pub close_violations-IsClean :
    (p : CircuitBreakerPolicy) (s : CircuitBreakerState) (health : RecoveryHealth) (now : ℤ)
    → Fails IsClean (close_violations p s health now)
unfolding close_violations half_open_violations
close_violations-IsClean p s health now =
    Fails->>= IsClean (half_open_violations p s health.input now) _
      (Fails->>= IsClean (collect_violations p health.input now) _
        (collect_violations-IsClean p health.input now)
        λ all. filter_half_open_violations-IsClean s all health.input)
      λ _. tt

check_range-IsClean :
    (field : String) (observed : Option ℤ) (now : ℤ)
    → is_blank field ≡ false
    → Fails IsClean (check_range field observed now)
unfolding error_fingerprint error_fingerprint_has_blank_text is_blank is_whitespace
check_range-IsClean field none now h = tt
check_range-IsClean field (some t) now h = Fails-reject_if IsClean _ _ (rw h refl)

missing_of-IsClean :
    (fields : List (String × Option ℤ × RecoveryPrerequisite)) (triggered_at now : ℤ)
    → All (λ f. is_blank f.0 ≡ false) fields
    → Fails IsClean (missing_of fields triggered_at now)
unfolding missing_of
missing_of-IsClean [] triggered_at now h = tt
missing_of-IsClean ((field, observed, prerequisite) ∷ rest) triggered_at now h =
    Fails->>= IsClean (check_range field observed now) _
      (check_range-IsClean field observed now h.0)
      λ _.
        Fails->>= IsClean (missing_of rest triggered_at now) _
          (missing_of-IsClean rest triggered_at now h.1) (λ _. tt)

pub missing_half_open_prerequisites-IsClean :
    (r : HalfOpenReadiness) (triggered_at now : ℤ)
    → Fails IsClean (missing_half_open_prerequisites r triggered_at now)
unfolding missing_half_open_prerequisites is_blank is_whitespace
missing_half_open_prerequisites-IsClean r triggered_at now =
    missing_of-IsClean _ triggered_at now (refl, (refl, (refl, (refl, (refl, tt)))))
