-- ===== src/Breaker/Times.antt =====
-- crates/risk/src/circuit_breaker.rs: the latest transition, and the time that a fallback is given.
use sinan.Prelude.{
  ℤ, List, [], ◌∷◌, false, Option, none, some, ◌≡◌, arith, All, is_negative, ◌≤ℤ◌, max_ℤ, one_part,
  neg_part-pos, Option-cases, inl, inr,
}
use sinan.Breaker.State.{CircuitBreakerState, later_of, latest_of, latest_transition_at_ms}
use sinan.Breaker.Machine.{fallback_at_ms, at_least_zero}

abbrev pub NotAfter : Option ℤ → ℤ → Type 0
NotAfter none t = Unit {0}
NotAfter (some u) t = u ≤ℤ t

pub NotAfter-trans : (o : Option ℤ) (t u : ℤ) → t ≤ℤ u → NotAfter o t → NotAfter o u
NotAfter-trans none t u h k = tt
NotAfter-trans (some v) t u h k = omega arith

max_ℤ-le : (a b t : ℤ) → max_ℤ a b ≤ℤ t → (a ≤ℤ t) × (b ≤ℤ t)
max_ℤ-le a b t h = ground arith

later_of-NotAfter : (u : ℤ) (o : Option ℤ) (t : ℤ) → later_of u o ≤ℤ t → (u ≤ℤ t) × NotAfter o t
later_of-NotAfter u none t h = (h, tt)
later_of-NotAfter u (some v) t h = max_ℤ-le u v t h

latest_of-NotAfter :
    (os : List (Option ℤ)) (t : ℤ) → NotAfter (latest_of os) t → All (λ o. NotAfter o t) os
unfolding latest_of
latest_of-NotAfter [] t h = tt
latest_of-NotAfter (none ∷ rest) t h = (tt, latest_of-NotAfter rest t h)
latest_of-NotAfter (some u ∷ rest) t h =
    let k = later_of-NotAfter u (latest_of rest) t h in (k.0, latest_of-NotAfter rest t k.1)

-- No time that a state records lies after `t`.
pub record HasReached (s : CircuitBreakerState) (t : ℤ) : Type 0 where
  pub triggered : NotAfter s.triggered_at_ms t
  pub cleared : NotAfter s.incident_evidence_cleared_at_ms t
  pub half_opened : NotAfter s.half_opened_at_ms t
  pub reset : NotAfter s.reset_at_ms t

pub latest-HasReached :
    (s : CircuitBreakerState) (t : ℤ) → NotAfter (latest_transition_at_ms s) t → HasReached s t
unfolding latest_transition_at_ms
latest-HasReached s t h =
    let k = latest_of-NotAfter _ t h in
    record { triggered = k.0; cleared = k.1.0; half_opened = k.1.1.0; reset = k.1.1.1.0 }

pub HasReached-trans :
    (s : CircuitBreakerState) (t u : ℤ) → t ≤ℤ u → HasReached s t → HasReached s u
HasReached-trans s t u h r = record {
  triggered = NotAfter-trans s.triggered_at_ms t u h r.triggered;
  cleared = NotAfter-trans s.incident_evidence_cleared_at_ms t u h r.cleared;
  half_opened = NotAfter-trans s.half_opened_at_ms t u h r.half_opened;
  reset = NotAfter-trans s.reset_at_ms t u h r.reset;
}

at_least_zero-nonneg : (t : ℤ) → is_negative (at_least_zero t) ≡ false
at_least_zero-nonneg t = ground (arith, neg_part-pos 0)

max_ℤ-nonneg : (a b : ℤ) → is_negative b ≡ false → is_negative (max_ℤ a b) ≡ false
max_ℤ-nonneg a b h = ground (arith, one_part a, one_part b)

-- The time of a fallback is not negative, not before the call, and not before any time recorded.
pub fallback_at_ms-nonneg :
    (s : CircuitBreakerState) (now : ℤ) → is_negative (fallback_at_ms s now) ≡ false
unfolding fallback_at_ms
fallback_at_ms-nonneg s now = elim (Option-cases (latest_transition_at_ms s)) [
  | inl e ↦ rw (e, fallback_at_ms) (at_least_zero-nonneg now)
  | inr (latest, e) ↦
      rw (e, fallback_at_ms) (max_ℤ-nonneg latest (at_least_zero now) (at_least_zero-nonneg now))
]

pub fallback_at_ms-HasReached :
    (s : CircuitBreakerState) (now : ℤ) → HasReached s (fallback_at_ms s now)
unfolding fallback_at_ms
fallback_at_ms-HasReached s now = elim (Option-cases (latest_transition_at_ms s)) [
  | inl e ↦ latest-HasReached s (fallback_at_ms s now) (rw e tt)
  | inr (latest, e) ↦
      latest-HasReached s (fallback_at_ms s now) (rw (e, fallback_at_ms) (ground arith))
]
