-- ===== src/Breaker/Collected.antt =====
-- crates/risk/src/circuit_breaker.rs: the lists of violations that the breaker acts on rise in rank.
use sinan.Prelude.{
  ℕ, ℤ, List, [], ◌∷◌, ◌++◌, Bool, true, false, Option, none, some, ◌≡◌, refl, inr, arith, keep_if,
  ok, >>=-eq-ok, ltb, ok_or, ok-injective, subst, if◌then◌else◌,
}
use sinan.Breaker.Types.{CircuitBreakerPolicy}
use sinan.Breaker.Incident.{CircuitBreakerViolation}
use sinan.Breaker.Input.{CircuitBreakerInput, ManualTrigger, RecoveryHealth}
use sinan.Breaker.State.{CircuitBreakerState}
use sinan.Breaker.Evidence.{violation_evidence, incident_evidence_has_blank_text}
use sinan.Breaker.Policy.{validate_non_blank}
use sinan.Breaker.Detect.{
  when, validate_trigger, clock_violations, trigger_violations, limit_violations, stale_violations,
  collect_violations, filter_half_open_violations, half_open_violations, is_blocking, find_or,
  is_daily_loss, is_drawdown,
}
use sinan.Breaker.Closing.{close_violations}
use sinan.Breaker.Ranks.{
  evidence_rank, is_worsened, Rising, Rising-upper, Rising-append, Rising-when, Rising-worsened,
  Rising-keep_if, Rising-daily, Rising-drawdown,
}

limit_violations-Rising :
    (p : CircuitBreakerPolicy) (i : CircuitBreakerInput) → Rising false 0 8 (limit_violations p i)
unfolding limit_violations evidence_rank violation_evidence is_worsened
    incident_evidence_has_blank_text
limit_violations-Rising p i = ground arith

stale_violations-Rising :
    (p : CircuitBreakerPolicy) (i : CircuitBreakerInput) → Rising false 9 11 (stale_violations p i)
unfolding stale_violations evidence_rank violation_evidence is_worsened
    incident_evidence_has_blank_text
stale_violations-Rising p i = ground arith

clock_violations-Rising :
    (p : CircuitBreakerPolicy) (since : Option ℤ) (now : ℤ) {vs : List CircuitBreakerViolation}
    → clock_violations p since now ≡ ok vs
    → Rising false 8 9 vs
unfolding clock_violations evidence_rank violation_evidence is_worsened
    incident_evidence_has_blank_text
clock_violations-Rising p none now h = ground arith
clock_violations-Rising p (some since) now h = ground arith

trigger_violations-Rising :
    (t : Option ManualTrigger) (u : Unit {0})
    → validate_trigger t ≡ ok u
    → Rising false 11 12 (trigger_violations t)
unfolding validate_trigger validate_non_blank trigger_violations evidence_rank violation_evidence
    is_worsened incident_evidence_has_blank_text
trigger_violations-Rising none u h = omega arith
trigger_violations-Rising (some t) u h = ground arith

-- What `collect_violations` reports rises in rank, names no worsened baseline and has no blank text.
pub collect_violations-Rising :
    (p : CircuitBreakerPolicy) (i : CircuitBreakerInput) (now : ℤ)
    {vs : List CircuitBreakerViolation}
    → collect_violations p i now ≡ ok vs
    → Rising false 0 12 vs
unfolding collect_violations
collect_violations-Rising p i now h =
    let (u, trigger, h') = >>=-eq-ok (validate_trigger i.manual_trigger) _ h in
    let (clock, e, h'') = >>=-eq-ok (clock_violations p i.time_sync_unhealthy_since_ms now) _ h' in
    subst (Rising false 0 12) (ground arith) (
      Rising-append false 0 8 12 (limit_violations p i) _ (limit_violations-Rising p i) (
        Rising-append false 8 9 12 clock _
          (clock_violations-Rising p i.time_sync_unhealthy_since_ms now e)
          (Rising-append false 9 11 12 (stale_violations p i) _ (stale_violations-Rising p i)
            (trigger_violations-Rising i.manual_trigger u trigger))))

Rising-filtered :
    (a b : Bool) (daily loss drawdown drop : ℕ) (all : List CircuitBreakerViolation)
    → Rising false 0 12 all
    → Rising true 0 12 (
        when a (
          find_or is_daily_loss
            (CircuitBreakerViolation.daily_realized_loss_worsened daily loss)
            all)
        ++ (when b (
              find_or is_drawdown
                (CircuitBreakerViolation.equity_drawdown_worsened drawdown drop)
                all)
            ++ keep_if is_blocking all))
Rising-filtered a b daily loss drawdown drop all r =
    Rising-append true 0 2 12 (when a _) _ (Rising-daily a daily loss all) (
      Rising-append true 2 4 12 (when b _) _ (Rising-drawdown b drawdown drop all)
        (Rising-worsened 4 12 _ (Rising-keep_if 0 4 12 all (omega arith) (inr (omega arith)) r)))

pub filter_half_open_violations-Rising :
    (s : CircuitBreakerState) (i : CircuitBreakerInput) (all : List CircuitBreakerViolation)
    {vs : List CircuitBreakerViolation}
    → Rising false 0 12 all
    → filter_half_open_violations s all i ≡ ok vs
    → Rising true 0 12 vs
unfolding filter_half_open_violations
filter_half_open_violations-Rising s i all r h =
    let (daily, d, h') = >>=-eq-ok (ok_or s.half_open_daily_loss_baseline_bps _) _ h in
    let (drawdown, e, h'') = >>=-eq-ok (ok_or s.half_open_drawdown_baseline_bps _) _ h' in
    subst (Rising true 0 12) (ok-injective h'') (
      Rising-filtered (ltb daily i.daily_realized_loss_bps) (ltb drawdown i.equity_drawdown_bps)
        daily i.daily_realized_loss_bps drawdown i.equity_drawdown_bps all r)

Rising-reported :
    (b : Bool) (vs : List CircuitBreakerViolation)
    → Rising true 0 12 vs
    → Rising true 0 13
        (if b then vs ++ CircuitBreakerViolation.hard_risk_during_recovery ∷ [] else vs)
unfolding evidence_rank violation_evidence incident_evidence_has_blank_text is_worsened
Rising-reported true vs r = Rising-append true 0 12 13 vs _ r (
    Rising-when true true 12 13 CircuitBreakerViolation.hard_risk_during_recovery (omega arith)
      (omega arith) refl refl)
Rising-reported false vs r = Rising-upper true 0 12 13 vs (omega arith) r

-- The violations that a close examines stand in the strict order of their kinds, so that no kind
-- occurs twice, and none carries a blank text.
pub close_violations-Rising :
    (p : CircuitBreakerPolicy) (s : CircuitBreakerState) (health : RecoveryHealth) (now : ℤ)
    {vs : List CircuitBreakerViolation}
    → close_violations p s health now ≡ ok vs
    → Rising true 0 13 vs
unfolding close_violations half_open_violations
close_violations-Rising p s health now h =
    let (vs, e, h') = >>=-eq-ok (half_open_violations p s health.input now) _ h in
    let (all, c, f) = >>=-eq-ok (collect_violations p health.input now) _ e in
    let r =
      filter_half_open_violations-Rising s health.input all
        (collect_violations-Rising p health.input now c) f in
    subst (Rising true 0 13) (ground arith) (Rising-reported health.new_hard_risk_violation vs r)
