-- ===== src/Breaker/Ranks.antt =====
-- crates/risk/src/circuit_breaker.rs: the order in which violations are reported. Each kind has a
-- rank, every list that the breaker collects rises strictly, and its texts are not blank.
use sinan.Prelude.{
  ℕ, suc, ◌≤◌, ◌<◌, List, [], ◌∷◌, ◌++◌, Bool, true, false, ◌&&◌, not, none, ◌≡◌, refl, ◌⊎◌, inl,
  inr, arith, keep_if, Bool-cases,
}
use sinan.Breaker.Incident.{CircuitBreakerViolation, CircuitBreakerIncidentEvidence}
use sinan.Breaker.Evidence.{violation_evidence, incident_evidence_has_blank_text}
use sinan.Breaker.Detect.{when, find_or, is_daily_loss, is_drawdown, is_blocking}

unfoldable pub evidence_rank : CircuitBreakerIncidentEvidence → ℕ
evidence_rank (CircuitBreakerIncidentEvidence.daily_realized_loss_worsened _ _) = 0
evidence_rank (CircuitBreakerIncidentEvidence.daily_realized_loss _ _) = 1
evidence_rank (CircuitBreakerIncidentEvidence.equity_drawdown_worsened _ _) = 2
evidence_rank (CircuitBreakerIncidentEvidence.equity_drawdown _ _) = 3
evidence_rank (CircuitBreakerIncidentEvidence.broker_rejections _ _) = 4
evidence_rank (CircuitBreakerIncidentEvidence.command_failures _ _) = 5
evidence_rank (CircuitBreakerIncidentEvidence.manual_reconciliation _) = 6
evidence_rank CircuitBreakerIncidentEvidence.store_recovery_pending = 7
evidence_rank (CircuitBreakerIncidentEvidence.time_sync _ _) = 8
evidence_rank (CircuitBreakerIncidentEvidence.stale_snapshot _ _) = 9
evidence_rank (CircuitBreakerIncidentEvidence.stale_symbol_metadata _ _) = 10
evidence_rank (CircuitBreakerIncidentEvidence.triggered_manually _ _) = 11
evidence_rank CircuitBreakerIncidentEvidence.hard_risk_during_recovery = 12
evidence_rank CircuitBreakerIncidentEvidence.safety_violation = 13
evidence_rank (CircuitBreakerIncidentEvidence.safety_error _) = 14

abbrev pub rank : CircuitBreakerViolation → ℕ
rank v = evidence_rank (violation_evidence none v)

abbrev pub has_blank : CircuitBreakerViolation → Bool
has_blank v = incident_evidence_has_blank_text (violation_evidence none v)

unfoldable pub is_worsened : CircuitBreakerViolation → Bool
is_worsened (CircuitBreakerViolation.daily_realized_loss_worsened _ _) = true
is_worsened (CircuitBreakerViolation.equity_drawdown_worsened _ _) = true
is_worsened _ = false

-- The ranks rise strictly from `lo` to below `hi`; `worsened` tells whether a worsened baseline may
-- stand in the list.
abbrev pub Rising : Bool → ℕ → ℕ → List CircuitBreakerViolation → Type 0
Rising worsened lo hi [] = lo ≤ hi
Rising worsened lo hi (v ∷ vs) =
    (lo ≤ rank v)
    × (has_blank v ≡ false)
    × ((is_worsened v && not worsened) ≡ false)
    × Rising worsened (suc (rank v)) hi vs

pub Rising-lower :
    (w : Bool) (lo lo' hi : ℕ) (vs : List CircuitBreakerViolation)
    → lo' ≤ lo
    → Rising w lo hi vs
    → Rising w lo' hi vs
Rising-lower w lo lo' hi [] h r = omega arith
Rising-lower w lo lo' hi (v ∷ vs) h r = (omega arith, r.1, r.2, r.3)

pub Rising-upper :
    (w : Bool) (lo hi hi' : ℕ) (vs : List CircuitBreakerViolation)
    → hi ≤ hi'
    → Rising w lo hi vs
    → Rising w lo hi' vs
Rising-upper w lo hi hi' [] h r = omega arith
Rising-upper w lo hi hi' (v ∷ vs) h r =
    (r.0, r.1, r.2, Rising-upper w (suc (rank v)) hi hi' vs h r.3)

pub Rising-append :
    (w : Bool) (a b c : ℕ) (xs ys : List CircuitBreakerViolation)
    → Rising w a b xs
    → Rising w b c ys
    → Rising w a c (xs ++ ys)
Rising-append w a b c [] ys h k = Rising-lower w b a c ys h k
Rising-append w a b c (x ∷ xs) ys h k =
    (h.0, h.1, h.2, Rising-append w (suc (rank x)) b c xs ys h.3 k)

pub Rising-when :
    (w b : Bool) (lo hi : ℕ) (v : CircuitBreakerViolation)
    → lo ≤ rank v
    → rank v < hi
    → has_blank v ≡ false
    → (is_worsened v && not w) ≡ false
    → Rising w lo hi (when b v)
Rising-when w true lo hi v h k q u = (h, q, u, k)
Rising-when w false lo hi v h k q u = omega arith

pub Rising-worsened :
    (lo hi : ℕ) (vs : List CircuitBreakerViolation) → Rising false lo hi vs → Rising true lo hi vs
Rising-worsened lo hi [] r = r
Rising-worsened lo hi (v ∷ vs) r =
    (r.0, r.1, ground arith, Rising-worsened (suc (rank v)) hi vs r.3)

-- What blocks the recovery and is no worsened baseline ranks from 4 on.
blocking_rank :
    (v : CircuitBreakerViolation) → is_blocking v ≡ true → is_worsened v ≡ false → 4 ≤ rank v
unfolding is_blocking is_daily_loss is_drawdown is_worsened evidence_rank violation_evidence
blocking_rank v h k = ground arith

pub Rising-keep_if :
    (lo m hi : ℕ) (vs : List CircuitBreakerViolation)
    → 4 ≤ hi
    → (m ≤ lo) ⊎ (m ≤ 4)
    → Rising false lo hi vs
    → Rising false m hi (keep_if is_blocking vs)
Rising-keep_if lo m hi [] h c r = ground arith
Rising-keep_if lo m hi (v ∷ vs) h c r = elim (Bool-cases (is_blocking v)) [
  | inl kept ↦
      let high : 4 ≤ rank v = blocking_rank v kept (ground (arith, r.2)) in
      rw kept (
        (ground arith),
        r.1,
        r.2,
        Rising-keep_if (suc (rank v)) (suc (rank v)) hi vs h (inl (omega arith)) r.3,
      )
  | inr dropped ↦ rw dropped (Rising-keep_if (suc (rank v)) m hi vs h (ground (arith, r.0, c)) r.3)
]

-- `find` answers with the fallback, or with a violation that passes the test.
find_or-cases :
    (test : CircuitBreakerViolation → Bool) (fallback : CircuitBreakerViolation)
    (vs : List CircuitBreakerViolation)
    → (find_or test fallback vs ≡ fallback) ⊎ (test (find_or test fallback vs) ≡ true)
unfolding find_or
find_or-cases test fallback [] = inl refl
find_or-cases test fallback (v ∷ vs) = elim (Bool-cases (test v)) [
  | inl hit ↦ rw hit (inr hit)
  | inr miss ↦ rw miss (find_or-cases test fallback vs)
]

daily_facts :
    (v : CircuitBreakerViolation)
    → is_daily_loss v ≡ true
    → (rank v ≡ 1) × (has_blank v ≡ false) × (is_worsened v ≡ false)
unfolding is_daily_loss evidence_rank violation_evidence is_worsened
    incident_evidence_has_blank_text
daily_facts v h = ground arith

drawdown_facts :
    (v : CircuitBreakerViolation)
    → is_drawdown v ≡ true
    → (rank v ≡ 3) × (has_blank v ≡ false) × (is_worsened v ≡ false)
unfolding is_drawdown evidence_rank violation_evidence is_worsened incident_evidence_has_blank_text
drawdown_facts v h = ground arith

Rising-found :
    (b : Bool) (lo hi : ℕ) (test : CircuitBreakerViolation → Bool)
    (fallback : CircuitBreakerViolation) (vs : List CircuitBreakerViolation)
    → (lo ≤ rank fallback) × (rank fallback < hi) × (has_blank fallback ≡ false)
    → ((v : CircuitBreakerViolation)
        → test v ≡ true
        → (lo ≤ rank v) × (rank v < hi) × (has_blank v ≡ false))
    → Rising true lo hi (when b (find_or test fallback vs))
Rising-found b lo hi test fallback vs f t = elim (find_or-cases test fallback vs) [
  | inl e ↦ rw e (Rising-when true b lo hi fallback f.0 f.1 f.2 (ground arith))
  | inr hit ↦
      let k = t (find_or test fallback vs) hit in
      Rising-when true b lo hi (find_or test fallback vs) k.0 k.1 k.2 (ground arith)
]

-- The entries of the half-open filter for the two baselines.
pub Rising-daily :
    (b : Bool) (base seen : ℕ) (vs : List CircuitBreakerViolation)
    → Rising true 0 2 (
        when b (
          find_or is_daily_loss
            (CircuitBreakerViolation.daily_realized_loss_worsened base seen)
            vs))
unfolding evidence_rank violation_evidence incident_evidence_has_blank_text
Rising-daily b base seen vs =
    Rising-found b 0 2 is_daily_loss
      (CircuitBreakerViolation.daily_realized_loss_worsened base seen) vs (ground arith)
      λ v h. let f = daily_facts v h in ground arith

pub Rising-drawdown :
    (b : Bool) (base seen : ℕ) (vs : List CircuitBreakerViolation)
    → Rising true 2 4 (
        when b
          (find_or is_drawdown (CircuitBreakerViolation.equity_drawdown_worsened base seen) vs))
unfolding evidence_rank violation_evidence incident_evidence_has_blank_text
Rising-drawdown b base seen vs =
    Rising-found b 2 4 is_drawdown (CircuitBreakerViolation.equity_drawdown_worsened base seen) vs
      (ground arith) λ v h. let f = drawdown_facts v h in ground arith
