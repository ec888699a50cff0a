-- ===== src/Breaker/State.antt =====
-- crates/risk/src/circuit_breaker.rs: the state of the breaker, its action matrix, and the
-- time of its latest transition.
use sinan.Prelude.{
  ℕ, ℤ, String, List, [], ◌∷◌, Bool, true, false, Option, none, some, if◌then◌else◌, max_ℤ,
}
use sinan.Breaker.Types.{
  CircuitBreakerStatus, closed, opened, half_open, CircuitBreakerReason,
  CircuitBreakerTriggerSource,
}
use sinan.Breaker.Incident.{CircuitBreakerIncidentFingerprint}
use sinan.Breaker.Input.{CircuitBreakerAction}

pub record CircuitBreakerState : Type 0 where
  pub recovery_epoch : ℕ  -- u64
  pub status : CircuitBreakerStatus
  pub reason : CircuitBreakerReason
  pub triggered_at_ms : Option ℤ
  pub triggered_by : Option CircuitBreakerTriggerSource
  pub last_incident_fingerprint : Option CircuitBreakerIncidentFingerprint
  pub incident_evidence_cleared_at_ms : Option ℤ
  pub half_opened_at_ms : Option ℤ
  pub half_open_daily_loss_baseline_bps : Option ℕ
  pub half_open_drawdown_baseline_bps : Option ℕ
  pub reset_at_ms : Option ℤ
  pub reset_by : Option String
  pub blocked_intent_count : ℕ  -- u64

-- `CircuitBreakerState::default`, which `new` calls.
unfoldable pub default_state : CircuitBreakerState
default_state = record {
  recovery_epoch = 0;
  status = closed;
  reason = CircuitBreakerReason.okay;
  triggered_at_ms = none;
  triggered_by = none;
  last_incident_fingerprint = none;
  incident_evidence_cleared_at_ms = none;
  half_opened_at_ms = none;
  half_open_daily_loss_baseline_bps = none;
  half_open_drawdown_baseline_bps = none;
  reset_at_ms = none;
  reset_by = none;
  blocked_intent_count = 0;
}

-- `CircuitBreakerStatus::is_active`.
unfoldable pub is_active : CircuitBreakerStatus → Bool
is_active closed = false
is_active opened = true
is_active half_open = true

pub record CircuitBreakerGateDecision : Type 0 where
  pub allowed : Bool
  pub status : CircuitBreakerStatus
  pub blocked_reason : Option CircuitBreakerReason

unfoldable pub is_risk_increasing : CircuitBreakerAction → Bool
is_risk_increasing CircuitBreakerAction.risk_increasing_trade_intent = true
is_risk_increasing CircuitBreakerAction.risk_increasing_command = true
is_risk_increasing _ = false

unfoldable pub action_allowed : CircuitBreakerStatus → CircuitBreakerAction → Bool
action_allowed closed action = true
action_allowed opened action = if is_risk_increasing action then false else true
action_allowed half_open action = if is_risk_increasing action then false else true

-- `CircuitBreakerState::authorize`.
unfoldable pub authorize : CircuitBreakerState → CircuitBreakerAction → CircuitBreakerGateDecision
authorize s action =
    let allowed = action_allowed s.status action in
    record {
      allowed = allowed;
      status = s.status;
      blocked_reason = if allowed then none else some s.reason;
    }

abbrev pub later_of : ℤ → Option ℤ → ℤ
later_of t none = t
later_of t (some u) = max_ℤ t u

-- `.into_iter().flatten().max()` over optional times.
unfoldable pub latest_of : List (Option ℤ) → Option ℤ
latest_of [] = none
latest_of (none ∷ rest) = latest_of rest
latest_of (some t ∷ rest) = some (later_of t (latest_of rest))

unfoldable pub latest_transition_at_ms : CircuitBreakerState → Option ℤ
latest_transition_at_ms s = latest_of (
    s.triggered_at_ms ∷ s.incident_evidence_cleared_at_ms ∷ s.half_opened_at_ms ∷ s.reset_at_ms
    ∷ [])
