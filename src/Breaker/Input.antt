-- ===== src/Breaker/Input.antt =====
-- crates/risk/src/circuit_breaker.rs: what the callers hand to the breaker.
use sinan.Prelude.{ℕ, ℤ, String, Bool, Option}

pub data CircuitBreakerAction : Type 0 where
  risk_increasing_trade_intent risk_increasing_command : CircuitBreakerAction
  risk_reducing_command read_state ingest_snapshot ingest_execution_event : CircuitBreakerAction
  reconciliation manual_review no_op_validation : CircuitBreakerAction

pub record ManualTrigger : Type 0 where
  pub operator_id : String
  pub reason : String

pub record CircuitBreakerInput : Type 0 where
  pub daily_realized_loss_bps : ℕ  -- u32
  pub equity_drawdown_bps : ℕ  -- u32
  pub consecutive_broker_rejections : ℕ  -- u32
  pub consecutive_command_failures : ℕ  -- u32
  pub manual_reconciliation_required_count : ℕ  -- u32
  pub store_recovery_reconciliation_pending : Bool
  pub time_sync_unhealthy_since_ms : Option ℤ
  pub consecutive_snapshot_stale_count : ℕ  -- u32
  pub consecutive_symbol_metadata_stale_count : ℕ  -- u32
  pub manual_trigger : Option ManualTrigger

pub record HalfOpenReadiness : Type 0 where
  pub recovery_epoch : ℕ  -- u64
  pub account_refreshed_at_ms : Option ℤ
  pub positions_refreshed_at_ms : Option ℤ
  pub orders_refreshed_at_ms : Option ℤ
  pub symbol_metadata_refreshed_at_ms : Option ℤ
  pub pending_commands_reconciled_at_ms : Option ℤ

pub record RecoveryHealth : Type 0 where
  pub clock_healthy : Bool
  pub state_store_healthy : Bool
  pub new_hard_risk_violation : Bool
  pub input : CircuitBreakerInput

pub record ManualResetEvidence : Type 0 where
  pub audit_event_id : String
  pub operator_id : String
  pub reason : String
  pub evidence : String

pub data ResetAuthorization : Type 0 where
  automatic : ResetAuthorization
  operator : ManualResetEvidence → ResetAuthorization

pub data TransitionRequest : Type 0 where
  observe : CircuitBreakerInput → TransitionRequest
  enter_half_open :
      (readiness : HalfOpenReadiness) (input : CircuitBreakerInput) → TransitionRequest
  close : (health : RecoveryHealth) (authorization : ResetAuthorization) → TransitionRequest
  record_blocked_intent_count : (observed_total : ℕ) → TransitionRequest
