-- ===== src/Types/Command.antt =====
-- crates/types/src/dto.rs, crates/protocol/src/payload.rs: a command, its durable state, the events
-- that report its execution, and the receipt of a terminal. An identifier is the string it wraps.
-- The error code of an event and the reason of a receipt are the texts that they are written as.
use sinan.Prelude.{ℕ, ℤ, String, Option, F64}
use sinan.Types.Enums.{
  ExecutionAction, OrderType, FillingPolicy, TimePolicy, ExecutionCommandStatus,
  ExecutionEventStatus, CommandInboxStatus,
}

pub record ExecutionCommand : Type 0 where
  pub command_id : String
  pub plan_id : Option String
  pub leg_id : Option String
  pub strategy_id : String
  pub account_id : String
  pub terminal_id : Option String
  pub client_id : Option String
  pub symbol : String
  pub broker_symbol : Option String
  pub action : ExecutionAction
  pub order_type : Option OrderType
  pub lots : Option F64
  pub price : Option F64
  pub sl : Option F64
  pub tp : Option F64
  pub deviation_points : Option ℤ
  pub magic : ℤ
  pub comment : Option String
  pub position_ticket : Option String
  pub broker_order_id : Option String
  pub filling_policy : Option FillingPolicy
  pub time_policy : Option TimePolicy
  pub expiration_time : Option ℤ
  pub expires_at : ℤ
  pub idempotency_key : String
  pub hmac : String

pub record ExecutionCommandState : Type 0 where
  pub command_id : String
  pub account_id : String
  pub plan_id : Option String
  pub leg_id : Option String
  pub status : ExecutionCommandStatus
  pub delivery_attempts : ℕ  -- u32
  pub last_delivery_error : Option String
  pub created_at : ℤ
  pub dispatched_at : Option ℤ
  pub command_received_at : Option ℤ
  pub reconciling_at : Option ℤ
  pub completed_at : Option ℤ
  pub updated_at : ℤ

pub record ExecutionEvent : Type 0 where
  pub execution_id : String
  pub command_id : String
  pub plan_id : Option String
  pub leg_id : Option String
  pub account_id : String
  pub terminal_id : Option String
  pub client_id : Option String
  pub symbol : String
  pub broker_symbol : Option String
  pub status : ExecutionEventStatus
  pub broker_order_id : Option String
  pub broker_deal_id : Option String
  pub position_ticket : Option String
  pub idempotency_key : Option String
  pub requested_lots : Option F64
  pub fill_price : Option F64
  pub filled_lots : Option F64
  pub remaining_lots : Option F64
  pub event_at : ℤ
  pub filled_at : Option ℤ
  pub broker_filled_at : Option ℤ
  pub error_code : Option String
  pub message : Option String

pub record CommandReceived : Type 0 where
  pub command_id : String
  pub idempotency_key : String
  pub account_id : String
  pub terminal_id : Option String
  pub client_id : Option String
  pub received_at : ℤ
  pub inbox_status : CommandInboxStatus
  pub reason : Option String
