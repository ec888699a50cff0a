-- ===== src/Types/Enums.antt =====
-- crates/types/src/enums.rs: the enumerations that a command and its events carry.
pub data ExecutionAction : Type 0 where
  buy sell close modify cancel : ExecutionAction

pub data OrderType : Type 0 where
  market limit stop stop_limit : OrderType

pub data FillingPolicy : Type 0 where
  fok ioc return_remainder : FillingPolicy

pub data TimePolicy : Type 0 where
  gtc day specified : TimePolicy

pub data ExecutionCommandStatus : Type 0 where
  created dispatched delivery_unconfirmed delivery_failed reconciling : ExecutionCommandStatus
  manual_reconciliation_required command_received accepted rejected : ExecutionCommandStatus
  order_sent partially_filled filled failed expired cancelled : ExecutionCommandStatus

unfoldable pub ExecutionCommandStatus-discrete : Discrete ExecutionCommandStatus
ExecutionCommandStatus-discrete = hlevel

pub data ExecutionEventStatus : Type 0 where
  accepted order_sent rejected filled partially_filled failed expired : ExecutionEventStatus
  cancelled : ExecutionEventStatus

-- crates/protocol/src/payload.rs.
pub data CommandInboxStatus : Type 0 where
  recorded duplicate expired rejected : CommandInboxStatus

unfoldable pub CommandInboxStatus-discrete : Discrete CommandInboxStatus
CommandInboxStatus-discrete = hlevel
