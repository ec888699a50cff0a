-- ===== src/Types/Plan.antt =====
-- crates/types/src/enums.rs, crates/types/src/dto.rs: an execution plan, its legs and their states. An
-- identifier is the string it wraps.
use sinan.Prelude.{ℕ, String, Option, List, F64}
use sinan.Types.Enums.{ExecutionAction}

pub data ExecutionPlanMode : Type 0 where
  sequential simultaneous best_effort_atomic : ExecutionPlanMode

pub data ExecutionFailurePolicy : Type 0 where
  cancel_all partial_fill retry : ExecutionFailurePolicy

pub data RollbackMode : Type 0 where
  close_filled no_rollback : RollbackMode

pub data ExecutionPlanStatus : Type 0 where
  pending reconciling manual_reconciliation_required partial completed failed expired cancelled :
      ExecutionPlanStatus

pub data ExecutionLegStatus : Type 0 where
  pending sent delivery_unconfirmed reconciling manual_reconciliation_required : ExecutionLegStatus
  command_received accepted rejected order_sent partially_filled filled failed : ExecutionLegStatus
  expired cancelled : ExecutionLegStatus

pub record RollbackPolicy : Type 0 where
  pub mode : RollbackMode
  pub max_retry_attempts : Option ℕ  -- u32

pub record ExecutionLegDefinition : Type 0 where
  pub leg_id : String
  pub symbol : String
  pub action : ExecutionAction
  pub lots : Option F64
  pub sl : Option F64
  pub tp : Option F64
  pub ratio : F64
  pub dependency : List String

pub record ExecutionLegState : Type 0 where
  pub status : ExecutionLegStatus

pub record ExecutionLeg : Type 0 where
  pub definition : ExecutionLegDefinition
  pub state : ExecutionLegState

pub record ExecutionPlanDefinition : Type 0 where
  pub plan_id : String
  pub account_id : String
  pub strategy_id : String
  pub mode : ExecutionPlanMode
  pub failure_policy : ExecutionFailurePolicy
  pub rollback_policy : Option RollbackPolicy

pub record ExecutionPlanState : Type 0 where
  pub status : ExecutionPlanStatus
  pub filled_legs : List String
  pub failed_legs : List String

pub record ExecutionPlan : Type 0 where
  pub definition : ExecutionPlanDefinition
  pub legs : List ExecutionLeg
  pub state : ExecutionPlanState
