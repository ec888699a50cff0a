-- ===== src/Projection/Recovery.antt =====
-- crates/execution/src/projector.rs: `decide_recovery`.
use sinan.Prelude.{String, Option, none, some, List, [], ◌∷◌}
use sinan.Types.Plan.{
  ExecutionFailurePolicy, partial_fill, RollbackMode, close_filled, no_rollback,
  ExecutionPlanStatus, partial, RollbackPolicy, ExecutionPlan,
}

pub data RecoveryDecision : Type 0 where
  no_recovery : RecoveryDecision
  close_legs : (leg_ids : List String) → RecoveryDecision
  leave_partial : RecoveryDecision
  manual_review : RecoveryDecision

-- The `match` on the mode of the rollback policy.
unfoldable pub recover_by :
    Option RollbackMode → ExecutionFailurePolicy → List String → RecoveryDecision
recover_by (some close_filled) failure_policy (leg ∷ legs) = close_legs (leg ∷ legs)
recover_by (some close_filled) failure_policy [] = manual_review
recover_by (some no_rollback) failure_policy legs = leave_partial
recover_by none partial_fill legs = leave_partial
recover_by none _ legs = manual_review

abbrev pub mode_of : Option RollbackPolicy → Option RollbackMode
mode_of none = none
mode_of (some policy) = some policy.mode

unfoldable pub recover_in : ExecutionPlanStatus → ExecutionPlan → RecoveryDecision
recover_in partial plan =
    recover_by (mode_of plan.definition.rollback_policy) plan.definition.failure_policy
      plan.state.filled_legs
recover_in _ plan = no_recovery

unfoldable pub decide_recovery : ExecutionPlan → RecoveryDecision
decide_recovery plan = recover_in plan.state.status plan
