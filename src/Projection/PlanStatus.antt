-- ===== src/Projection/PlanStatus.antt =====
-- crates/types/src/dto.rs: `derive_execution_plan_status`.
use sinan.Prelude.{Bool, true, false, not, ◌&&◌, ◌||◌, List, [], ◌∷◌, if◌then◌else◌}
use sinan.Types.Plan.{
  ExecutionPlanStatus, ExecutionLegStatus, delivery_unconfirmed, reconciling,
  manual_reconciliation_required, rejected, partially_filled, filled, failed, expired, cancelled,
  ExecutionLeg,
}

abbrev pub all_legs : (ExecutionLegStatus → Bool) → List ExecutionLeg → Bool
all_legs p [] = true
all_legs p (leg ∷ legs) = p leg.state.status && all_legs p legs

abbrev pub any_leg : (ExecutionLegStatus → Bool) → List ExecutionLeg → Bool
any_leg p [] = false
any_leg p (leg ∷ legs) = p leg.state.status || any_leg p legs

-- The comparisons with one status.
unfoldable pub is_filled : ExecutionLegStatus → Bool
is_filled filled = true
is_filled _ = false

unfoldable pub is_partially_filled : ExecutionLegStatus → Bool
is_partially_filled partially_filled = true
is_partially_filled _ = false

unfoldable pub is_cancelled : ExecutionLegStatus → Bool
is_cancelled cancelled = true
is_cancelled _ = false

unfoldable pub is_expired : ExecutionLegStatus → Bool
is_expired expired = true
is_expired _ = false

unfoldable pub is_manual : ExecutionLegStatus → Bool
is_manual manual_reconciliation_required = true
is_manual _ = false

unfoldable pub is_unresolved : ExecutionLegStatus → Bool
is_unresolved delivery_unconfirmed = true
is_unresolved reconciling = true
is_unresolved _ = false

-- `leg_status_is_terminal`, and the same `matches!` of the projection.
unfoldable pub leg_status_is_terminal : ExecutionLegStatus → Bool
leg_status_is_terminal rejected = true
leg_status_is_terminal filled = true
leg_status_is_terminal failed = true
leg_status_is_terminal expired = true
leg_status_is_terminal cancelled = true
leg_status_is_terminal _ = false

unfoldable pub derive_execution_plan_status : List ExecutionLeg → ExecutionPlanStatus
derive_execution_plan_status [] = ExecutionPlanStatus.pending
derive_execution_plan_status (leg ∷ rest) =
    let legs = leg ∷ rest in
    if all_legs is_filled legs
    then ExecutionPlanStatus.completed
    else if all_legs is_cancelled legs
    then ExecutionPlanStatus.cancelled
    else if all_legs is_expired legs
    then ExecutionPlanStatus.expired
    else if any_leg is_manual legs
    then ExecutionPlanStatus.manual_reconciliation_required
    else if any_leg is_partially_filled legs
        || (any_leg is_filled legs && not (all_legs is_filled legs))
    then ExecutionPlanStatus.partial
    else if all_legs leg_status_is_terminal legs
    then ExecutionPlanStatus.failed
    else if any_leg is_unresolved legs
    then ExecutionPlanStatus.reconciling
    else ExecutionPlanStatus.pending
