-- ===== src/Projection/Validation.antt =====
-- crates/types/src/dto.rs: `ExecutionLeg::validate` and `ExecutionPlan::validate`.
use sinan.Prelude.{
  String, List, [], ◌∷◌, ◌++◌, Bool, true, false, not, ◌||◌, ◌&&◌, Option, none, some, Result, ok,
  ◌>>=◌, ◌>>◌, reject_if, any, is_blank, is_some, str_ne, F64, is_finite, not_above_zero, length,
  ◌==◌, if◌then◌else◌,
}
use Prim.Native.String.{◌++◌ as text_append}
use sinan.Types.Enums.{ExecutionAction, buy, sell}
use sinan.Types.Plan.{
  ExecutionPlanMode, simultaneous, ExecutionPlanStatus, ExecutionLegStatus, rejected, failed,
  ExecutionLeg, ExecutionPlan,
}
use sinan.Projection.PlanStatus.{is_filled, is_partially_filled, derive_execution_plan_status}
use sinan.Projection.Dependencies.{
  ExecutionPlanValidationError, invalid, Validated, has_id, validate_execution_dependencies,
}

unfoldable pub validate_execution_non_empty : String → String → Validated
validate_execution_non_empty field value =
    reject_if (is_blank value) (invalid field "must not be empty")

unfoldable pub validate_execution_positive : String → F64 → Validated
validate_execution_positive field value =
    reject_if (not (is_finite value && not (not_above_zero value)))
      (invalid field "must be positive and finite")

unfoldable pub validate_optional : String → Option F64 → Validated
validate_optional field none = ok tt
validate_optional field (some value) = validate_execution_positive field value

unfoldable pub is_entry : ExecutionAction → Bool
is_entry buy = true
is_entry sell = true
is_entry _ = false

-- `ExecutionLeg::validate`.
unfoldable pub validate_leg : ExecutionLeg → Validated
validate_leg leg = do
  validate_execution_non_empty "legs[].leg_id" leg.definition.leg_id
  validate_execution_non_empty "legs[].symbol" leg.definition.symbol
  validate_execution_positive "legs[].ratio" leg.definition.ratio
  validate_optional "legs[].lots" leg.definition.lots
  validate_optional "legs[].sl" leg.definition.sl
  validate_optional "legs[].tp" leg.definition.tp
  reject_if (is_entry leg.definition.action && not (is_some leg.definition.lots))
      (invalid "legs[].lots" "is required for BUY/SELL")

-- The loop over the legs: the ids, in the set `ids`.
unfoldable pub validate_legs :
    List ExecutionLeg → List String → Result ExecutionPlanValidationError (List String)
validate_legs [] ids = ok ids
validate_legs (leg ∷ legs) ids = do
  validate_leg leg
  reject_if (has_id leg.definition.leg_id ids)
      (invalid "legs[].leg_id" (text_append "must be unique; duplicate " leg.definition.leg_id))
  validate_legs legs (ids ++ (leg.definition.leg_id ∷ []))

unfoldable pub is_simultaneous : ExecutionPlanMode → Bool
is_simultaneous simultaneous = true
is_simultaneous _ = false

unfoldable pub depends : ExecutionLeg → Bool
depends leg = not (length leg.definition.dependency == 0)

unfoldable pub is_filled_leg : ExecutionLegStatus → Bool
is_filled_leg status = is_partially_filled status || is_filled status

unfoldable pub is_failed_leg : ExecutionLegStatus → Bool
is_failed_leg rejected = true
is_failed_leg failed = true
is_failed_leg _ = false

-- The ids of the legs whose status is as expected, in the order of the plan.
unfoldable pub leg_ids : (ExecutionLegStatus → Bool) → List ExecutionLeg → List String
leg_ids expected [] = []
leg_ids expected (leg ∷ legs) =
    let rest = leg_ids expected legs in
    if expected leg.state.status then leg.definition.leg_id ∷ rest else rest

abbrev pub any_different : List String → List String → Bool
any_different [] derived = false
any_different (id ∷ ids) [] = false
any_different (id ∷ ids) (d ∷ derived) = str_ne id d || any_different ids derived

unfoldable pub validate_execution_summary :
    String → List String → List ExecutionLeg → (ExecutionLegStatus → Bool) → Validated
validate_execution_summary field summary legs expected =
    reject_if
      (not (length summary == length (leg_ids expected legs))
        || any_different summary (leg_ids expected legs))
      (invalid field "must exactly match projected legs in plan order")

unfoldable pub plan_status_eq : ExecutionPlanStatus → ExecutionPlanStatus → Bool
plan_status_eq ExecutionPlanStatus.pending ExecutionPlanStatus.pending = true
plan_status_eq ExecutionPlanStatus.reconciling ExecutionPlanStatus.reconciling = true
plan_status_eq ExecutionPlanStatus.manual_reconciliation_required
      ExecutionPlanStatus.manual_reconciliation_required =
    true
plan_status_eq ExecutionPlanStatus.partial ExecutionPlanStatus.partial = true
plan_status_eq ExecutionPlanStatus.completed ExecutionPlanStatus.completed = true
plan_status_eq ExecutionPlanStatus.failed ExecutionPlanStatus.failed = true
plan_status_eq ExecutionPlanStatus.expired ExecutionPlanStatus.expired = true
plan_status_eq ExecutionPlanStatus.cancelled ExecutionPlanStatus.cancelled = true
plan_status_eq _ _ = false

-- `ExecutionPlanStatus::as_str`.
unfoldable pub plan_status_text : ExecutionPlanStatus → String
plan_status_text ExecutionPlanStatus.pending = "PENDING"
plan_status_text ExecutionPlanStatus.reconciling = "RECONCILING"
plan_status_text ExecutionPlanStatus.manual_reconciliation_required =
    "MANUAL_RECONCILIATION_REQUIRED"
plan_status_text ExecutionPlanStatus.partial = "PARTIAL"
plan_status_text ExecutionPlanStatus.completed = "COMPLETED"
plan_status_text ExecutionPlanStatus.failed = "FAILED"
plan_status_text ExecutionPlanStatus.expired = "EXPIRED"
plan_status_text ExecutionPlanStatus.cancelled = "CANCELLED"

-- `ExecutionPlan::validate`.
unfoldable pub validate_plan : ExecutionPlan → Validated
validate_plan plan = do
  validate_execution_non_empty "plan_id" plan.definition.plan_id
  validate_execution_non_empty "account_id" plan.definition.account_id
  validate_execution_non_empty "strategy_id" plan.definition.strategy_id
  reject_if (length plan.legs == 0) (invalid "legs" "must not be empty")
  ids ← validate_legs plan.legs []
  reject_if (is_simultaneous plan.definition.mode && any depends plan.legs)
      (invalid "legs[].dependency" "must be empty for simultaneous plans")
  validate_execution_dependencies plan.legs ids
  validate_execution_summary "filled_legs" plan.state.filled_legs plan.legs is_filled_leg
  validate_execution_summary "failed_legs" plan.state.failed_legs plan.legs is_failed_leg
  reject_if (not (plan_status_eq plan.state.status (derive_execution_plan_status plan.legs))) (
      invalid "status" (
        text_append "must be " (
          text_append (plan_status_text (derive_execution_plan_status plan.legs))
            " for the current leg projections")))
