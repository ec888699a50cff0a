-- ===== src/Projection/Plan.antt =====
-- crates/execution/src/projector.rs: `project_plan`.
use sinan.Prelude.{
  String, List, [], ◌∷◌, Bool, not, ◌||◌, some, Result, ok, err, ◌>>=◌, ◌>>◌, reject_if, any,
  opt_str_eq, opt_str_ne, str_ne, length, ◌==◌, if◌then◌else◌,
}
use sinan.Types.Command.{ExecutionCommandState, ExecutionEvent}
use sinan.Types.Plan.{ExecutionLeg, ExecutionPlanDefinition, ExecutionPlan}
use sinan.Projection.PlanStatus.{derive_execution_plan_status}
use sinan.Projection.Leg.{ProjectionError, project_leg}
use sinan.Projection.Dependencies.{ExecutionPlanValidationError}
use sinan.Projection.Validation.{leg_ids, is_filled_leg, is_failed_leg, validate_plan}

-- `iter().filter(..)`.
abbrev pub filter : {A : Type 0} → (A → Bool) → List A → List A
filter p [] = []
filter p (x ∷ xs) = let rest = filter p xs in if p x then x ∷ rest else rest

-- The states and the events of a leg.
abbrev pub states_of : String → List ExecutionCommandState → List ExecutionCommandState
states_of leg_id states =
    filter (λ (s : ExecutionCommandState). opt_str_eq s.leg_id (some leg_id)) states

abbrev pub events_of : String → List ExecutionEvent → List ExecutionEvent
events_of leg_id events = filter (λ (e : ExecutionEvent). opt_str_eq e.leg_id (some leg_id)) events

-- The loop over the legs.
unfoldable pub project_legs :
    String
    → String
    → List ExecutionCommandState
    → List ExecutionEvent
    → List ExecutionLeg
    → Result ProjectionError (List ExecutionLeg)
project_legs plan_id account_id states events [] = ok []
project_legs plan_id account_id states events (leg ∷ legs) = do
  projected ←
      project_leg plan_id account_id leg (states_of leg.definition.leg_id states)
        (events_of leg.definition.leg_id events)
  rest ← project_legs plan_id account_id states events legs
  ok (projected ∷ rest)

-- Whether the event references a leg outside the plan.
unfoldable pub is_stray : List ExecutionLeg → ExecutionEvent → Bool
is_stray legs event =
    not (any (λ (leg : ExecutionLeg). opt_str_eq event.leg_id (some leg.definition.leg_id)) legs)

unfoldable pub is_foreign_state : ExecutionPlanDefinition → ExecutionCommandState → Bool
is_foreign_state definition s =
    str_ne s.account_id definition.account_id || opt_str_ne s.plan_id (some definition.plan_id)

-- The plan with its projected legs, summaries and status.
unfoldable pub projected_plan : ExecutionPlan → List ExecutionLeg → ExecutionPlan
projected_plan plan legs = record plan {
  legs = legs;
  state = record {
    status = derive_execution_plan_status legs;
    filled_legs = leg_ids is_filled_leg legs;
    failed_legs = leg_ids is_failed_leg legs;
  };
}

abbrev pub as_mismatch :
    Result ExecutionPlanValidationError (Unit {0}) → Result ProjectionError (Unit {0})
as_mismatch (ok u) = ok u
as_mismatch (err e) = err (ProjectionError.identity_mismatch "projected plan is invalid")

unfoldable pub project_plan :
    ExecutionPlan
    → List ExecutionCommandState
    → List ExecutionEvent
    → Result ProjectionError ExecutionPlan
project_plan plan states events = do
  reject_if (length plan.legs == 0) ProjectionError.empty_plan
  reject_if (not (length states == length plan.legs))
      ProjectionError.unsupported_command_cardinality
  reject_if (any (is_foreign_state plan.definition) states) (
      ProjectionError.identity_mismatch "command state account/plan identity differs from the plan")
  legs ← project_legs plan.definition.plan_id plan.definition.account_id states events plan.legs
  reject_if (any (is_stray legs) events)
      (ProjectionError.identity_mismatch "execution event references a leg outside the plan")
  as_mismatch (validate_plan (projected_plan plan legs))
  ok (projected_plan plan legs)
