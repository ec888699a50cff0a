-- ===== src/Projection/Tests.antt =====
-- crates/execution/src/projector.rs: a leg whose fill overtakes its command's status.
use sinan.Prelude.{
  pos, true, false, none, some, List, [], ◌∷◌, ◌≡◌, refl, ok, err, is_blank, is_whitespace,
  neg_part, pos_part, is_finite, exponent_bits, below_zero, not_above_zero, is_zero, sign_bit,
  is_nan, if◌then◌else◌,
}
use sinan.Types.Enums.{ExecutionAction, ExecutionCommandStatus, ExecutionEventStatus}
use sinan.Types.Command.{ExecutionCommandState, ExecutionEvent}
use sinan.Types.Plan.{
  ExecutionPlanMode, ExecutionFailurePolicy, ExecutionPlanStatus, close_filled, ExecutionLegStatus,
  ExecutionLeg, ExecutionPlan,
}
use sinan.Lifecycle.Evidence.{is_fill}
use sinan.Projection.PlanStatus.{
  all_legs, any_leg, leg_status_is_terminal, derive_execution_plan_status, is_filled, is_cancelled,
  is_expired, is_manual, is_partially_filled,
}
use sinan.Projection.Dependencies.{
  unfinished, add_legs, add_dependencies, no_degrees, free_ids, search, search_graph, check_visited,
  release_targets, targets_of, validate_execution_dependencies,
}
use sinan.Projection.Acyclic.{validate_execution_dependencies-Fails}
use sinan.Projection.Validation.{
  validate_execution_non_empty, validate_execution_positive, validate_optional, is_entry,
  validate_leg, validate_legs, is_simultaneous, depends, is_filled_leg, is_failed_leg, leg_ids,
  validate_execution_summary, plan_status_eq, validate_plan,
}
use sinan.Projection.Plan.{project_legs, is_stray, is_foreign_state, projected_plan, project_plan}
use sinan.Projection.Again.{project_plan-again}
use sinan.Projection.Leg.{
  no_fills, is_partial_event, is_full_event, is_foreign, lacks_exposure, project_event,
  project_events, lifecycle_status, leg_status, project_leg,
}
use sinan.Projection.Exposure.{
  is_exposed, admits_exposure, shows_exposure, is_final, derive-exposure, derive-final,
}
use sinan.Projection.Fills.{any_full, any_partial, repeats, project_leg-status}

abbrev buy_leg : ExecutionLeg
buy_leg = record {
  definition = record {
    leg_id = "leg_1";
    symbol = "EURUSD";
    action = ExecutionAction.buy;
    lots = some 4607182418800017408;
    sl = none;
    tp = none;
    ratio = 4607182418800017408;
    dependency = [];
  };
  state = record { status = ExecutionLegStatus.pending };
}

abbrev filled_leg : ExecutionLeg
filled_leg = record buy_leg { state = record { status = ExecutionLegStatus.filled } }

abbrev failed_leg : ExecutionLeg
failed_leg = record buy_leg { state = record { status = ExecutionLegStatus.failed } }

abbrev command_state : ExecutionCommandState
command_state = record {
  command_id = "cmd_1";
  account_id = "acc_1";
  plan_id = some "plan_1";
  leg_id = some "leg_1";
  status = ExecutionCommandStatus.reconciling;
  delivery_attempts = 1;
  last_delivery_error = none;
  created_at = pos 100;
  dispatched_at = some (pos 200);
  command_received_at = none;
  reconciling_at = some (pos 300);
  completed_at = none;
  updated_at = pos 300;
}

abbrev fill_event : ExecutionEvent
fill_event = record {
  execution_id = "exec_1";
  command_id = "cmd_1";
  plan_id = some "plan_1";
  leg_id = some "leg_1";
  account_id = "acc_1";
  terminal_id = none;
  client_id = none;
  symbol = "EURUSD";
  broker_symbol = none;
  status = ExecutionEventStatus.filled;
  broker_order_id = none;
  broker_deal_id = none;
  position_ticket = none;
  idempotency_key = none;
  requested_lots = none;
  fill_price = none;
  filled_lots = some 4607182418800017408;
  remaining_lots = none;
  event_at = pos 250;
  filled_at = some (pos 240);
  broker_filled_at = none;
  error_code = none;
  message = none;
}

filled_projection :
    project_leg "plan_1" "acc_1" buy_leg (command_state ∷ []) (fill_event ∷ []) ≡ ok filled_leg
unfolding project_leg project_events project_event is_foreign is_fill lacks_exposure no_fills
    is_blank is_whitespace neg_part pos_part is_finite exponent_bits below_zero not_above_zero
    is_zero sign_bit is_nan is_partial_event is_full_event lifecycle_status leg_status
filled_projection = refl

project_leg-status_example :
    (command : ExecutionCommandState) × (lifecycle : ExecutionLegStatus) × (command_state ∷ []
      ≡ command ∷ [])
    × (lifecycle_status command.status ≡ ok lifecycle)
    × (repeats [] (fill_event ∷ []) ≡ false)
    × (filled_leg.definition ≡ buy_leg.definition)
    × (ExecutionLegStatus.filled ≡ (
        if any_full (fill_event ∷ [])
        then ExecutionLegStatus.filled
        else if any_partial (fill_event ∷ [])
        then ExecutionLegStatus.partially_filled
        else lifecycle))
project_leg-status_example =
    project_leg-status "plan_1" "acc_1" buy_leg filled_leg (command_state ∷ []) (fill_event ∷ [])
      filled_projection

abbrev mixed_legs : List ExecutionLeg
mixed_legs = filled_leg ∷ failed_leg ∷ []

derive-exposure_example :
    (any_leg is_exposed mixed_legs ≡ true
      → admits_exposure (derive_execution_plan_status mixed_legs) ≡ true)
    × (shows_exposure (derive_execution_plan_status mixed_legs) ≡ true
        → any_leg is_exposed mixed_legs ≡ true)
derive-exposure_example = derive-exposure mixed_legs

abbrev failed_legs : List ExecutionLeg
failed_legs = failed_leg ∷ failed_leg ∷ []

failed_plan : is_final (derive_execution_plan_status failed_legs) ≡ true
unfolding derive_execution_plan_status is_final is_filled is_cancelled is_expired is_manual
    is_partially_filled leg_status_is_terminal
failed_plan = refl

derive-final_example : (all_legs leg_status_is_terminal failed_legs ≡ true) × ¬ (failed_legs ≡ [])
derive-final_example = derive-final failed_legs failed_plan

abbrev buy_plan : ExecutionPlan
buy_plan = record {
  definition = record {
    plan_id = "plan_1";
    account_id = "acc_1";
    strategy_id = "trend";
    mode = ExecutionPlanMode.simultaneous;
    failure_policy = ExecutionFailurePolicy.cancel_all;
    rollback_policy = some (record { mode = close_filled; max_retry_attempts = none });
  };
  legs = buy_leg ∷ [];
  state = record { status = ExecutionPlanStatus.pending; filled_legs = []; failed_legs = [] };
}

abbrev bought_plan : ExecutionPlan
bought_plan = record buy_plan {
  legs = filled_leg ∷ [];
  state = record {
    status = ExecutionPlanStatus.completed;
    filled_legs = "leg_1" ∷ [];
    failed_legs = [];
  };
}

abbrev chained_legs : List ExecutionLeg
chained_legs =
    buy_leg
    ∷ record buy_leg {
      definition = record buy_leg.definition { leg_id = "leg_2"; dependency = "leg_1" ∷ [] };
    }
    ∷ []

bought : project_plan buy_plan (command_state ∷ []) (fill_event ∷ []) ≡ ok bought_plan
unfolding project_plan project_legs project_leg project_events project_event is_foreign is_fill
    lacks_exposure no_fills is_blank is_whitespace neg_part pos_part is_finite exponent_bits
    below_zero not_above_zero is_zero sign_bit is_nan is_partial_event is_full_event
    lifecycle_status leg_status is_stray is_foreign_state projected_plan validate_plan
    validate_execution_non_empty validate_execution_positive validate_optional is_entry validate_leg
    validate_legs is_simultaneous depends is_filled_leg is_failed_leg leg_ids
    validate_execution_summary plan_status_eq derive_execution_plan_status is_filled is_cancelled
    is_expired is_manual is_partially_filled leg_status_is_terminal validate_execution_dependencies
    add_legs add_dependencies no_degrees free_ids search search_graph check_visited release_targets
    targets_of
bought = refl

project_plan-again_example :
    project_plan bought_plan (command_state ∷ []) (fill_event ∷ []) ≡ ok bought_plan
project_plan-again_example =
    project_plan-again buy_plan bought_plan (command_state ∷ []) (fill_event ∷ []) bought

validate_execution_dependencies-Fails_example :
    ¬ (validate_execution_dependencies chained_legs ("leg_1" ∷ "leg_2" ∷ []) ≡ err unfinished)
validate_execution_dependencies-Fails_example =
    validate_execution_dependencies-Fails chained_legs ("leg_1" ∷ "leg_2" ∷ [])
