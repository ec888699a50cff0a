-- ===== src/Projection/Leg.antt =====
-- crates/execution/src/projector.rs: `project_leg`.
use sinan.Prelude.{
  String, List, [], ◌∷◌, Bool, true, false, not, ◌&&◌, ◌||◌, some, Result, ok, err, ◌>>=◌, ◌>>◌,
  reject_if, ltb_ℤ, is_some, is_some_and, is_none_or, any, is_blank, str_eq, str_ne, opt_str_ne,
  is_finite, not_above_zero, if◌then◌else◌,
}
use sinan.Types.Enums.{ExecutionCommandStatus, ExecutionEventStatus}
use sinan.Types.Command.{ExecutionCommandState, ExecutionEvent}
use sinan.Types.Plan.{ExecutionLegStatus, ExecutionLeg}
use sinan.Lifecycle.Evidence.{is_fill, bad_value}

pub data ProjectionError : Type 0 where
  identity_mismatch : String → ProjectionError
  unsupported_command_cardinality : ProjectionError
  delivery_failed_deferred : ProjectionError
  empty_plan : ProjectionError

-- The locals of the loop over the events.
pub record Fills : Type 0 where
  pub execution_ids : List String
  pub has_partial_fill : Bool
  pub has_full_fill : Bool

unfoldable pub no_fills : Fills
no_fills = record { execution_ids = []; has_partial_fill = false; has_full_fill = false }

unfoldable pub is_partial_event : ExecutionEventStatus → Bool
is_partial_event ExecutionEventStatus.partially_filled = true
is_partial_event _ = false

unfoldable pub is_full_event : ExecutionEventStatus → Bool
is_full_event ExecutionEventStatus.filled = true
is_full_event _ = false

-- The condition under which an event does not belong to the command of the leg.
unfoldable pub is_foreign :
    String → String → ExecutionLeg → ExecutionCommandState → List String → ExecutionEvent → Bool
is_foreign plan_id account_id leg command execution_ids event =
    is_blank event.execution_id
    || any (str_eq event.execution_id) execution_ids
    || str_ne event.command_id command.command_id
    || str_ne event.account_id account_id
    || opt_str_ne event.plan_id (some plan_id)
    || opt_str_ne event.leg_id command.leg_id
    || str_ne event.symbol leg.definition.symbol
    || ltb_ℤ event.event_at command.created_at

unfoldable pub lacks_exposure : ExecutionCommandState → ExecutionEvent → Bool
lacks_exposure command event =
    not (is_some event.filled_at)
    || is_none_or (λ lots. not (is_finite lots) || not_above_zero lots) event.filled_lots
    || is_some_and (λ at. ltb_ℤ at command.created_at || ltb_ℤ event.event_at at) event.filled_at

-- One round of the loop.
unfoldable pub project_event :
    String
    → String
    → ExecutionLeg
    → ExecutionCommandState
    → ExecutionEvent
    → Fills
    → Result ProjectionError Fills
project_event plan_id account_id leg command event fills = do
  reject_if (is_foreign plan_id account_id leg command fills.execution_ids event) (
      ProjectionError.identity_mismatch
        "execution event does not belong to the projected leg command")
  reject_if (is_fill event.status && lacks_exposure command event)
      (ProjectionError.identity_mismatch "fill event lacks positive exposure evidence")
  reject_if (not (is_fill event.status) && is_some event.filled_at)
      (ProjectionError.identity_mismatch "non-fill event carries filled_at")
  reject_if
      (any bad_value
        (event.requested_lots ∷ event.fill_price ∷ event.filled_lots ∷ event.remaining_lots ∷ []))
      (ProjectionError.identity_mismatch "execution event contains an invalid numeric value")
  ok (record {
    execution_ids = event.execution_id ∷ fills.execution_ids;
    has_partial_fill = fills.has_partial_fill || is_partial_event event.status;
    has_full_fill = fills.has_full_fill || is_full_event event.status;
  })

unfoldable pub project_events :
    String
    → String
    → ExecutionLeg
    → ExecutionCommandState
    → List ExecutionEvent
    → Fills
    → Result ProjectionError Fills
project_events plan_id account_id leg command [] fills = ok fills
project_events plan_id account_id leg command (event ∷ events) fills = do
  next ← project_event plan_id account_id leg command event fills
  project_events plan_id account_id leg command events next

-- The status of a leg by that of its command.
unfoldable pub lifecycle_status : ExecutionCommandStatus → Result ProjectionError ExecutionLegStatus
lifecycle_status ExecutionCommandStatus.created = ok ExecutionLegStatus.pending
lifecycle_status ExecutionCommandStatus.dispatched = ok ExecutionLegStatus.sent
lifecycle_status ExecutionCommandStatus.delivery_unconfirmed =
    ok ExecutionLegStatus.delivery_unconfirmed
lifecycle_status ExecutionCommandStatus.delivery_failed =
    err ProjectionError.delivery_failed_deferred
lifecycle_status ExecutionCommandStatus.reconciling = ok ExecutionLegStatus.reconciling
lifecycle_status ExecutionCommandStatus.manual_reconciliation_required =
    ok ExecutionLegStatus.manual_reconciliation_required
lifecycle_status ExecutionCommandStatus.command_received = ok ExecutionLegStatus.command_received
lifecycle_status ExecutionCommandStatus.accepted = ok ExecutionLegStatus.accepted
lifecycle_status ExecutionCommandStatus.rejected = ok ExecutionLegStatus.rejected
lifecycle_status ExecutionCommandStatus.order_sent = ok ExecutionLegStatus.order_sent
lifecycle_status ExecutionCommandStatus.partially_filled = ok ExecutionLegStatus.partially_filled
lifecycle_status ExecutionCommandStatus.filled = ok ExecutionLegStatus.filled
lifecycle_status ExecutionCommandStatus.failed = ok ExecutionLegStatus.failed
lifecycle_status ExecutionCommandStatus.expired = ok ExecutionLegStatus.expired
lifecycle_status ExecutionCommandStatus.cancelled = ok ExecutionLegStatus.cancelled

-- A recorded fill overrides the status of the command.
unfoldable pub leg_status : Bool → Bool → ExecutionLegStatus → ExecutionLegStatus
leg_status has_full_fill has_partial_fill lifecycle =
    if has_full_fill
    then ExecutionLegStatus.filled
    else if has_partial_fill
    then ExecutionLegStatus.partially_filled
    else lifecycle

unfoldable pub project_leg :
    String
    → String
    → ExecutionLeg
    → List ExecutionCommandState
    → List ExecutionEvent
    → Result ProjectionError ExecutionLeg
project_leg plan_id account_id leg [] events = err ProjectionError.unsupported_command_cardinality
project_leg plan_id account_id leg (command ∷ []) events = do
  reject_if
      (str_ne command.account_id account_id
        || opt_str_ne command.plan_id (some plan_id)
        || opt_str_ne command.leg_id (some leg.definition.leg_id))
      (ProjectionError.identity_mismatch
        "command state account/plan/leg identity differs from the projected leg")
  fills ← project_events plan_id account_id leg command events no_fills
  lifecycle ← lifecycle_status command.status
  ok (record leg {
    state = record { status = leg_status fills.has_full_fill fills.has_partial_fill lifecycle };
  })
project_leg plan_id account_id leg (command ∷ other ∷ more) events =
    err ProjectionError.unsupported_command_cardinality
