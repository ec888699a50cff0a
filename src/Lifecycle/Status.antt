-- ===== src/Lifecycle/Status.antt =====
-- crates/execution/src/state.rs: the statuses of a command, and which one may follow another.
use sinan.Prelude.{Bool, true, false}
use sinan.Types.Enums.{
  ExecutionCommandStatus, created, dispatched, delivery_unconfirmed, delivery_failed, reconciling,
  manual_reconciliation_required, command_received, accepted, rejected, order_sent,
  partially_filled, filled, failed, expired, cancelled, ExecutionEventStatus,
}

unfoldable pub command_status_is_terminal : ExecutionCommandStatus → Bool
command_status_is_terminal delivery_failed = true
command_status_is_terminal rejected = true
command_status_is_terminal filled = true
command_status_is_terminal failed = true
command_status_is_terminal expired = true
command_status_is_terminal cancelled = true
command_status_is_terminal _ = false

unfoldable pub transition_is_allowed : ExecutionCommandStatus → ExecutionCommandStatus → Bool
transition_is_allowed created dispatched = true
transition_is_allowed created expired = true
transition_is_allowed created cancelled = true
transition_is_allowed dispatched command_received = true
transition_is_allowed dispatched delivery_unconfirmed = true
transition_is_allowed dispatched expired = true
transition_is_allowed dispatched cancelled = true
transition_is_allowed delivery_unconfirmed reconciling = true
transition_is_allowed delivery_unconfirmed command_received = true
transition_is_allowed delivery_unconfirmed manual_reconciliation_required = true
transition_is_allowed delivery_unconfirmed expired = true
transition_is_allowed delivery_unconfirmed failed = true
transition_is_allowed reconciling command_received = true
transition_is_allowed reconciling order_sent = true
transition_is_allowed reconciling partially_filled = true
transition_is_allowed reconciling filled = true
transition_is_allowed reconciling manual_reconciliation_required = true
transition_is_allowed reconciling failed = true
transition_is_allowed reconciling expired = true
transition_is_allowed manual_reconciliation_required command_received = true
transition_is_allowed manual_reconciliation_required order_sent = true
transition_is_allowed manual_reconciliation_required partially_filled = true
transition_is_allowed manual_reconciliation_required filled = true
transition_is_allowed manual_reconciliation_required failed = true
transition_is_allowed manual_reconciliation_required expired = true
transition_is_allowed manual_reconciliation_required cancelled = true
transition_is_allowed command_received accepted = true
transition_is_allowed command_received rejected = true
transition_is_allowed command_received cancelled = true
transition_is_allowed command_received expired = true
transition_is_allowed accepted order_sent = true
transition_is_allowed accepted rejected = true
transition_is_allowed accepted failed = true
transition_is_allowed accepted cancelled = true
transition_is_allowed accepted expired = true
transition_is_allowed order_sent partially_filled = true
transition_is_allowed order_sent filled = true
transition_is_allowed order_sent cancelled = true
transition_is_allowed order_sent failed = true
transition_is_allowed partially_filled filled = true
transition_is_allowed partially_filled failed = true
transition_is_allowed partially_filled cancelled = true
transition_is_allowed _ _ = false

unfoldable pub event_status : ExecutionEventStatus → ExecutionCommandStatus
event_status ExecutionEventStatus.accepted = ExecutionCommandStatus.accepted
event_status ExecutionEventStatus.order_sent = ExecutionCommandStatus.order_sent
event_status ExecutionEventStatus.rejected = ExecutionCommandStatus.rejected
event_status ExecutionEventStatus.filled = ExecutionCommandStatus.filled
event_status ExecutionEventStatus.partially_filled = ExecutionCommandStatus.partially_filled
event_status ExecutionEventStatus.failed = ExecutionCommandStatus.failed
event_status ExecutionEventStatus.expired = ExecutionCommandStatus.expired
event_status ExecutionEventStatus.cancelled = ExecutionCommandStatus.cancelled
