-- ===== src/Lifecycle/Evidence.antt =====
-- crates/execution/src/state.rs: the evidence that a command's lifecycle accepts, how it is validated
-- against the command, and the status that it asks for.
use sinan.Prelude.{
  ℤ, String, [], ◌∷◌, Bool, true, false, ◌||◌, ◌&&◌, not, Option, none, some, Result, ok, ◌>>=◌,
  ◌>>◌, reject_if, is_negative, ltb_ℤ, leb_ℤ, ◌==◌, is_some, is_some_and, is_none_or, bool_ne, any,
  is_blank, str_ne, opt_str_ne, F64, is_finite, below_zero, not_above_zero,
}
use mathlib.Core.Bool.{decide}
use sinan.Types.Enums.{
  ExecutionCommandStatus, reconciling, manual_reconciliation_required, command_received, expired,
  cancelled, ExecutionEventStatus, CommandInboxStatus, CommandInboxStatus-discrete,
}
use sinan.Types.Command.{ExecutionCommand, ExecutionEvent, CommandReceived}
use sinan.Lifecycle.Status.{event_status}
use sinan.Lifecycle.Valid.{CommandTransitionError, Checked}

pub data CommandEvidence : Type 0 where
  dispatched : (at : ℤ) → CommandEvidence
  delivery_unconfirmed : (at : ℤ) (error : String) → CommandEvidence
  begin_reconciliation : (at : ℤ) → CommandEvidence
  require_manual_reconciliation : (at : ℤ) → CommandEvidence
  received_recorded : CommandReceived → CommandEvidence
  received_duplicate_known_same_payload : CommandReceived → CommandEvidence
  execution_event : ExecutionEvent → CommandEvidence
  expire : (at : ℤ) → CommandEvidence
  cancel : (at : ℤ) → CommandEvidence

unfoldable pub validate_before_expiry : ExecutionCommand → ℤ → String → Checked
validate_before_expiry c at reason =
    reject_if (leb_ℤ c.expires_at at) (CommandTransitionError.invalid_timestamp reason)

unfoldable pub validate_receipt : ExecutionCommand → CommandReceived → CommandInboxStatus → Checked
validate_receipt c r expected = do
  reject_if (not (decide (CommandInboxStatus-discrete r.inbox_status expected)))
      (CommandTransitionError.invalid_evidence "command receipt has the wrong inbox status")
  reject_if
      (str_ne r.command_id c.command_id
        || str_ne r.idempotency_key c.idempotency_key
        || str_ne r.account_id c.account_id
        || opt_str_ne r.terminal_id c.terminal_id
        || opt_str_ne r.client_id c.client_id)
      (CommandTransitionError.invalid_identity "command receipt identity differs from command")

unfoldable pub event_differs : ExecutionCommand → ExecutionEvent → Bool
event_differs c e =
    is_blank e.execution_id
    || is_negative e.event_at
    || str_ne e.command_id c.command_id
    || opt_str_ne e.plan_id c.plan_id
    || opt_str_ne e.leg_id c.leg_id
    || str_ne e.account_id c.account_id
    || opt_str_ne e.terminal_id c.terminal_id
    || opt_str_ne e.client_id c.client_id
    || str_ne e.symbol c.symbol
    || is_some_and (λ symbol. opt_str_ne (some symbol) c.broker_symbol) e.broker_symbol
    || is_some_and (λ key. str_ne key c.idempotency_key) e.idempotency_key
    || is_some_and (λ lots. is_none_or (λ command_lots. not (lots == command_lots)) c.lots)
        e.requested_lots

unfoldable pub is_fill : ExecutionEventStatus → Bool
is_fill ExecutionEventStatus.filled = true
is_fill ExecutionEventStatus.partially_filled = true
is_fill _ = false

abbrev pub bad_value : Option F64 → Bool
bad_value x = is_some_and (λ value. not (is_finite value) || below_zero value) x

unfoldable pub validate_execution_event : ExecutionCommand → ExecutionEvent → Checked
validate_execution_event c e = do
  reject_if (event_differs c e)
      (CommandTransitionError.invalid_identity "execution event identity differs from command")
  reject_if (bool_ne (is_fill e.status) (is_some e.filled_at))
      (CommandTransitionError.invalid_evidence "filled_at must exactly match a fill status")
  reject_if
      (is_fill e.status
        && is_none_or (λ lots. not (is_finite lots) || not_above_zero lots) e.filled_lots)
      (CommandTransitionError.invalid_evidence "fill events require a positive filled_lots value")
  reject_if (is_some_and (λ at. is_negative at || ltb_ℤ e.event_at at) e.filled_at)
      (CommandTransitionError.invalid_timestamp "filled_at must not follow event_at")
  reject_if
      (any bad_value (e.requested_lots ∷ e.fill_price ∷ e.filled_lots ∷ e.remaining_lots ∷ []))
      (CommandTransitionError.invalid_evidence
        "execution quantities and prices must be finite and non-negative")

-- The `match` of `evidence_target`.
unfoldable pub target_of :
    ExecutionCommand → CommandEvidence → Result CommandTransitionError (ExecutionCommandStatus × ℤ)
target_of c (CommandEvidence.dispatched at) = do
  validate_before_expiry c at "dispatch cannot occur at or after expires_at"
  ok (ExecutionCommandStatus.dispatched, at)
target_of c (CommandEvidence.delivery_unconfirmed at error) =
    ok (ExecutionCommandStatus.delivery_unconfirmed, at)
target_of c (CommandEvidence.begin_reconciliation at) = ok (reconciling, at)
target_of c (CommandEvidence.require_manual_reconciliation at) =
    ok (manual_reconciliation_required, at)
target_of c (CommandEvidence.received_recorded r) = do
  validate_receipt c r CommandInboxStatus.recorded
  validate_before_expiry c r.received_at "new command receipt cannot occur at or after expires_at"
  ok (command_received, r.received_at)
target_of c (CommandEvidence.received_duplicate_known_same_payload r) = do
  validate_receipt c r CommandInboxStatus.duplicate
  ok (command_received, r.received_at)
target_of c (CommandEvidence.execution_event e) = do
  validate_execution_event c e
  ok (event_status e.status, e.event_at)
target_of c (CommandEvidence.expire at) = do
  reject_if (ltb_ℤ at c.expires_at)
      (CommandTransitionError.invalid_timestamp "expiry evidence predates command.expires_at")
  ok (expired, at)
target_of c (CommandEvidence.cancel at) = ok (cancelled, at)

unfoldable pub evidence_target :
    ExecutionCommand → CommandEvidence → Result CommandTransitionError (ExecutionCommandStatus × ℤ)
evidence_target c evidence = do
  (target, at) ← target_of c evidence
  reject_if (is_negative at)
      (CommandTransitionError.invalid_timestamp "evidence timestamp must be non-negative")
  ok (target, at)

unfoldable pub receipt_evidence : CommandEvidence → Option CommandReceived
receipt_evidence (CommandEvidence.received_recorded r) = some r
receipt_evidence (CommandEvidence.received_duplicate_known_same_payload r) = some r
receipt_evidence _ = none
