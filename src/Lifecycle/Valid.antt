-- ===== src/Lifecycle/Valid.antt =====
-- crates/execution/src/state.rs: the errors of the lifecycle, and what a command and its state are
-- validated for.
use sinan.Prelude.{
  ℤ, String, List, [], ◌∷◌, Bool, true, false, ◌||◌, ◌&&◌, not, Option, none, some, Result, ok,
  ◌>>◌, reject_if, is_negative, ltb_ℤ, leb_ℤ, ltb, ◌==◌, is_some, is_some_and, is_none_or, bool_ne,
  is_blank, str_ne, opt_str_ne, max_ℤ,
}
use mathlib.Core.Bool.{decide}
use sinan.Types.Enums.{
  ExecutionCommandStatus, ExecutionCommandStatus-discrete, created, delivery_unconfirmed,
  delivery_failed, reconciling, manual_reconciliation_required, command_received, accepted,
  rejected, expired, cancelled,
}
use sinan.Types.Command.{ExecutionCommand, ExecutionCommandState}
use sinan.Lifecycle.Status.{command_status_is_terminal}

pub data CommandTransitionError : Type 0 where
  invalid_identity : String → CommandTransitionError
  invalid_timestamp : String → CommandTransitionError
  invalid_evidence : String → CommandTransitionError
  invalid_transition : (from to : ExecutionCommandStatus) → CommandTransitionError
  version_overflow : CommandTransitionError

abbrev pub Checked : Type 0
Checked = Result CommandTransitionError (Unit {0})

abbrev pub is_status : ExecutionCommandStatus → ExecutionCommandStatus → Bool
is_status a b = decide (ExecutionCommandStatus-discrete a b)

-- The loop over the fields that must not be blank.
unfoldable pub require_identity : List (String × String) → Checked
require_identity [] = ok tt
require_identity ((field, value) ∷ rest) = do
  reject_if (is_blank value) (CommandTransitionError.invalid_identity field)
  require_identity rest

unfoldable pub validate_command_identity : ExecutionCommand → Checked
validate_command_identity c = do
  require_identity (
      ("command_id", c.command_id)
      ∷ ("strategy_id", c.strategy_id)
      ∷ ("account_id", c.account_id)
      ∷ ("symbol", c.symbol)
      ∷ ("idempotency_key", c.idempotency_key)
      ∷ ("hmac", c.hmac)
      ∷ [])
  reject_if (is_some c.leg_id && not (is_some c.plan_id))
      (CommandTransitionError.invalid_identity "leg_id requires plan_id")

abbrev pub differs : ExecutionCommand → ExecutionCommandState → Bool
differs c s =
    str_ne s.command_id c.command_id
    || str_ne s.account_id c.account_id
    || opt_str_ne s.plan_id c.plan_id
    || opt_str_ne s.leg_id c.leg_id

-- The loop over the four optional times.
unfoldable pub outside : ExecutionCommandState → Option ℤ → Bool
outside s t = is_some_and (λ at. ltb_ℤ at s.created_at || ltb_ℤ s.updated_at at) t

unfoldable pub outside_bounds : ExecutionCommandState → Bool
outside_bounds s =
    outside s s.dispatched_at
    || outside s s.command_received_at
    || outside s s.reconciling_at
    || outside s s.completed_at

unfoldable pub requires_dispatch : ExecutionCommandStatus → Bool
requires_dispatch created = false
requires_dispatch delivery_failed = false
requires_dispatch expired = false
requires_dispatch cancelled = false
requires_dispatch _ = true

unfoldable pub requires_reconciling : ExecutionCommandStatus → Bool
requires_reconciling reconciling = true
requires_reconciling manual_reconciliation_required = true
requires_reconciling _ = false

unfoldable pub requires_receipt : ExecutionCommandStatus → Bool
requires_receipt command_received = true
requires_receipt accepted = true
requires_receipt rejected = true
requires_receipt _ = false

unfoldable pub has_later_evidence : ExecutionCommandState → Bool
has_later_evidence s =
    not (s.delivery_attempts == 0)
    || is_some s.dispatched_at
    || is_some s.command_received_at
    || is_some s.reconciling_at

unfoldable pub validate_times : ExecutionCommand → ExecutionCommandState → Checked
validate_times c s = do
  reject_if (is_negative s.created_at || ltb_ℤ s.updated_at s.created_at)
      (CommandTransitionError.invalid_timestamp "created_at/updated_at are inconsistent")
  reject_if (leb_ℤ c.expires_at s.created_at)
      (CommandTransitionError.invalid_timestamp "command expiry must follow state creation")
  reject_if (bool_ne (command_status_is_terminal s.status) (is_some s.completed_at))
      (CommandTransitionError.invalid_timestamp "completed_at must exactly match terminal status")
  reject_if (outside_bounds s) (
      CommandTransitionError.invalid_timestamp
        "lifecycle timestamp is outside state version bounds")

unfoldable pub validate_status : ExecutionCommandState → Checked
validate_status s = do
  reject_if (is_status s.status created && has_later_evidence s) (
      CommandTransitionError.invalid_timestamp
        "CREATED state cannot contain later lifecycle evidence")
  reject_if (bool_ne (is_some s.dispatched_at) (ltb 0 s.delivery_attempts)) (
      CommandTransitionError.invalid_timestamp
        "delivery_attempts and dispatched_at must be present together")
  reject_if (requires_dispatch s.status && not (is_some s.dispatched_at))
      (CommandTransitionError.invalid_timestamp "command status requires dispatch evidence")
  reject_if (is_status s.status delivery_unconfirmed && is_none_or is_blank s.last_delivery_error)
      (CommandTransitionError.invalid_evidence "DELIVERY_UNCONFIRMED requires a delivery error")
  reject_if (requires_reconciling s.status && not (is_some s.reconciling_at))
      (CommandTransitionError.invalid_timestamp "reconciliation status requires reconciling_at")
  reject_if (requires_receipt s.status && not (is_some s.command_received_at))
      (CommandTransitionError.invalid_timestamp "command status requires command_received_at")

unfoldable pub validate_command_state : ExecutionCommand → ExecutionCommandState → Checked
validate_command_state c s = do
  validate_command_identity c
  reject_if (differs c s)
      (CommandTransitionError.invalid_identity "state does not belong to command")
  validate_times c s
  validate_status s

abbrev pub later : ℤ → Option ℤ → ℤ
later t none = t
later t (some u) = max_ℤ t u

unfoldable pub latest_lifecycle_evidence_at : ExecutionCommandState → ℤ
latest_lifecycle_evidence_at s =
    later
      (later (later (later s.created_at s.dispatched_at) s.command_received_at) s.reconciling_at)
      s.completed_at
