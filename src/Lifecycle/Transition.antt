-- ===== src/Lifecycle/Transition.antt =====
-- crates/execution/src/state.rs: `initial_command_state` and `transition_command`, which applies a
-- piece of evidence to the state of a command.
use sinan.Prelude.{
  ℕ, ℤ, pos, Bool, true, false, ◌||◌, ◌&&◌, not, Option, none, some, Result, ok, err, ◌>>=◌, ◌>>◌,
  reject_if, ok_or, is_negative, ltb_ℤ, leb_ℤ, eqb_ℤ, ltb, ◌+◌, is_some_and, is_blank, max_ℤ,
  checked_add, u32_max, if◌then◌else◌,
}
use sinan.Types.Enums.{
  ExecutionCommandStatus, created, reconciling, manual_reconciliation_required, accepted, rejected,
  order_sent, partially_filled, filled, failed,
}
use sinan.Types.Command.{ExecutionCommand, ExecutionCommandState, CommandReceived}
use sinan.Lifecycle.Status.{command_status_is_terminal, transition_is_allowed}
use sinan.Lifecycle.Valid.{
  CommandTransitionError, is_status, validate_command_identity, validate_command_state,
  latest_lifecycle_evidence_at,
}
use sinan.Lifecycle.Evidence.{CommandEvidence, evidence_target, receipt_evidence}

pub data CommandTransitionOutcome : Type 0 where
  applied : ExecutionCommandState → CommandTransitionOutcome
  duplicate : ExecutionCommandState → CommandTransitionOutcome

-- `CommandTransitionOutcome::state`.
unfoldable pub outcome_state : CommandTransitionOutcome → ExecutionCommandState
outcome_state (CommandTransitionOutcome.applied s) = s
outcome_state (CommandTransitionOutcome.duplicate s) = s

abbrev pub Transitioned : Type 0
Transitioned = Result CommandTransitionError CommandTransitionOutcome

unfoldable pub initial : ExecutionCommand → ℤ → ExecutionCommandState
initial c created_at = record {
  command_id = c.command_id;
  account_id = c.account_id;
  plan_id = c.plan_id;
  leg_id = c.leg_id;
  status = created;
  delivery_attempts = 0;
  last_delivery_error = none;
  created_at = created_at;
  dispatched_at = none;
  command_received_at = none;
  reconciling_at = none;
  completed_at = none;
  updated_at = created_at;
}

unfoldable pub initial_command_state :
    ExecutionCommand → ℤ → Result CommandTransitionError ExecutionCommandState
initial_command_state c created_at = do
  validate_command_identity c
  reject_if (is_negative created_at || leb_ℤ c.expires_at created_at)
      (CommandTransitionError.invalid_timestamp "created_at must precede expires_at")
  validate_command_state c (initial c created_at)
  ok (initial c created_at)

-- `state.updated_at.checked_add(1).ok_or(VersionOverflow)?.max(at)`.
unfoldable pub next_version : ExecutionCommandState → ℤ → Result CommandTransitionError ℤ
next_version s at = do
  version ← ok_or (checked_add s.updated_at (pos 1)) CommandTransitionError.version_overflow
  ok (max_ℤ version at)

-- The statuses that a late receipt does not move.
unfoldable pub outlasts_receipt : ExecutionCommandStatus → Bool
outlasts_receipt reconciling = true
outlasts_receipt manual_reconciliation_required = true
outlasts_receipt accepted = true
outlasts_receipt rejected = true
outlasts_receipt order_sent = true
outlasts_receipt partially_filled = true
outlasts_receipt filled = true
outlasts_receipt failed = true
outlasts_receipt _ = false

-- The end of `apply_receipt_evidence`: the receipt is recorded, and the status becomes `status`.
unfoldable pub receipt_state :
    ExecutionCommandState → ExecutionCommandStatus → ℤ → ℤ → ExecutionCommandState
receipt_state s status at version = record s {
  status = status;
  command_received_at = some at;
  updated_at = version;
}

unfoldable pub record_receipt :
    ExecutionCommand → ExecutionCommandState → ExecutionCommandStatus → ℤ → Transitioned
record_receipt c s status at = do
  version ← next_version s at
  validate_command_state c (receipt_state s status at version)
  ok (CommandTransitionOutcome.applied (receipt_state s status at version))

-- The branch on the receipt that is recorded already.
unfoldable pub receipt_known :
    ExecutionCommand → ExecutionCommandState → Option ℤ → ℤ → ExecutionCommandStatus → Transitioned
receipt_known c s (some recorded_at) at target =
    if eqb_ℤ recorded_at at
    then ok (CommandTransitionOutcome.duplicate s)
    else err (
        CommandTransitionError.invalid_evidence
          "command receipt timestamp differs from the recorded receipt")
receipt_known c s none at target =
    if transition_is_allowed s.status target
    then record_receipt c s target at
    else if outlasts_receipt s.status
    then record_receipt c s s.status at
    else err (CommandTransitionError.invalid_transition s.status target)

unfoldable pub apply_receipt_evidence :
    ExecutionCommand
    → ExecutionCommandState
    → CommandReceived
    → ExecutionCommandStatus
    → Transitioned
apply_receipt_evidence c s r target = do
  reject_if (is_some_and (λ at. ltb_ℤ r.received_at at) s.dispatched_at)
      (CommandTransitionError.invalid_timestamp "command receipt predates dispatch")
  receipt_known c s s.command_received_at r.received_at target

-- `u32::checked_add(1)` on the attempts.
unfoldable pub next_attempt : ℕ → Result CommandTransitionError ℕ
next_attempt n = if ltb n u32_max then ok (n + 1) else err CommandTransitionError.version_overflow

abbrev pub get_or_insert : Option ℤ → ℤ → Option ℤ
get_or_insert none at = some at
get_or_insert (some t) at = some t

-- The `match evidence` that writes the new state.
unfoldable pub write_evidence :
    CommandEvidence → ExecutionCommandState → Result CommandTransitionError ExecutionCommandState
write_evidence (CommandEvidence.dispatched at) s = do
  attempts ← next_attempt s.delivery_attempts
  ok (record s {
    delivery_attempts = attempts;
    dispatched_at = some at;
    last_delivery_error = none;
  })
write_evidence (CommandEvidence.delivery_unconfirmed at error) s = do
  reject_if (is_blank error)
      (CommandTransitionError.invalid_evidence "delivery error must not be empty")
  ok (record s { last_delivery_error = some error })
write_evidence (CommandEvidence.begin_reconciliation at) s =
    ok (record s { reconciling_at = get_or_insert s.reconciling_at at })
write_evidence (CommandEvidence.require_manual_reconciliation at) s =
    ok (record s { reconciling_at = get_or_insert s.reconciling_at at })
write_evidence (CommandEvidence.received_recorded r) s =
    ok (record s { command_received_at = get_or_insert s.command_received_at r.received_at })
write_evidence (CommandEvidence.received_duplicate_known_same_payload r) s =
    ok (record s { command_received_at = get_or_insert s.command_received_at r.received_at })
write_evidence (CommandEvidence.execution_event e) s = ok s
write_evidence (CommandEvidence.expire at) s = ok s
write_evidence (CommandEvidence.cancel at) s = ok s

unfoldable pub complete : ExecutionCommandStatus → ℤ → ExecutionCommandState → ExecutionCommandState
complete target at s =
    if command_status_is_terminal target then record s { completed_at = some at } else s

unfoldable pub is_local : CommandEvidence → Bool
is_local (CommandEvidence.expire at) = true
is_local (CommandEvidence.cancel at) = true
is_local _ = false

-- `transition_command` from the test for a change of status on.
unfoldable pub move :
    ExecutionCommand
    → ExecutionCommandState
    → CommandEvidence
    → ExecutionCommandStatus
    → ℤ
    → Transitioned
move c s evidence target at = do
  reject_if (is_local evidence && not (is_status s.status created)) (
      CommandTransitionError.invalid_evidence
        "local expiry/cancellation is only valid before dispatch")
  reject_if (not (transition_is_allowed s.status target))
      (CommandTransitionError.invalid_transition s.status target)
  version ← next_version s at
  written ← write_evidence evidence (record s { status = target; updated_at = version })
  validate_command_state c (complete target at written)
  ok (CommandTransitionOutcome.applied (complete target at written))

unfoldable pub by_receipt :
    ExecutionCommand
    → ExecutionCommandState
    → CommandEvidence
    → Option CommandReceived
    → ExecutionCommandStatus
    → ℤ
    → Transitioned
by_receipt c s evidence (some r) target at = apply_receipt_evidence c s r target
by_receipt c s evidence none target at = do
  reject_if (ltb_ℤ at (latest_lifecycle_evidence_at s)) (
      CommandTransitionError.invalid_timestamp
        "advancing evidence predates existing lifecycle evidence")
  let moved = move c s evidence target at
  if is_status target s.status then ok (CommandTransitionOutcome.duplicate s) else moved

unfoldable pub filled_before : CommandEvidence → ℤ → Bool
filled_before (CommandEvidence.execution_event e) created_at =
    is_some_and (λ at. ltb_ℤ at created_at) e.filled_at
filled_before _ created_at = false

unfoldable pub transition_command :
    ExecutionCommand → ExecutionCommandState → CommandEvidence → Transitioned
transition_command c s evidence = do
  validate_command_state c s
  (target, at) ← evidence_target c evidence
  reject_if (filled_before evidence s.created_at)
      (CommandTransitionError.invalid_timestamp "filled_at predates command creation")
  reject_if (ltb_ℤ at s.created_at)
      (CommandTransitionError.invalid_timestamp "evidence predates command creation")
  by_receipt c s evidence (receipt_evidence evidence) target at
