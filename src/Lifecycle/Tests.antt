-- ===== src/Lifecycle/Tests.antt =====
-- crates/execution/src/state.rs: a command that is filled after a reconciliation.
use sinan.Prelude.{
  ℕ, pos, ◌≤◌, false, none, some, ◌≡◌, ◌↔◌, refl, ok, is_blank, is_whitespace, checked_add, ◌+ℤ◌,
  neg_part, pos_part, is_negative, leb_ℤ, if◌then◌else◌, arith,
}
use mathlib.Core.Bool.{decide}
use sinan.Types.Enums.{
  ExecutionCommandStatus-discrete, CommandInboxStatus, CommandInboxStatus-discrete,
  command_received, ExecutionAction, expired, created, dispatched, delivery_unconfirmed,
  delivery_failed, reconciling, order_sent, filled,
}
use sinan.Lifecycle.Status.{command_status_is_terminal, transition_is_allowed}
use sinan.Types.Command.{ExecutionCommand, ExecutionCommandState, CommandReceived}
use sinan.Lifecycle.Valid.{
  require_identity, validate_command_identity, outside, outside_bounds, requires_dispatch,
  requires_reconciling, requires_receipt, has_later_evidence, validate_times, validate_status,
  validate_command_state, latest_lifecycle_evidence_at,
}
use sinan.Lifecycle.Evidence.{
  CommandEvidence, validate_before_expiry, validate_receipt, target_of, evidence_target,
  receipt_evidence,
}
use sinan.Lifecycle.Transition.{
  applied, duplicate, outcome_state, apply_receipt_evidence, receipt_known, record_receipt,
  receipt_state, initial, initial_command_state, next_version, next_attempt, write_evidence,
  complete, is_local, move, by_receipt, filled_before, transition_command,
}
use sinan.Lifecycle.Advance.{Outcome, transition_command-Outcome}
use sinan.Lifecycle.History.{Accepts, none_yet, accept, Continues, Accepts-Continues}
use sinan.Lifecycle.Counting.{status_changes, created_history}
use sinan.Lifecycle.Idempotence.{transition_command-again}
use sinan.Lifecycle.Creation.{initial_command_state_iff}
use sinan.Lifecycle.Liveness.{due, created_moves}
use sinan.Lifecycle.Graph.{Changes, done, change, Changes-bounded}

filled_late : Changes 5 created filled
unfolding transition_is_allowed
filled_late = change 4 created dispatched filled refl (
    change 3 dispatched delivery_unconfirmed filled refl (
      change 2 delivery_unconfirmed reconciling filled refl (
        change 1 reconciling order_sent filled refl
          (change 0 order_sent filled filled refl (done filled)))))

Changes-bounded_example : (5 ≤ 9) × (created ≡ filled → ◌≡◌ {A = ℕ} 5 0)
Changes-bounded_example = Changes-bounded 5 created filled filled_late

abbrev buy_command : ExecutionCommand
buy_command = record {
  command_id = "cmd_1";
  plan_id = some "plan_1";
  leg_id = some "leg_1";
  strategy_id = "trend";
  account_id = "acc_1";
  terminal_id = some "term_1";
  client_id = some "ea_1";
  symbol = "EURUSD";
  broker_symbol = none;
  action = ExecutionAction.buy;
  order_type = none;
  lots = none;
  price = none;
  sl = none;
  tp = none;
  deviation_points = none;
  magic = pos 7;
  comment = none;
  position_ticket = none;
  broker_order_id = none;
  filling_policy = none;
  time_policy = none;
  expiration_time = none;
  expires_at = pos 1000;
  idempotency_key = "idem_1";
  hmac = "a1b2";
}

abbrev buy_created : ExecutionCommandState
buy_created = record {
  command_id = "cmd_1";
  account_id = "acc_1";
  plan_id = some "plan_1";
  leg_id = some "leg_1";
  status = created;
  delivery_attempts = 0;
  last_delivery_error = none;
  created_at = pos 100;
  dispatched_at = none;
  command_received_at = none;
  reconciling_at = none;
  completed_at = none;
  updated_at = pos 100;
}

abbrev buy_dispatched : ExecutionCommandState
buy_dispatched = record buy_created {
  status = dispatched;
  delivery_attempts = 1;
  dispatched_at = some (pos 200);
  updated_at = pos 200;
}

buy_identity : validate_command_identity buy_command ≡ ok tt
unfolding validate_command_identity require_identity is_blank is_whitespace
buy_identity = refl

buy_initial : initial_command_state buy_command (pos 100) ≡ ok buy_created
unfolding initial neg_part pos_part
buy_initial =
    (initial_command_state_iff buy_command (pos 100) buy_created).1 (buy_identity, refl, refl, refl)

buy_valid : validate_command_state buy_command buy_created ≡ ok tt
unfolding validate_command_state validate_command_identity require_identity is_blank is_whitespace
    validate_times validate_status command_status_is_terminal outside_bounds outside
    has_later_evidence requires_dispatch requires_reconciling requires_receipt
    ExecutionCommandStatus-discrete neg_part pos_part decide
buy_valid = refl

buy_sent :
    transition_command buy_command buy_created (CommandEvidence.dispatched (pos 200))
    ≡ ok (applied buy_dispatched)
unfolding transition_command validate_command_state validate_command_identity require_identity
    is_blank is_whitespace validate_times validate_status command_status_is_terminal outside_bounds
    outside has_later_evidence requires_dispatch requires_reconciling requires_receipt
    ExecutionCommandStatus-discrete evidence_target target_of validate_before_expiry filled_before
    receipt_evidence by_receipt move transition_is_allowed next_version checked_add write_evidence
    next_attempt complete is_local latest_lifecycle_evidence_at ◌+ℤ◌ neg_part pos_part decide
buy_sent = refl

abbrev buy_receipt : CommandReceived
buy_receipt = record {
  command_id = "cmd_1";
  idempotency_key = "idem_1";
  account_id = "acc_1";
  terminal_id = some "term_1";
  client_id = some "ea_1";
  received_at = pos 250;
  inbox_status = CommandInboxStatus.recorded;
  reason = none;
}

abbrev buy_received : ExecutionCommandState
buy_received = record buy_dispatched {
  status = command_received;
  command_received_at = some (pos 250);
  updated_at = pos 250;
}

buy_known :
    transition_command buy_command buy_dispatched (CommandEvidence.received_recorded buy_receipt)
    ≡ ok (applied buy_received)
unfolding transition_command validate_command_state validate_command_identity require_identity
    is_blank is_whitespace validate_times validate_status command_status_is_terminal outside_bounds
    outside has_later_evidence requires_dispatch requires_reconciling requires_receipt
    ExecutionCommandStatus-discrete CommandInboxStatus-discrete evidence_target target_of
    validate_before_expiry validate_receipt filled_before receipt_evidence by_receipt
    apply_receipt_evidence receipt_known record_receipt receipt_state transition_is_allowed
    next_version checked_add ◌+ℤ◌ neg_part pos_part decide
buy_known = refl

buy_run : Accepts buy_command buy_created buy_received
unfolding outcome_state
buy_run =
    accept buy_created (CommandEvidence.dispatched (pos 200)) (applied buy_dispatched) buy_received
      buy_sent
      (accept buy_dispatched (CommandEvidence.received_recorded buy_receipt) (applied buy_received)
        buy_received buy_known (none_yet buy_received))

transition_command-Outcome_example : Outcome buy_command buy_dispatched (applied buy_received)
transition_command-Outcome_example =
    transition_command-Outcome buy_command buy_dispatched
      (CommandEvidence.received_recorded buy_receipt) buy_known

Accepts-Continues_example : Continues buy_command buy_created buy_received
Accepts-Continues_example = Accepts-Continues buy_command buy_created buy_received buy_valid buy_run

created_history_example :
    (validate_command_state buy_command buy_received ≡ ok tt)
    × (buy_received.created_at ≡ pos 100)
    × (status_changes buy_run ≤ 9)
    × ¬ (command_received ≡ delivery_failed)
created_history_example =
    created_history buy_command (pos 100) buy_created buy_received buy_initial buy_run

transition_command-again_example :
    transition_command buy_command buy_received (CommandEvidence.received_recorded buy_receipt)
    ≡ ok (duplicate buy_received)
unfolding outcome_state
transition_command-again_example =
    transition_command-again buy_command buy_dispatched
      (CommandEvidence.received_recorded buy_receipt) (applied buy_received) buy_known

initial_command_state_iff_example :
    (initial_command_state buy_command (pos 100) ≡ ok buy_created) ↔ (
      (validate_command_identity buy_command ≡ ok tt)
      × (is_negative (pos 100) ≡ false)
      × (leb_ℤ (pos 1000) (pos 100) ≡ false)
      × (initial buy_command (pos 100) ≡ buy_created))
initial_command_state_iff_example = initial_command_state_iff buy_command (pos 100) buy_created

created_moves_example :
    (t : ExecutionCommandState) × (transition_command buy_command buy_created
        (due buy_command (pos 300))
      ≡ ok (applied t))
    × (t.status ≡ (if leb_ℤ (pos 1000) (pos 300) then expired else dispatched))
unfolding pos_part neg_part
created_moves_example =
    created_moves buy_command buy_created (pos 300) buy_valid refl (omega arith) (omega arith)
