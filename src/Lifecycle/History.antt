-- ===== src/Lifecycle/History.antt =====
-- crates/execution/src/state.rs: the histories of a command, as sequences of accepted evidence.
use sinan.Prelude.{ℕ, suc, true, ◌≡◌, refl, sym, ◌∙◌, subst, inl, inr, arith, ok, ◌≤ℤ◌}
use sinan.Types.Enums.{ExecutionCommandStatus}
use sinan.Types.Command.{ExecutionCommand, ExecutionCommandState}
use sinan.Lifecycle.Status.{command_status_is_terminal}
use sinan.Lifecycle.Graph.{Changes, done, change, terminal_iff}
use sinan.Lifecycle.Valid.{validate_command_state}
use sinan.Lifecycle.Evidence.{CommandEvidence}
use sinan.Lifecycle.Transition.{CommandTransitionOutcome, outcome_state, transition_command}
use sinan.Lifecycle.Progress.{Keeps, kept}
use sinan.Lifecycle.Advance.{Advances, Outcome, changed, repeated, transition_command-Outcome}

-- `Accepts c s t`: a sequence of evidence that the command `c` accepts leads from `s` to `t`.
pub data Accepts (c : ExecutionCommand)
    : ExecutionCommandState → ExecutionCommandState → Type 0 where
  none_yet : (s : ExecutionCommandState) → Accepts c s s
  accept :
      (s : ExecutionCommandState) (e : CommandEvidence) (x : CommandTransitionOutcome)
      (t : ExecutionCommandState)
      → transition_command c s e ≡ ok x
      → Accepts c (outcome_state x) t
      → Accepts c s t

Keeps_refl : (s : ExecutionCommandState) → Keeps s s
Keeps_refl s = record {
  command_id = refl;
  account_id = refl;
  plan_id = refl;
  leg_id = refl;
  created_at = refl;
  received = kept s.command_received_at;
  reconciling = kept s.reconciling_at;
  attempts = omega arith;
}

Keeps_trans : {s t u : ExecutionCommandState} → Keeps s t → Keeps t u → Keeps s u
Keeps_trans h k = record {
  command_id = k.command_id ∙ h.command_id;
  account_id = k.account_id ∙ h.account_id;
  plan_id = k.plan_id ∙ h.plan_id;
  leg_id = k.leg_id ∙ h.leg_id;
  created_at = k.created_at ∙ h.created_at;
  received = λ at e. k.received at (h.received at e);
  reconciling = λ at e. k.reconciling at (h.reconciling at e);
  attempts = omega (arith, h.attempts, k.attempts);
}

-- What a history from `s` to `t` guarantees.
pub record Continues (c : ExecutionCommand) (s t : ExecutionCommandState) : Type 0 where
  pub keeps : Keeps s t
  pub valid : validate_command_state c t ≡ ok tt
  pub version : s.updated_at ≤ℤ t.updated_at
  pub changes : (n : ℕ) × Changes n s.status t.status
  pub final :
      command_status_is_terminal s.status ≡ true
      → (t.status ≡ s.status) × (t.completed_at ≡ s.completed_at)

stays :
    (c : ExecutionCommand) (s : ExecutionCommandState)
    → validate_command_state c s ≡ ok tt
    → Continues c s s
stays c s valid = record {
  keeps = Keeps_refl s;
  valid = valid;
  version = omega arith;
  changes = (0, done s.status);
  final = λ h. (refl, refl);
}

-- Nothing moves a terminal status.
terminal_along :
    {c : ExecutionCommand} {s t : ExecutionCommandState}
    → Advances c s t
    → command_status_is_terminal s.status ≡ true
    → (t.status ≡ s.status) × (t.completed_at ≡ s.completed_at)
terminal_along {c} {s} {t} a h = elim a.along [
  | inl same ↦ same
  | inr allowed ↦ let shut = (terminal_iff s.status).0 h t.status in cc
]

Changes-along :
    {c : ExecutionCommand} {s t : ExecutionCommandState} {to : ExecutionCommandStatus}
    → Advances c s t
    → (n : ℕ) × Changes n t.status to
    → (n : ℕ) × Changes n s.status to
Changes-along {c} {s} {t} {to} a (n, rest) = elim a.along [
  | inl (same, _) ↦ (n, subst (λ from. Changes n from to) same rest)
  | inr allowed ↦ (suc n, change n s.status t.status to allowed rest)
]

proceeds :
    {c : ExecutionCommand} {s t u : ExecutionCommandState}
    → Advances c s t
    → Continues c t u
    → Continues c s u
proceeds {c} {s} {t} {u} a k = record {
  keeps = Keeps_trans a.keeps k.keeps;
  valid = k.valid;
  version = omega (arith, a.version, k.version);
  changes = Changes-along a k.changes;
  final = λ h.
      let (same, done_at) = terminal_along a h in
      let (later, later_at) =
        k.final (subst (λ status. command_status_is_terminal status ≡ true) (sym same) h) in
      (later ∙ same, later_at ∙ done_at);
}

by-Outcome :
    {c : ExecutionCommand} {s t : ExecutionCommandState} {x : CommandTransitionOutcome}
    → validate_command_state c s ≡ ok tt
    → Outcome c s x
    → (validate_command_state c (outcome_state x) ≡ ok tt → Continues c (outcome_state x) t)
    → Continues c s t
unfolding outcome_state
by-Outcome valid repeated k = k valid
by-Outcome valid (changed u a) k = proceeds a (k a.valid)

-- Every history of a valid state keeps the identity, the creation and the recorded times, ends in a
-- valid state, does not lower the version, changes the status along the graph, and leaves a terminal
-- status and the time of its completion as they are.
pub Accepts-Continues :
    (c : ExecutionCommand) (s t : ExecutionCommandState)
    → validate_command_state c s ≡ ok tt
    → Accepts c s t
    → Continues c s t
Accepts-Continues c s _ valid (none_yet _) = stays c s valid
Accepts-Continues c s _ valid (accept _ e x t h rest) =
    by-Outcome valid (transition_command-Outcome c s e h)
      (λ next. Accepts-Continues c (outcome_state x) t next rest)
