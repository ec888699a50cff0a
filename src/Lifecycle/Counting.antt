-- ===== src/Lifecycle/Counting.antt =====
-- crates/execution/src/state.rs: how often the status of a command changes from its creation on.
use sinan.Prelude.{
  ℕ, ◌+◌, ◌≤◌, ap, if◌then◌else◌, decide_refl, ℤ, ◌≡◌, refl, sym, subst, inl, inr, arith, ok,
  >>=-eq-ok, reject_if, ok-injective, ◌||◌, is_negative, leb_ℤ,
}
use sinan.Types.Enums.{
  ExecutionCommandStatus, ExecutionCommandStatus-discrete, created, delivery_failed,
}
use sinan.Types.Command.{ExecutionCommand, ExecutionCommandState}
use sinan.Lifecycle.Graph.{Changes, depth, depth_le, allowed_depth, never_delivery_failed}
use sinan.Lifecycle.Valid.{is_status, validate_command_identity, validate_command_state}
use sinan.Lifecycle.Transition.{
  CommandTransitionOutcome, outcome_state, initial, initial_command_state,
}
use sinan.Lifecycle.Advance.{Advances, Outcome, changed, repeated, transition_command-Outcome}
use sinan.Lifecycle.History.{Accepts, none_yet, accept, Accepts-Continues}

-- One, if the status changes.
changes_from : ExecutionCommandStatus → ExecutionCommandStatus → ℕ
changes_from a b = if is_status b a then 0 else 1

-- How often the status changes along a history.
pub status_changes : {c : ExecutionCommand} {s t : ExecutionCommandState} → Accepts c s t → ℕ
status_changes (none_yet s) = 0
status_changes (accept s e x t h rest) =
    changes_from s.status (outcome_state x).status + status_changes rest

changes_from-same : (a b : ExecutionCommandStatus) → b ≡ a → changes_from a b ≡ 0
unfolding changes_from
changes_from-same a b e = rw (e, decide_refl ExecutionCommandStatus-discrete a) refl

changes_from_le : (a b : ExecutionCommandStatus) → changes_from a b ≤ 1
unfolding changes_from
changes_from_le a b = ground arith

Advances-depth :
    {c : ExecutionCommand} {s t : ExecutionCommandState}
    → Advances c s t
    → depth s.status + changes_from s.status t.status ≤ depth t.status
Advances-depth {c} {s} {t} a = elim a.along [
  | inl (same, _) ↦ omega (arith, changes_from-same s.status t.status same, ap depth same)
  | inr allowed ↦
      omega (arith, changes_from_le s.status t.status, allowed_depth s.status t.status allowed)
]

Outcome-depth :
    {c : ExecutionCommand} {s : ExecutionCommandState} {x : CommandTransitionOutcome}
    → Outcome c s x
    → depth s.status + changes_from s.status (outcome_state x).status
      ≤ depth (outcome_state x).status
unfolding outcome_state
Outcome-depth {c} {s} repeated = omega (arith, changes_from-same s.status s.status refl)
Outcome-depth (changed u a) = Advances-depth a

-- Every change of the status along a history makes the way to it longer.
status_changes-depth :
    {c : ExecutionCommand} {s t : ExecutionCommandState} (run : Accepts c s t)
    → depth s.status + status_changes run ≤ depth t.status
unfolding status_changes
status_changes-depth (none_yet s) = omega arith
status_changes-depth {c} (accept s e x t h rest) =
    omega (arith, Outcome-depth (transition_command-Outcome c s e h), status_changes-depth rest)

status_changes-le-9 :
    {c : ExecutionCommand} {s t : ExecutionCommandState} (run : Accepts c s t)
    → status_changes run ≤ 9
status_changes-le-9 {c} {s} {t} run = omega (arith, status_changes-depth run, depth_le t.status)

-- Whatever evidence a command accepts from its creation on, its state stays valid and is that of the
-- same creation, its status changes at most nine times along the way, and it is never
-- DELIVERY_FAILED.
pub created_history :
    (c : ExecutionCommand) (at : ℤ) (s t : ExecutionCommandState)
    → initial_command_state c at ≡ ok s
    → (run : Accepts c s t)
    → (validate_command_state c t ≡ ok tt)
      × (t.created_at ≡ at)
      × (status_changes run ≤ 9)
      × ¬ (t.status ≡ delivery_failed)
unfolding initial_command_state initial
created_history c at s t h run =
    let (_, _, h1) = >>=-eq-ok (validate_command_identity c) _ h in
    let (_, _, h2) = >>=-eq-ok (reject_if (is_negative at || leb_ℤ c.expires_at at) _) _ h1 in
    let (_, valid, h3) = >>=-eq-ok (validate_command_state c (initial c at)) _ h2 in
    let start = ok-injective h3 in
    let k =
      Accepts-Continues c (initial c at) t valid (subst (λ s. Accepts c s t) (sym start) run) in
    let (n, changes) = k.changes in
    (
      k.valid,
      k.keeps.created_at,
      status_changes-le-9 run,
      λ e.
          never_delivery_failed n created (λ q. cc)
            (subst (λ status. Changes n created status) e changes),
    )
