-- ===== src/Lifecycle/Advance.antt =====
-- crates/execution/src/state.rs: the moves that `transition_command` makes.
use sinan.Prelude.{
  ℤ, true, not, ◌&&◌, Option, none, some, ◌≡◌, refl, sym, ◌∙◌, subst, ◌⊎◌, inl, inr, arith, ok, err,
  >>=-eq-ok, reject_if, reject_if-eq-ok, ok-injective, ◌<ℤ◌, Bool-cases, chosen, is_some_and, ltb_ℤ,
  eqb_ℤ,
}
use sinan.Types.Enums.{ExecutionCommandStatus, created}
use sinan.Types.Command.{ExecutionCommand, ExecutionCommandState, CommandReceived}
use sinan.Lifecycle.Status.{command_status_is_terminal, transition_is_allowed}
use sinan.Lifecycle.Valid.{
  CommandTransitionError, is_status, validate_command_state, latest_lifecycle_evidence_at,
}
use sinan.Lifecycle.Evidence.{CommandEvidence, evidence_target, receipt_evidence}
use sinan.Lifecycle.Transition.{
  CommandTransitionOutcome, Transitioned, applied, duplicate, next_version, outlasts_receipt,
  receipt_state, record_receipt, receipt_known, apply_receipt_evidence, write_evidence, complete,
  is_local, move, by_receipt, filled_before, transition_command,
}
use sinan.Lifecycle.Progress.{KeptTime, Keeps, kept, write_evidence-Keeps, next_version-later}

-- A state `t` that an accepted piece of evidence makes of `s`.
pub record Advances (c : ExecutionCommand) (s t : ExecutionCommandState) : Type 0 where
  pub keeps : Keeps s t
  pub version : s.updated_at <ℤ t.updated_at
  pub valid : validate_command_state c t ≡ ok tt
  pub along :
      ((t.status ≡ s.status) × (t.completed_at ≡ s.completed_at))
      ⊎ (transition_is_allowed s.status t.status ≡ true)

pub data Outcome (c : ExecutionCommand) (s : ExecutionCommandState)
    : CommandTransitionOutcome → Type 0 where
  changed : (t : ExecutionCommandState) → Advances c s t → Outcome c s (applied t)
  repeated : Outcome c s (duplicate s)

-- `record s { status; updated_at }` is written by the code before the evidence is.
started :
    (c : ExecutionCommand) (s : ExecutionCommandState) (target : ExecutionCommandStatus) (v : ℤ)
    (t : ExecutionCommandState)
    → transition_is_allowed s.status target ≡ true
    → s.updated_at <ℤ v
    → Keeps (record s { status = target; updated_at = v }) t
    → t.status ≡ target
    → t.updated_at ≡ v
    → validate_command_state c t ≡ ok tt
    → Advances c s t
started c s target v t allowed later k e f valid = record {
  keeps = record {
    command_id = k.command_id;
    account_id = k.account_id;
    plan_id = k.plan_id;
    leg_id = k.leg_id;
    created_at = k.created_at;
    received = k.received;
    reconciling = k.reconciling;
    attempts = k.attempts;
  };
  version = subst (λ w. s.updated_at <ℤ w) (sym f) later;
  valid = valid;
  along = inr (subst (λ to. transition_is_allowed s.status to ≡ true) (sym e) allowed);
}

complete-Keeps :
    (target : ExecutionCommandStatus) (at : ℤ) (s t : ExecutionCommandState)
    → Keeps s t
    → Keeps s (complete target at t)
unfolding complete
complete-Keeps target at s t k = elim (Bool-cases (command_status_is_terminal target)) [
  | inl e ↦ rw e (record {
    command_id = k.command_id;
    account_id = k.account_id;
    plan_id = k.plan_id;
    leg_id = k.leg_id;
    created_at = k.created_at;
    received = k.received;
    reconciling = k.reconciling;
    attempts = k.attempts;
  })
  | inr e ↦ rw e k
]

pub complete-status :
    (target : ExecutionCommandStatus) (at : ℤ) (t : ExecutionCommandState)
    → ((complete target at t).status ≡ t.status)
      × ((complete target at t).updated_at ≡ t.updated_at)
unfolding complete
complete-status target at t = ground arith

move-Outcome :
    (c : ExecutionCommand) (s : ExecutionCommandState) (e : CommandEvidence)
    (target : ExecutionCommandStatus) (at : ℤ) {o : CommandTransitionOutcome}
    → move c s e target at ≡ ok o
    → Outcome c s o
unfolding move
move-Outcome c s e target at h =
    let (u, _, h1) = >>=-eq-ok (reject_if (is_local e && not (is_status s.status created)) _) _ h in
    let (u, a, h2) = >>=-eq-ok (reject_if (not (transition_is_allowed s.status target)) _) _ h1 in
    let (v, b, h3) = >>=-eq-ok (next_version s at) _ h2 in
    let (w, d, h4) =
      >>=-eq-ok (write_evidence e (record s { status = target; updated_at = v })) _ h3 in
    let (u, g, h5) = >>=-eq-ok (validate_command_state c (complete target at w)) _ h4 in
    let (k, same) = write_evidence-Keeps e (record s { status = target; updated_at = v }) d in
    let (x, y) = complete-status target at w in
    let allowed = reject_if-eq-ok (not (transition_is_allowed s.status target)) _ a in
    subst (Outcome c s) (ok-injective h5) (
      changed (complete target at w) (
        started c s target v (complete target at w) (ground arith) (next_version-later s at b)
          (complete-Keeps target at _ w k) (x ∙ same.0) (y ∙ same.1) g))

none_kept : (o n : Option ℤ) → o ≡ none → KeptTime o n
none_kept none n e at h = cc
none_kept (some t) n e at h = cc

pub err_not_ok :
    {e : CommandTransitionError} {x : CommandTransitionOutcome}
    → ◌≡◌ {A = Transitioned} (err e) (ok x)
    → ⊥
err_not_ok h = cc

record_receipt-Outcome :
    (c : ExecutionCommand) (s : ExecutionCommandState) (status : ExecutionCommandStatus) (at : ℤ)
    {o : CommandTransitionOutcome}
    → s.command_received_at ≡ none
    → (status ≡ s.status) ⊎ (transition_is_allowed s.status status ≡ true)
    → record_receipt c s status at ≡ ok o
    → Outcome c s o
unfolding record_receipt receipt_state
record_receipt-Outcome c s status at first along h =
    let (v, b, h1) = >>=-eq-ok (next_version s at) _ h in
    let (u, g, h2) = >>=-eq-ok (validate_command_state c (receipt_state s status at v)) _ h1 in
    subst (Outcome c s) (ok-injective h2) (
      changed (receipt_state s status at v) (record {
        keeps = record {
          command_id = refl;
          account_id = refl;
          plan_id = refl;
          leg_id = refl;
          created_at = refl;
          received = none_kept s.command_received_at (some at) first;
          reconciling = kept s.reconciling_at;
          attempts = omega arith;
        };
        version = next_version-later s at b;
        valid = g;
        along = elim along [ inl e ↦ inl (e, refl) | inr e ↦ inr e ];
      }))

receipt_known-Outcome :
    (c : ExecutionCommand) (s : ExecutionCommandState) (o : Option ℤ) (at : ℤ)
    (target : ExecutionCommandStatus) {x : CommandTransitionOutcome}
    → s.command_received_at ≡ o
    → receipt_known c s o at target ≡ ok x
    → Outcome c s x
unfolding receipt_known
receipt_known-Outcome c s (some recorded_at) at target {x} e h =
    elim (chosen (λ r. r ≡ ok x) (eqb_ℤ recorded_at at) _ _ h) [
      | inl (_, p) ↦ subst (Outcome c s) (ok-injective p) repeated
      | inr (_, p) ↦ absurd (err_not_ok p)
    ]
receipt_known-Outcome c s none at target {x} e h =
    elim (chosen (λ r. r ≡ ok x) (transition_is_allowed s.status target) _ _ h) [
      | inl (p, k) ↦ record_receipt-Outcome c s target at e (inr p) k
      | inr (_, k) ↦ elim (chosen (λ r. r ≡ ok x) (outlasts_receipt s.status) _ _ k) [
        | inl (_, m) ↦ record_receipt-Outcome c s s.status at e (inl refl) m
        | inr (_, m) ↦ absurd (err_not_ok m)
      ]
    ]

by_receipt-Outcome :
    (c : ExecutionCommand) (s : ExecutionCommandState) (e : CommandEvidence)
    (r : Option CommandReceived) (target : ExecutionCommandStatus) (at : ℤ)
    {x : CommandTransitionOutcome}
    → by_receipt c s e r target at ≡ ok x
    → Outcome c s x
unfolding by_receipt apply_receipt_evidence
by_receipt-Outcome c s e (some r) target at h =
    let (u, _, k) = >>=-eq-ok (reject_if (is_some_and _ s.dispatched_at) _) _ h in
    receipt_known-Outcome c s s.command_received_at r.received_at target refl k
by_receipt-Outcome c s e none target at {x} h =
    let (u, _, k) = >>=-eq-ok (reject_if (ltb_ℤ at (latest_lifecycle_evidence_at s)) _) _ h in
    elim (chosen (λ r. r ≡ ok x) (is_status target s.status) _ _ k) [
      | inl (_, p) ↦ subst (Outcome c s) (ok-injective p) repeated
      | inr (_, p) ↦ move-Outcome c s e target at p
    ]

-- Evidence that a command accepts either leaves its state, or advances it.
pub transition_command-Outcome :
    (c : ExecutionCommand) (s : ExecutionCommandState) (e : CommandEvidence)
    {x : CommandTransitionOutcome}
    → transition_command c s e ≡ ok x
    → Outcome c s x
unfolding transition_command
transition_command-Outcome c s e h =
    let (u, _, h1) = >>=-eq-ok (validate_command_state c s) _ h in
    let (p, _, h2) = >>=-eq-ok (evidence_target c e) _ h1 in
    let (u, _, h3) = >>=-eq-ok (reject_if (filled_before e s.created_at) _) _ h2 in
    let (u, _, h4) = >>=-eq-ok (reject_if (ltb_ℤ p.1 s.created_at) _) _ h3 in
    by_receipt-Outcome c s e (receipt_evidence e) p.0 p.1 h4
