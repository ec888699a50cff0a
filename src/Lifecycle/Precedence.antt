-- ===== src/Lifecycle/Precedence.antt =====
-- crates/execution/src/state.rs: the times that a command's state records, and that of the evidence.
use sinan.Prelude.{
  ℕ, ℤ, Bool, true, false, ◌||◌, Option, none, some, ◌≡◌, refl, sym, ◌∙◌, ap, subst, inl, inr,
  arith, Result, ok, >>=-eq-ok, reject_if, ok-injective, ltb_ℤ, eqb_ℤ, is_some_and, Bool-cases,
  is_blank, is_negative, String,
}
use sinan.Types.Enums.{ExecutionCommandStatus, CommandInboxStatus}
use sinan.Types.Command.{ExecutionCommand, ExecutionCommandState}
use sinan.Lifecycle.Status.{command_status_is_terminal}
use sinan.Lifecycle.Valid.{CommandTransitionError, later, latest_lifecycle_evidence_at}
use sinan.Lifecycle.Evidence.{
  CommandEvidence, validate_before_expiry, validate_receipt, validate_execution_event, target_of,
  evidence_target,
}
use sinan.Lifecycle.Transition.{next_attempt, get_or_insert, write_evidence, complete}

-- The time at which the evidence was made.
unfoldable pub evidence_at : CommandEvidence → ℤ
evidence_at (CommandEvidence.dispatched at) = at
evidence_at (CommandEvidence.delivery_unconfirmed at error) = at
evidence_at (CommandEvidence.begin_reconciliation at) = at
evidence_at (CommandEvidence.require_manual_reconciliation at) = at
evidence_at (CommandEvidence.received_recorded r) = r.received_at
evidence_at (CommandEvidence.received_duplicate_known_same_payload r) = r.received_at
evidence_at (CommandEvidence.execution_event e) = e.event_at
evidence_at (CommandEvidence.expire at) = at
evidence_at (CommandEvidence.cancel at) = at

pair_at :
    {s : ExecutionCommandStatus} {t : ℤ} {p : ExecutionCommandStatus × ℤ}
    → ◌≡◌ {A = Result CommandTransitionError (ExecutionCommandStatus × ℤ)} (ok (s, t)) (ok p)
    → p.1 ≡ t
pair_at {s} {t} {p} h = sym (ap (λ (q : ExecutionCommandStatus × ℤ). q.1) (ok-injective h))

target_of-at :
    (c : ExecutionCommand) (e : CommandEvidence) {p : ExecutionCommandStatus × ℤ}
    → target_of c e ≡ ok p
    → p.1 ≡ evidence_at e
unfolding target_of evidence_at
target_of-at c (CommandEvidence.dispatched at) h =
    let (u, _, k) = >>=-eq-ok (validate_before_expiry c at _) _ h in pair_at k
target_of-at c (CommandEvidence.delivery_unconfirmed at error) h = pair_at h
target_of-at c (CommandEvidence.begin_reconciliation at) h = pair_at h
target_of-at c (CommandEvidence.require_manual_reconciliation at) h = pair_at h
target_of-at c (CommandEvidence.received_recorded r) h =
    let (u, _, k) = >>=-eq-ok (validate_receipt c r CommandInboxStatus.recorded) _ h in
    let (u, _, m) = >>=-eq-ok (validate_before_expiry c r.received_at _) _ k in pair_at m
target_of-at c (CommandEvidence.received_duplicate_known_same_payload r) h =
    let (u, _, k) = >>=-eq-ok (validate_receipt c r CommandInboxStatus.duplicate) _ h in pair_at k
target_of-at c (CommandEvidence.execution_event e) h =
    let (u, _, k) = >>=-eq-ok (validate_execution_event c e) _ h in pair_at k
target_of-at c (CommandEvidence.expire at) h =
    let (u, _, k) = >>=-eq-ok (reject_if (ltb_ℤ at c.expires_at) _) _ h in pair_at k
target_of-at c (CommandEvidence.cancel at) h = pair_at h

pub evidence_target-at :
    (c : ExecutionCommand) (e : CommandEvidence) {p : ExecutionCommandStatus × ℤ}
    → evidence_target c e ≡ ok p
    → p.1 ≡ evidence_at e
unfolding evidence_target
evidence_target-at c e h =
    let (q, a, k) = >>=-eq-ok (target_of c e) _ h in
    let (u, _, m) = >>=-eq-ok (reject_if (is_negative q.1) _) _ k in pair_at m ∙ target_of-at c e a

-- Whether a recorded time is after `at`.
abbrev pub after : ℤ → Option ℤ → Bool
after at o = is_some_and (λ t. ltb_ℤ at t) o

ltb_ℤ-later : (at t : ℤ) (o : Option ℤ) → ltb_ℤ at (later t o) ≡ (ltb_ℤ at t || after at o)
ltb_ℤ-later at t none = ground arith
ltb_ℤ-later at t (some u) = ground arith

abbrev latest_parts : ℤ → ExecutionCommandState → Bool
latest_parts at s =
    (((ltb_ℤ at s.created_at || after at s.dispatched_at) || after at s.command_received_at)
      || after at s.reconciling_at)
    || after at s.completed_at

ltb_ℤ-latest :
    (at : ℤ) (s : ExecutionCommandState)
    → ltb_ℤ at (latest_lifecycle_evidence_at s) ≡ latest_parts at s
unfolding latest_lifecycle_evidence_at
ltb_ℤ-latest at s =
    rw
      (
        ltb_ℤ-later at _ s.completed_at,
        ltb_ℤ-later at _ s.reconciling_at,
        ltb_ℤ-later at _ s.command_received_at,
        ltb_ℤ-later at _ s.dispatched_at,
      )
      refl

pub ltb_ℤ-self : (t : ℤ) → ltb_ℤ t t ≡ false
ltb_ℤ-self t = ground arith

pub eqb_ℤ-self : (t : ℤ) → eqb_ℤ t t ≡ true
eqb_ℤ-self t = ground arith

after-get_or_insert :
    (at : ℤ) (o : Option ℤ) → after at o ≡ false → after at (get_or_insert o at) ≡ false
after-get_or_insert at none h = ltb_ℤ-self at
after-get_or_insert at (some t) h = h

-- The times of a state, none of which is after `at`.
pub record Precedes (at : ℤ) (s : ExecutionCommandState) : Type 0 where
  pub created_at : ltb_ℤ at s.created_at ≡ false
  pub dispatched_at : after at s.dispatched_at ≡ false
  pub command_received_at : after at s.command_received_at ≡ false
  pub reconciling_at : after at s.reconciling_at ≡ false
  pub completed_at : after at s.completed_at ≡ false

pub latest-Precedes :
    (at : ℤ) (s : ExecutionCommandState)
    → ltb_ℤ at (latest_lifecycle_evidence_at s) ≡ false
    → Precedes at s
latest-Precedes at s h = record {
  created_at = ground (arith, ltb_ℤ-latest at s);
  dispatched_at = ground (arith, ltb_ℤ-latest at s);
  command_received_at = ground (arith, ltb_ℤ-latest at s);
  reconciling_at = ground (arith, ltb_ℤ-latest at s);
  completed_at = ground (arith, ltb_ℤ-latest at s);
}

pub Precedes-latest :
    (at : ℤ) (s : ExecutionCommandState)
    → Precedes at s
    → ltb_ℤ at (latest_lifecycle_evidence_at s) ≡ false
Precedes-latest at s h =
    rw
      (
        ltb_ℤ-latest at s,
        h.created_at,
        h.dispatched_at,
        h.command_received_at,
        h.reconciling_at,
        h.completed_at,
      )
      refl

renewed :
    {at : ℤ} {s : ExecutionCommandState} (t : ExecutionCommandState)
    {received reconciling dispatched : Option ℤ} {attempts : ℕ} {error : Option String}
    → Precedes at s
    → after at dispatched ≡ false
    → after at received ≡ false
    → after at reconciling ≡ false
    → ◌≡◌ {A = Result CommandTransitionError ExecutionCommandState}
        (ok (record s {
          delivery_attempts = attempts;
          last_delivery_error = error;
          dispatched_at = dispatched;
          command_received_at = received;
          reconciling_at = reconciling;
        }))
        (ok t)
    → Precedes at t
renewed {at} t h a b c e = subst (Precedes at) (ok-injective e) (record {
  created_at = h.created_at;
  dispatched_at = a;
  command_received_at = b;
  reconciling_at = c;
  completed_at = h.completed_at;
})

pub write_evidence-Precedes :
    (e : CommandEvidence) (s t : ExecutionCommandState)
    → Precedes (evidence_at e) s
    → write_evidence e s ≡ ok t
    → Precedes (evidence_at e) t
unfolding write_evidence evidence_at
write_evidence-Precedes (CommandEvidence.dispatched at) s t p h =
    let (n, e, k) = >>=-eq-ok (next_attempt s.delivery_attempts) _ h in
    renewed t p (ltb_ℤ-self at) p.command_received_at p.reconciling_at k
write_evidence-Precedes (CommandEvidence.delivery_unconfirmed at error) s t p h =
    let (n, e, k) = >>=-eq-ok (reject_if (is_blank error) _) _ h in
    renewed t p p.dispatched_at p.command_received_at p.reconciling_at k
write_evidence-Precedes (CommandEvidence.begin_reconciliation at) s t p h =
    renewed t p p.dispatched_at p.command_received_at
      (after-get_or_insert at s.reconciling_at p.reconciling_at) h
write_evidence-Precedes (CommandEvidence.require_manual_reconciliation at) s t p h =
    renewed t p p.dispatched_at p.command_received_at
      (after-get_or_insert at s.reconciling_at p.reconciling_at) h
write_evidence-Precedes (CommandEvidence.received_recorded r) s t p h =
    renewed t p p.dispatched_at
      (after-get_or_insert r.received_at s.command_received_at p.command_received_at)
      p.reconciling_at h
write_evidence-Precedes (CommandEvidence.received_duplicate_known_same_payload r) s t p h =
    renewed t p p.dispatched_at
      (after-get_or_insert r.received_at s.command_received_at p.command_received_at)
      p.reconciling_at h
write_evidence-Precedes (CommandEvidence.execution_event e) s t p h =
    renewed t p p.dispatched_at p.command_received_at p.reconciling_at h
write_evidence-Precedes (CommandEvidence.expire at) s t p h =
    renewed t p p.dispatched_at p.command_received_at p.reconciling_at h
write_evidence-Precedes (CommandEvidence.cancel at) s t p h =
    renewed t p p.dispatched_at p.command_received_at p.reconciling_at h

pub complete-Precedes :
    (target : ExecutionCommandStatus) (at : ℤ) (s : ExecutionCommandState)
    → Precedes at s
    → Precedes at (complete target at s)
unfolding complete
complete-Precedes target at s p = elim (Bool-cases (command_status_is_terminal target)) [
  | inl e ↦ rw e (record {
    created_at = p.created_at;
    dispatched_at = p.dispatched_at;
    command_received_at = p.command_received_at;
    reconciling_at = p.reconciling_at;
    completed_at = ltb_ℤ-self at;
  })
  | inr e ↦ rw e p
]
