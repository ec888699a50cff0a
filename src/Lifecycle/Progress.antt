-- ===== src/Lifecycle/Progress.antt =====
-- crates/execution/src/state.rs: what every accepted piece of evidence keeps of a command's state, and
-- what it moves.
use sinan.Prelude.{
  ℕ, ◌≤◌, ℤ, pos, String, Option, none, some, ◌≡◌, refl, subst, arith, Result, ok, >>=-eq-ok,
  reject_if, ok-injective, ok_or, ok_or-eq-ok, ◌+ℤ◌, ◌<ℤ◌, checked_add, checked_add_eq, +ℤ_parts,
  max_ℤ, pos_part-pos, neg_part-pos, is_blank,
}
use sinan.Types.Command.{ExecutionCommandState}
use sinan.Lifecycle.Valid.{CommandTransitionError}
use sinan.Lifecycle.Evidence.{CommandEvidence}
use sinan.Lifecycle.Transition.{next_version, next_attempt, get_or_insert, write_evidence}

abbrev pub KeptTime : Option ℤ → Option ℤ → Type 0
KeptTime before after = (at : ℤ) → before ≡ some at → after ≡ some at

-- What the state after a piece of evidence keeps: the identity, the creation, every receipt and
-- reconciliation time that is recorded, and the count of the attempts, which does not fall.
pub record Keeps (s t : ExecutionCommandState) : Type 0 where
  pub command_id : t.command_id ≡ s.command_id
  pub account_id : t.account_id ≡ s.account_id
  pub plan_id : t.plan_id ≡ s.plan_id
  pub leg_id : t.leg_id ≡ s.leg_id
  pub created_at : t.created_at ≡ s.created_at
  pub received : KeptTime s.command_received_at t.command_received_at
  pub reconciling : KeptTime s.reconciling_at t.reconciling_at
  pub attempts : s.delivery_attempts ≤ t.delivery_attempts

-- The fields that the evidence itself does not write.
abbrev pub SameVersion : ExecutionCommandState → ExecutionCommandState → Type 0
SameVersion s t =
    (t.status ≡ s.status) × (t.updated_at ≡ s.updated_at) × (t.completed_at ≡ s.completed_at)

get_or_insert_kept : (o : Option ℤ) (u : ℤ) → KeptTime o (get_or_insert o u)
get_or_insert_kept none u at h = cc
get_or_insert_kept (some t) u at h = h

next_attempt_le : (n : ℕ) {m : ℕ} → next_attempt n ≡ ok m → n ≤ m
unfolding next_attempt
next_attempt_le n h = ground arith

-- A state that differs only in the times of receipt and of reconciliation, which are kept, in the
-- attempts, which do not fall, in the dispatch and in the delivery error.
written :
    (s : ExecutionCommandState) (received reconciling dispatched : Option ℤ) (attempts : ℕ)
    (error : Option String) {t : ExecutionCommandState}
    → KeptTime s.command_received_at received
    → KeptTime s.reconciling_at reconciling
    → s.delivery_attempts ≤ attempts
    → ◌≡◌ {A = Result CommandTransitionError ExecutionCommandState}
        (ok (record s {
          delivery_attempts = attempts;
          last_delivery_error = error;
          dispatched_at = dispatched;
          command_received_at = received;
          reconciling_at = reconciling;
        }))
        (ok t)
    → Keeps s t × SameVersion s t
written s received reconciling dispatched attempts error a b c h =
    subst (λ t. Keeps s t × SameVersion s t) (ok-injective h)
      (
        record {
          command_id = refl;
          account_id = refl;
          plan_id = refl;
          leg_id = refl;
          created_at = refl;
          received = a;
          reconciling = b;
          attempts = c;
        },
        (refl, refl, refl),
      )

pub kept : (o : Option ℤ) → KeptTime o o
kept o at h = h

pub write_evidence-Keeps :
    (e : CommandEvidence) (s : ExecutionCommandState) {t : ExecutionCommandState}
    → write_evidence e s ≡ ok t
    → Keeps s t × SameVersion s t
unfolding write_evidence
write_evidence-Keeps (CommandEvidence.dispatched at) s h =
    let (n, e, k) = >>=-eq-ok (next_attempt s.delivery_attempts) _ h in
    written s s.command_received_at s.reconciling_at (some at) n none (kept s.command_received_at)
      (kept s.reconciling_at) (next_attempt_le s.delivery_attempts e) k
write_evidence-Keeps (CommandEvidence.delivery_unconfirmed at error) s h =
    let (n, e, k) = >>=-eq-ok (reject_if (is_blank error) _) _ h in
    written s s.command_received_at s.reconciling_at s.dispatched_at s.delivery_attempts
      (some error) (kept s.command_received_at) (kept s.reconciling_at) (omega arith) k
write_evidence-Keeps (CommandEvidence.begin_reconciliation at) s h =
    written s s.command_received_at (get_or_insert s.reconciling_at at) s.dispatched_at
      s.delivery_attempts s.last_delivery_error (kept s.command_received_at)
      (get_or_insert_kept s.reconciling_at at) (omega arith) h
write_evidence-Keeps (CommandEvidence.require_manual_reconciliation at) s h =
    written s s.command_received_at (get_or_insert s.reconciling_at at) s.dispatched_at
      s.delivery_attempts s.last_delivery_error (kept s.command_received_at)
      (get_or_insert_kept s.reconciling_at at) (omega arith) h
write_evidence-Keeps (CommandEvidence.received_recorded r) s h =
    written s (get_or_insert s.command_received_at r.received_at) s.reconciling_at s.dispatched_at
      s.delivery_attempts s.last_delivery_error
      (get_or_insert_kept s.command_received_at r.received_at) (kept s.reconciling_at) (omega arith)
      h
write_evidence-Keeps (CommandEvidence.received_duplicate_known_same_payload r) s h =
    written s (get_or_insert s.command_received_at r.received_at) s.reconciling_at s.dispatched_at
      s.delivery_attempts s.last_delivery_error
      (get_or_insert_kept s.command_received_at r.received_at) (kept s.reconciling_at) (omega arith)
      h
write_evidence-Keeps (CommandEvidence.execution_event e) s h =
    written s s.command_received_at s.reconciling_at s.dispatched_at s.delivery_attempts
      s.last_delivery_error (kept s.command_received_at) (kept s.reconciling_at) (omega arith) h
write_evidence-Keeps (CommandEvidence.expire at) s h =
    written s s.command_received_at s.reconciling_at s.dispatched_at s.delivery_attempts
      s.last_delivery_error (kept s.command_received_at) (kept s.reconciling_at) (omega arith) h
write_evidence-Keeps (CommandEvidence.cancel at) s h =
    written s s.command_received_at s.reconciling_at s.dispatched_at s.delivery_attempts
      s.last_delivery_error (kept s.command_received_at) (kept s.reconciling_at) (omega arith) h

after_sum : (a v : ℤ) → a +ℤ pos 1 ≡ v → a <ℤ v
after_sum a v h =
    subst (λ w. a <ℤ w) h (omega (arith, +ℤ_parts a (pos 1), pos_part-pos 1, neg_part-pos 1))

after_max : (a v at : ℤ) → a <ℤ v → a <ℤ max_ℤ v at
after_max a v at h = ground arith

pub next_version-later :
    (s : ExecutionCommandState) (at : ℤ) {v : ℤ} → next_version s at ≡ ok v → s.updated_at <ℤ v
unfolding next_version
next_version-later s at h =
    let (v, e, k) =
      >>=-eq-ok (ok_or (checked_add s.updated_at (pos 1)) CommandTransitionError.version_overflow)
        (λ version. ok (max_ℤ version at)) h in
    let eq =
      checked_add_eq s.updated_at (pos 1) (ok_or-eq-ok (checked_add s.updated_at (pos 1)) _ e) in
    subst (λ w. s.updated_at <ℤ w) (ok-injective k)
      (after_max s.updated_at v at (after_sum s.updated_at v eq))
