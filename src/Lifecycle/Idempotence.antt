-- ===== src/Lifecycle/Idempotence.antt =====
-- crates/execution/src/state.rs: evidence that is delivered again.
use sinan.Prelude.{
  ℤ, Bool, not, ◌&&◌, Option, none, some, ◌≡◌, refl, sym, ◌∙◌, ap, subst, ◌⊎◌, inl, inr, Result, ok,
  ◌>>=◌, >>=-eq-ok, reject_if, reject_if-eq-ok, ok-injective, ltb_ℤ, eqb_ℤ, is_some_and, chosen,
}
use sinan.Types.Enums.{ExecutionCommandStatus, created}
use sinan.Types.Command.{ExecutionCommand, ExecutionCommandState, CommandReceived}
use sinan.Lifecycle.Status.{transition_is_allowed}
use sinan.Lifecycle.Valid.{is_status, validate_command_state, latest_lifecycle_evidence_at}
use sinan.Lifecycle.Evidence.{CommandEvidence, evidence_target, receipt_evidence}
use sinan.Lifecycle.Transition.{
  CommandTransitionOutcome, Transitioned, duplicate, outcome_state, next_version, outlasts_receipt,
  receipt_state, record_receipt, receipt_known, apply_receipt_evidence, write_evidence, complete,
  is_local, move, by_receipt, filled_before, transition_command,
}
use sinan.Lifecycle.Progress.{write_evidence-Keeps}
use sinan.Lifecycle.Advance.{
  Outcome, changed, repeated, transition_command-Outcome, err_not_ok, complete-status,
}
use sinan.Lifecycle.Checks.{is_status-eq}
use sinan.Lifecycle.Precedence.{
  evidence_at, evidence_target-at, eqb_ℤ-self, Precedes, latest-Precedes, Precedes-latest,
  write_evidence-Precedes, complete-Precedes,
}

-- `f` gives a duplicate on the state that it has left.
abbrev Again : (ExecutionCommandState → Transitioned) → CommandTransitionOutcome → Type 0
Again f x = f (outcome_state x) ≡ ok (duplicate (outcome_state x))

-- A duplicate repeats itself.
again :
    (f : ExecutionCommandState → Transitioned) (s : ExecutionCommandState)
    {x : CommandTransitionOutcome}
    → f s ≡ ok x
    → ◌≡◌ {A = Transitioned} (ok (duplicate s)) (ok x)
    → Again f x
unfolding outcome_state
again f s h e = subst (λ y. f s ≡ ok y → Again f y) (ok-injective e) (λ k. k) h

bind_ok :
    {E A B : Type 0} {r : Result E A} (next : A → Result E B) {a : A} {q : Result E B}
    → r ≡ ok a
    → next a ≡ q
    → (r >>= next) ≡ q
bind_ok next h k = rw h k

still :
    {E : Type 0} {b d : Bool} (e : E) {u : Unit {0}}
    → d ≡ b
    → reject_if b e ≡ ok u
    → reject_if d e ≡ ok u
still e {u} h = subst (λ x. reject_if x e ≡ ok u) (sym h)

record_receipt-again :
    (c : ExecutionCommand) (s : ExecutionCommandState) (status : ExecutionCommandStatus) (at : ℤ)
    (target : ExecutionCommandStatus) {x : CommandTransitionOutcome}
    → record_receipt c s status at ≡ ok x
    → (outcome_state x).dispatched_at ≡ s.dispatched_at
      × receipt_known c (outcome_state x) (outcome_state x).command_received_at at target
        ≡ ok (duplicate (outcome_state x))
unfolding record_receipt receipt_state receipt_known outcome_state
record_receipt-again c s status at target h =
    let (v, b, h1) = >>=-eq-ok (next_version s at) _ h in
    let (u, g, h2) = >>=-eq-ok (validate_command_state c (receipt_state s status at v)) _ h1 in
    subst
      (λ x.
        (outcome_state x).dispatched_at ≡ s.dispatched_at
        × receipt_known c (outcome_state x) (outcome_state x).command_received_at at target
          ≡ ok (duplicate (outcome_state x)))
      (ok-injective h2) (refl, rw (eqb_ℤ-self at) refl)

receipt_known-again :
    (c : ExecutionCommand) (s : ExecutionCommandState) (o : Option ℤ) (at : ℤ)
    (target : ExecutionCommandStatus) {x : CommandTransitionOutcome}
    → receipt_known c s o at target ≡ ok x
    → ◌≡◌ {A = Transitioned} (ok (duplicate s)) (ok x)
      ⊎ ((outcome_state x).dispatched_at ≡ s.dispatched_at
          × receipt_known c (outcome_state x) (outcome_state x).command_received_at at target
            ≡ ok (duplicate (outcome_state x)))
unfolding receipt_known
receipt_known-again c s (some recorded_at) at target {x} h =
    elim (chosen (λ r. r ≡ ok x) (eqb_ℤ recorded_at at) _ _ h) [
      | inl (_, p) ↦ inl p
      | inr (_, p) ↦ absurd (err_not_ok p)
    ]
receipt_known-again c s none at target {x} h =
    elim (chosen (λ r. r ≡ ok x) (transition_is_allowed s.status target) _ _ h) [
      | inl (_, k) ↦ inr (record_receipt-again c s target at target k)
      | inr (_, k) ↦ elim (chosen (λ r. r ≡ ok x) (outlasts_receipt s.status) _ _ k) [
        | inl (_, m) ↦ inr (record_receipt-again c s s.status at target m)
        | inr (_, m) ↦ absurd (err_not_ok m)
      ]
    ]

apply_receipt_evidence-Again :
    (c : ExecutionCommand) (s : ExecutionCommandState) (r : CommandReceived)
    (target : ExecutionCommandStatus) {x : CommandTransitionOutcome}
    → apply_receipt_evidence c s r target ≡ ok x
    → Again (λ s. apply_receipt_evidence c s r target) x
unfolding apply_receipt_evidence
apply_receipt_evidence-Again c s r target {x} h =
    let (u, a, k) = >>=-eq-ok (reject_if (is_some_and _ s.dispatched_at) _) _ h in
    elim (receipt_known-again c s s.command_received_at r.received_at target k) [
      | inl same ↦ again (λ s. apply_receipt_evidence c s r target) s h same
      | inr (d, m) ↦
          bind_ok _ {a = tt} (still _ (ap (λ o. is_some_and (λ at. ltb_ℤ r.received_at at) o) d) a)
            m
    ]

-- The status and the version are not times of the lifecycle.
moved :
    {at : ℤ} {s : ExecutionCommandState} (target : ExecutionCommandStatus) (version : ℤ)
    → Precedes at s
    → Precedes at (record s { status = target; updated_at = version })
moved target version p = record {
  created_at = p.created_at;
  dispatched_at = p.dispatched_at;
  command_received_at = p.command_received_at;
  reconciling_at = p.reconciling_at;
  completed_at = p.completed_at;
}

move-again :
    (c : ExecutionCommand) (s : ExecutionCommandState) (e : CommandEvidence)
    (target : ExecutionCommandStatus) {x : CommandTransitionOutcome}
    → Precedes (evidence_at e) s
    → move c s e target (evidence_at e) ≡ ok x
    → Precedes (evidence_at e) (outcome_state x) × ((outcome_state x).status ≡ target)
unfolding move outcome_state
move-again c s e target p h =
    let at = evidence_at e in
    let (u, _, h1) = >>=-eq-ok (reject_if (is_local e && not (is_status s.status created)) _) _ h in
    let (u, a, h2) = >>=-eq-ok (reject_if (not (transition_is_allowed s.status target)) _) _ h1 in
    let (v, b, h3) = >>=-eq-ok (next_version s at) _ h2 in
    let (w, d, h4) =
      >>=-eq-ok (write_evidence e (record s { status = target; updated_at = v })) _ h3 in
    let (u, g, h5) = >>=-eq-ok (validate_command_state c (complete target at w)) _ h4 in
    let (k, same) = write_evidence-Keeps e (record s { status = target; updated_at = v }) d in
    let (y, z) = complete-status target at w in
    let q =
      write_evidence-Precedes e (record s { status = target; updated_at = v }) w (moved target v p)
        d in
    subst (λ x. Precedes at (outcome_state x) × ((outcome_state x).status ≡ target))
      (ok-injective h5) (complete-Precedes target at w q, y ∙ same.0)

by_receipt-Again :
    (c : ExecutionCommand) (s : ExecutionCommandState) (e : CommandEvidence)
    (r : Option CommandReceived) (target : ExecutionCommandStatus) {x : CommandTransitionOutcome}
    → by_receipt c s e r target (evidence_at e) ≡ ok x
    → Again (λ s. by_receipt c s e r target (evidence_at e)) x
unfolding by_receipt
by_receipt-Again c s e (some r) target h = apply_receipt_evidence-Again c s r target h
by_receipt-Again c s e none target {x} h =
    let at = evidence_at e in
    let (u, a, k) = >>=-eq-ok (reject_if (ltb_ℤ at (latest_lifecycle_evidence_at s)) _) _ h in
    let p =
      latest-Precedes at s (reject_if-eq-ok (ltb_ℤ at (latest_lifecycle_evidence_at s)) _ a) in
    elim (chosen (λ r. r ≡ ok x) (is_status target s.status) _ _ k) [
      | inl (_, m) ↦ again (λ s. by_receipt c s e none target at) s h m
      | inr (_, m) ↦
          let (q, same) = move-again c s e target p m in
          rw (Precedes-latest at (outcome_state x) q, is_status-eq same) refl
    ]

Outcome-valid :
    {c : ExecutionCommand} {s : ExecutionCommandState} {x : CommandTransitionOutcome}
    → validate_command_state c s ≡ ok tt
    → Outcome c s x
    → (validate_command_state c (outcome_state x) ≡ ok tt)
      × ((outcome_state x).created_at ≡ s.created_at)
unfolding outcome_state
Outcome-valid valid repeated = (valid, refl)
Outcome-valid valid (changed t a) = (a.valid, a.keeps.created_at)

-- Evidence that a command has accepted is a duplicate when it is delivered again at once: the state
-- that it has left is accepted, and is not changed.
pub transition_command-again :
    (c : ExecutionCommand) (s : ExecutionCommandState) (e : CommandEvidence)
    (x : CommandTransitionOutcome)
    → transition_command c s e ≡ ok x
    → transition_command c (outcome_state x) e ≡ ok (duplicate (outcome_state x))
unfolding transition_command
transition_command-again c s e x h =
    let (u, v, h1) = >>=-eq-ok (validate_command_state c s) _ h in
    let (p, t, h2) = >>=-eq-ok (evidence_target c e) _ h1 in
    let (u, f, h3) = >>=-eq-ok (reject_if (filled_before e s.created_at) _) _ h2 in
    let (u, b, h4) = >>=-eq-ok (reject_if (ltb_ℤ p.1 s.created_at) _) _ h3 in
    let (w, when) = Outcome-valid v (transition_command-Outcome c s e h) in
    let at = evidence_target-at c e t in
    let last =
      subst (λ at. Again (λ s. by_receipt c s e (receipt_evidence e) p.0 at) x) (sym at)
        (by_receipt-Again c s e (receipt_evidence e) p.0
          (subst (λ at. by_receipt c s e (receipt_evidence e) p.0 at ≡ ok x) at h4)) in
    bind_ok _ {a = tt} w (
      bind_ok _ {a = p} t (
        bind_ok _ {a = tt} (still _ (ap (filled_before e) when) f)
          (bind_ok _ {a = tt} (still _ (ap (λ at. ltb_ℤ p.1 at) when) b) last)))
