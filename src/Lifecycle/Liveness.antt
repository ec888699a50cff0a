-- ===== src/Lifecycle/Liveness.antt =====
-- crates/execution/src/state.rs: a command that is created is dispatched or expires.
use sinan.Prelude.{
  ℕ, ◌+◌, ℤ, pos, true, false, ◌||◌, none, ◌≡◌, refl, sym, ◌∙◌, inl, inr, ◌⊎◌, arith, ok, ltb_ℤ,
  leb_ℤ, is_negative, max_ℤ, ◌<ℤ◌, ◌≤ℤ◌, Bool-cases, i64_max, ◌+ℤ◌, if◌then◌else◌, one_part,
}
use sinan.Types.Enums.{ExecutionCommandStatus, created, dispatched, expired}
use sinan.Types.Command.{ExecutionCommand, ExecutionCommandState}
use sinan.Lifecycle.Status.{command_status_is_terminal, transition_is_allowed}
use sinan.Lifecycle.Valid.{is_status, validate_command_state, later, latest_lifecycle_evidence_at}
use sinan.Lifecycle.Evidence.{
  CommandEvidence, validate_before_expiry, target_of, evidence_target, receipt_evidence,
}
use sinan.Lifecycle.Transition.{
  applied, next_version, next_attempt, write_evidence, complete, is_local, move, by_receipt,
  filled_before, transition_command,
}
use sinan.Lifecycle.Checks.{
  IsValid, IsValid-ok, validate_command_state-IsValid, is_status-ne, is_status-eq,
}
use sinan.Lifecycle.FirstMove.{
  IsFresh, IsValid-IsFresh, latest-IsFresh, next_version-ok, sent, lapsed, sent-IsValid,
  lapsed-IsValid,
}

-- The evidence that a created command waits for at the time `at`.
unfoldable pub due : ExecutionCommand → ℤ → CommandEvidence
due c at =
    if leb_ℤ c.expires_at at then CommandEvidence.expire at else CommandEvidence.dispatched at

late_enough :
    (made version at : ℤ)
    → (is_negative made || ltb_ℤ version made) ≡ false
    → version ≤ℤ at
    → (is_negative at ≡ false)
      × (made ≤ℤ at)
      × (is_negative version ≡ false)
      × (ltb_ℤ at made ≡ false)
late_enough made version at h k = ground (arith, one_part made, one_part version, one_part at)

transition_command-by_receipt :
    (c : ExecutionCommand) (s : ExecutionCommandState) (e : CommandEvidence)
    (target : ExecutionCommandStatus) (at : ℤ)
    → validate_command_state c s ≡ ok tt
    → evidence_target c e ≡ ok (target, at)
    → filled_before e s.created_at ≡ false
    → ltb_ℤ at s.created_at ≡ false
    → transition_command c s e ≡ by_receipt c s e (receipt_evidence e) target at
unfolding transition_command
transition_command-by_receipt c s e target at valid h f made = rw (valid, h, f, made) refl

by_receipt-move :
    (c : ExecutionCommand) (s : ExecutionCommandState) (e : CommandEvidence)
    (target : ExecutionCommandStatus) (at : ℤ)
    → ltb_ℤ at (latest_lifecycle_evidence_at s) ≡ false
    → is_status target s.status ≡ false
    → by_receipt c s e none target at ≡ move c s e target at
unfolding by_receipt
by_receipt-move c s e target at h k = rw (h, k) refl

move-applied :
    (c : ExecutionCommand) (s : ExecutionCommandState) (e : CommandEvidence)
    (target : ExecutionCommandStatus) (at v : ℤ) (w : ExecutionCommandState)
    → is_status s.status created ≡ true
    → transition_is_allowed s.status target ≡ true
    → next_version s at ≡ ok v
    → write_evidence e (record s { status = target; updated_at = v }) ≡ ok w
    → validate_command_state c (complete target at w) ≡ ok tt
    → move c s e target at ≡ ok (applied (complete target at w))
unfolding move
move-applied c s e target at v w local allowed h k valid = elim (Bool-cases (is_local e)) [
  | inl q ↦ rw (q, local, allowed, h, k, valid) refl
  | inr q ↦ rw (q, allowed, h, k, valid) refl
]

dispatched-target :
    (c : ExecutionCommand) (at : ℤ)
    → leb_ℤ c.expires_at at ≡ false
    → is_negative at ≡ false
    → evidence_target c (CommandEvidence.dispatched at) ≡ ok (dispatched, at)
unfolding evidence_target target_of validate_before_expiry
dispatched-target c at e nonneg = rw (e, nonneg) refl

not_less : (a b : ℤ) → leb_ℤ a b ≡ true → ltb_ℤ b a ≡ false
not_less a b h = ground arith

expire-target :
    (c : ExecutionCommand) (at : ℤ)
    → leb_ℤ c.expires_at at ≡ true
    → is_negative at ≡ false
    → evidence_target c (CommandEvidence.expire at) ≡ ok (expired, at)
unfolding evidence_target target_of
expire-target c at e nonneg = rw (not_less c.expires_at at e, nonneg) refl

at_most_max : (a at : ℤ) → at ≤ℤ max_ℤ a at
at_most_max a at = ground arith

created-allowed :
    (status target : ExecutionCommandStatus)
    → status ≡ created
    → (target ≡ dispatched) ⊎ (target ≡ expired)
    → (transition_is_allowed status target ≡ true) × ¬ (target ≡ status)
unfolding transition_is_allowed
created-allowed status target h k = ground arith

zero_attempts : (n : ℕ) → n ≡ 0 → next_attempt n ≡ ok (n + 1)
unfolding next_attempt
zero_attempts n h = ground arith

module _ (c : ExecutionCommand) (s : ExecutionCommandState) (at : ℤ) (valid : IsValid c s)
    (f : IsFresh s) (h : s.updated_at ≤ℤ at) (k : s.updated_at <ℤ pos i64_max) where
  dispatches :
      leb_ℤ c.expires_at at ≡ false
      → transition_command c s (CommandEvidence.dispatched at)
        ≡ ok (applied (sent s at (max_ℤ (s.updated_at +ℤ pos 1) at)))
  unfolding sent complete write_evidence receipt_evidence filled_before command_status_is_terminal
  dispatches e =
      let v = max_ℤ (s.updated_at +ℤ pos 1) at in
      let (nonneg, later, early, made) =
        late_enough s.created_at s.updated_at at valid.timed.versioned h in
      let (allowed, moves) = created-allowed s.status dispatched f.status (inl refl) in
      transition_command-by_receipt c s _ dispatched at (IsValid-ok c s valid)
        (dispatched-target c at e nonneg) refl made
      ∙ by_receipt-move c s (CommandEvidence.dispatched at) dispatched at
          (rw (latest-IsFresh s f) made) (is_status-ne moves)
      ∙ move-applied c s (CommandEvidence.dispatched at) dispatched at v (sent s at v)
          (is_status-eq (sym f.status)) allowed (next_version-ok s at early k)
          (rw (zero_attempts s.delivery_attempts f.attempts) refl)
          (IsValid-ok c (sent s at v)
            (sent-IsValid c s at v valid f later (at_most_max (s.updated_at +ℤ pos 1) at)))

  expires :
      leb_ℤ c.expires_at at ≡ true
      → transition_command c s (CommandEvidence.expire at)
        ≡ ok (applied (lapsed s at (max_ℤ (s.updated_at +ℤ pos 1) at)))
  unfolding lapsed complete write_evidence receipt_evidence filled_before command_status_is_terminal
  expires e =
      let v = max_ℤ (s.updated_at +ℤ pos 1) at in
      let (nonneg, later, early, made) =
        late_enough s.created_at s.updated_at at valid.timed.versioned h in
      let (allowed, moves) = created-allowed s.status expired f.status (inr refl) in
      transition_command-by_receipt c s _ expired at (IsValid-ok c s valid)
        (expire-target c at e nonneg) refl made
      ∙ by_receipt-move c s (CommandEvidence.expire at) expired at (rw (latest-IsFresh s f) made)
          (is_status-ne moves)
      ∙ move-applied c s (CommandEvidence.expire at) expired at v
          (record s { status = expired; updated_at = v }) (is_status-eq (sym f.status)) allowed
          (next_version-ok s at early k) refl
          (IsValid-ok c (lapsed s at v)
            (lapsed-IsValid c s at v valid f later (at_most_max (s.updated_at +ℤ pos 1) at)))

-- A valid state of a created command is not stuck: at a time that does not precede its version, which
-- is below the largest 64-bit integer, the command is dispatched if it has not expired, and expires
-- otherwise.
pub created_moves :
    (c : ExecutionCommand) (s : ExecutionCommandState) (at : ℤ)
    → validate_command_state c s ≡ ok tt
    → s.status ≡ created
    → s.updated_at ≤ℤ at
    → s.updated_at <ℤ pos i64_max
    → (t : ExecutionCommandState) × (transition_command c s (due c at) ≡ ok (applied t))
      × (t.status ≡ (if leb_ℤ c.expires_at at then expired else dispatched))
unfolding due sent lapsed
created_moves c s at valid status h k =
    let v = validate_command_state-IsValid c s valid in
    let f = IsValid-IsFresh c s v status in
    elim (Bool-cases (leb_ℤ c.expires_at at)) [
      | inl e ↦ rw e (_, expires c s at v f h k e, refl)
      | inr e ↦ rw e (_, dispatches c s at v f h k e, refl)
    ]
