-- ===== src/Lifecycle/Checks.antt =====
-- crates/execution/src/state.rs: the tests that `validate_command_state` makes, one by one.
use sinan.Prelude.{
  true, false, not, ◌&&◌, ◌||◌, ◌≡◌, refl, ok, >>=-eq-ok, reject_if, reject_if-eq-ok, ltb_ℤ, leb_ℤ,
  ltb, is_negative, is_some, is_none_or, is_blank, bool_ne, decide_refl, decide_ne, sym, subst,
}
use sinan.Types.Enums.{
  ExecutionCommandStatus, ExecutionCommandStatus-discrete, created, delivery_unconfirmed,
}
use sinan.Types.Command.{ExecutionCommand, ExecutionCommandState}
use sinan.Lifecycle.Status.{command_status_is_terminal}
use sinan.Lifecycle.Valid.{
  is_status, validate_command_identity, differs, outside_bounds, requires_dispatch,
  requires_reconciling, requires_receipt, has_later_evidence, validate_times, validate_status,
  validate_command_state,
}

pub is_status-eq : {a b : ExecutionCommandStatus} → b ≡ a → is_status a b ≡ true
is_status-eq {a} {b} h =
    subst (λ c. is_status a c ≡ true) (sym h) (decide_refl ExecutionCommandStatus-discrete a)

pub is_status-ne : {a b : ExecutionCommandStatus} → ¬ (a ≡ b) → is_status a b ≡ false
is_status-ne {a} {b} h = decide_ne ExecutionCommandStatus-discrete a b h

pub record IsTimed (c : ExecutionCommand) (s : ExecutionCommandState) : Type 0 where
  pub versioned : (is_negative s.created_at || ltb_ℤ s.updated_at s.created_at) ≡ false
  pub unexpired : leb_ℤ c.expires_at s.created_at ≡ false
  pub terminal : bool_ne (command_status_is_terminal s.status) (is_some s.completed_at) ≡ false
  pub inside : outside_bounds s ≡ false

pub record IsStaged (s : ExecutionCommandState) : Type 0 where
  pub fresh : (is_status s.status created && has_later_evidence s) ≡ false
  pub attempted : bool_ne (is_some s.dispatched_at) (ltb 0 s.delivery_attempts) ≡ false
  pub sent : (requires_dispatch s.status && not (is_some s.dispatched_at)) ≡ false
  pub excused :
      (is_status s.status delivery_unconfirmed && is_none_or is_blank s.last_delivery_error) ≡ false
  pub reconciled : (requires_reconciling s.status && not (is_some s.reconciling_at)) ≡ false
  pub receipted : (requires_receipt s.status && not (is_some s.command_received_at)) ≡ false

pub record IsValid (c : ExecutionCommand) (s : ExecutionCommandState) : Type 0 where
  pub identity : validate_command_identity c ≡ ok tt
  pub belongs : differs c s ≡ false
  pub timed : IsTimed c s
  pub staged : IsStaged s

validate_times-IsTimed :
    (c : ExecutionCommand) (s : ExecutionCommandState) → validate_times c s ≡ ok tt → IsTimed c s
unfolding validate_times
validate_times-IsTimed c s h =
    let (_, a, h1) = >>=-eq-ok (reject_if (is_negative s.created_at || _) _) _ h in
    let (_, b, h2) = >>=-eq-ok (reject_if (leb_ℤ c.expires_at s.created_at) _) _ h1 in
    let (_, d, h3) = >>=-eq-ok (reject_if (bool_ne _ (is_some s.completed_at)) _) _ h2 in
    record {
      versioned = reject_if-eq-ok _ _ a;
      unexpired = reject_if-eq-ok _ _ b;
      terminal = reject_if-eq-ok _ _ d;
      inside = reject_if-eq-ok _ _ h3;
    }

validate_status-IsStaged : (s : ExecutionCommandState) → validate_status s ≡ ok tt → IsStaged s
unfolding validate_status
validate_status-IsStaged s h =
    let (_, a, h1) = >>=-eq-ok (reject_if (_ && has_later_evidence s) _) _ h in
    let (_, b, h2) = >>=-eq-ok (reject_if (bool_ne (is_some s.dispatched_at) _) _) _ h1 in
    let (_, d, h3) = >>=-eq-ok (reject_if (requires_dispatch s.status && _) _) _ h2 in
    let (_, e, h4) = >>=-eq-ok (reject_if (_ && is_none_or is_blank _) _) _ h3 in
    let (_, f, h5) = >>=-eq-ok (reject_if (requires_reconciling s.status && _) _) _ h4 in
    record {
      fresh = reject_if-eq-ok _ _ a;
      attempted = reject_if-eq-ok _ _ b;
      sent = reject_if-eq-ok _ _ d;
      excused = reject_if-eq-ok _ _ e;
      reconciled = reject_if-eq-ok _ _ f;
      receipted = reject_if-eq-ok _ _ h5;
    }

pub validate_command_state-IsValid :
    (c : ExecutionCommand) (s : ExecutionCommandState)
    → validate_command_state c s ≡ ok tt
    → IsValid c s
unfolding validate_command_state
validate_command_state-IsValid c s h =
    let (_, a, h1) = >>=-eq-ok (validate_command_identity c) _ h in
    let (_, b, h2) = >>=-eq-ok (reject_if (differs c s) _) _ h1 in
    let (_, d, h3) = >>=-eq-ok (validate_times c s) _ h2 in
    record {
      identity = a;
      belongs = reject_if-eq-ok _ _ b;
      timed = validate_times-IsTimed c s d;
      staged = validate_status-IsStaged s h3;
    }

validate_times-ok :
    (c : ExecutionCommand) (s : ExecutionCommandState) → IsTimed c s → validate_times c s ≡ ok tt
unfolding validate_times
validate_times-ok c s h = rw (h.versioned, h.unexpired, h.terminal, h.inside) refl

validate_status-ok : (s : ExecutionCommandState) → IsStaged s → validate_status s ≡ ok tt
unfolding validate_status
validate_status-ok s h =
    rw (h.fresh, h.attempted, h.sent, h.excused, h.reconciled, h.receipted) refl

pub IsValid-ok :
    (c : ExecutionCommand) (s : ExecutionCommandState)
    → IsValid c s
    → validate_command_state c s ≡ ok tt
unfolding validate_command_state
IsValid-ok c s h =
    rw (h.identity, h.belongs, validate_times-ok c s h.timed, validate_status-ok s h.staged) refl
