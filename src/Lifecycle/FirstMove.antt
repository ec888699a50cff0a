-- ===== src/Lifecycle/FirstMove.antt =====
-- crates/execution/src/state.rs: the state of a created command, and those of its first move.
use sinan.Prelude.{
  ◌+◌, ℤ, pos, Bool, true, false, ◌&&◌, ◌||◌, Option, none, some, ◌≡◌, refl, sym, arith, ok, ltb_ℤ,
  is_negative, is_some, bool_ne, max_ℤ, ◌<ℤ◌, ◌≤ℤ◌, i64_max, checked_add, in_i64, ◌+ℤ◌,
}
use sinan.Types.Enums.{ExecutionCommandStatus, created, dispatched, delivery_unconfirmed, expired}
use sinan.Types.Command.{ExecutionCommand, ExecutionCommandState}
use sinan.Lifecycle.Status.{command_status_is_terminal}
use sinan.Lifecycle.Valid.{
  is_status, outside, outside_bounds, requires_dispatch, requires_reconciling, requires_receipt,
  has_later_evidence, latest_lifecycle_evidence_at,
}
use sinan.Lifecycle.Transition.{next_version}
use sinan.Lifecycle.Checks.{IsValid, is_status-ne, is_status-eq}

-- What a valid state of a created command has.
pub record IsFresh (s : ExecutionCommandState) : Type 0 where
  pub status : s.status ≡ created
  pub attempts : s.delivery_attempts ≡ 0
  pub dispatched_at : s.dispatched_at ≡ none
  pub command_received_at : s.command_received_at ≡ none
  pub reconciling_at : s.reconciling_at ≡ none
  pub completed_at : s.completed_at ≡ none

no_later :
    (s : ExecutionCommandState)
    → has_later_evidence s ≡ false
    → (s.delivery_attempts ≡ 0)
      × (s.dispatched_at ≡ none)
      × (s.command_received_at ≡ none)
      × (s.reconciling_at ≡ none)
unfolding has_later_evidence
no_later s h = ground arith

no_completion :
    (status : ExecutionCommandStatus) (o : Option ℤ)
    → status ≡ created
    → bool_ne (command_status_is_terminal status) (is_some o) ≡ false
    → o ≡ none
unfolding command_status_is_terminal
no_completion status o e h = ground arith

and_true : (a b : Bool) → a ≡ true → (a && b) ≡ false → b ≡ false
and_true a b h k = ground arith

pub IsValid-IsFresh :
    (c : ExecutionCommand) (s : ExecutionCommandState)
    → IsValid c s
    → s.status ≡ created
    → IsFresh s
IsValid-IsFresh c s v e =
    let (a, b, d, f) =
      no_later s (and_true (is_status s.status created) _ (is_status-eq (sym e)) v.staged.fresh) in
    record {
      status = e;
      attempts = a;
      dispatched_at = b;
      command_received_at = d;
      reconciling_at = f;
      completed_at = no_completion s.status s.completed_at e v.timed.terminal;
    }

pub latest-IsFresh :
    (s : ExecutionCommandState) → IsFresh s → latest_lifecycle_evidence_at s ≡ s.created_at
unfolding latest_lifecycle_evidence_at
latest-IsFresh s f =
    rw (f.dispatched_at, f.command_received_at, f.reconciling_at, f.completed_at) refl

in_i64-successor : (a : ℤ) → is_negative a ≡ false → a <ℤ pos i64_max → in_i64 (a +ℤ pos 1) ≡ true
unfolding ◌+ℤ◌
in_i64-successor a h k = ground arith

pub next_version-ok :
    (s : ExecutionCommandState) (at : ℤ)
    → is_negative s.updated_at ≡ false
    → s.updated_at <ℤ pos i64_max
    → next_version s at ≡ ok (max_ℤ (s.updated_at +ℤ pos 1) at)
unfolding next_version checked_add
next_version-ok s at h k = rw (in_i64-successor s.updated_at h k) refl

unfoldable pub sent : ExecutionCommandState → ℤ → ℤ → ExecutionCommandState
sent s at version = record s {
  status = dispatched;
  updated_at = version;
  delivery_attempts = s.delivery_attempts + 1;
  dispatched_at = some at;
  last_delivery_error = none;
}

unfoldable pub lapsed : ExecutionCommandState → ℤ → ℤ → ExecutionCommandState
lapsed s at version = record s { status = expired; updated_at = version; completed_at = some at }

in_order : (made at v : ℤ) → made ≤ℤ at → at ≤ℤ v → (ltb_ℤ at made || ltb_ℤ v at) ≡ false
in_order made at v h k = ground arith

not_before :
    (made v : ℤ) (b : Bool)
    → (is_negative made || b) ≡ false
    → made ≤ℤ v
    → (is_negative made || ltb_ℤ v made) ≡ false
not_before made v b h k = ground arith

pub sent-IsValid :
    (c : ExecutionCommand) (s : ExecutionCommandState) (at v : ℤ)
    → IsValid c s
    → IsFresh s
    → s.created_at ≤ℤ at
    → at ≤ℤ v
    → IsValid c (sent s at v)
unfolding sent command_status_is_terminal outside_bounds outside has_later_evidence
    requires_dispatch requires_reconciling requires_receipt
sent-IsValid c s at v valid f h k = record {
  identity = valid.identity;
  belongs = valid.belongs;
  timed = record {
    versioned = not_before s.created_at v _ valid.timed.versioned (omega (arith, h, k));
    unexpired = valid.timed.unexpired;
    terminal = rw f.completed_at refl;
    inside =
        rw (f.command_received_at, f.reconciling_at, f.completed_at, in_order s.created_at at v h k)
          refl;
  };
  staged = record {
    fresh = rw (is_status-ne {a = dispatched} {b = created} (λ e. cc)) refl;
    attempted = rw f.attempts refl;
    sent = refl;
    excused = rw (is_status-ne {a = dispatched} {b = delivery_unconfirmed} (λ e. cc)) refl;
    reconciled = refl;
    receipted = refl;
  };
}

pub lapsed-IsValid :
    (c : ExecutionCommand) (s : ExecutionCommandState) (at v : ℤ)
    → IsValid c s
    → IsFresh s
    → s.created_at ≤ℤ at
    → at ≤ℤ v
    → IsValid c (lapsed s at v)
unfolding lapsed command_status_is_terminal outside_bounds outside has_later_evidence
    requires_dispatch requires_reconciling requires_receipt
lapsed-IsValid c s at v valid f h k = record {
  identity = valid.identity;
  belongs = valid.belongs;
  timed = record {
    versioned = not_before s.created_at v _ valid.timed.versioned (omega (arith, h, k));
    unexpired = valid.timed.unexpired;
    terminal = refl;
    inside =
        rw
          (f.dispatched_at, f.command_received_at, f.reconciling_at, in_order s.created_at at v h k)
          refl;
  };
  staged = record {
    fresh = rw (is_status-ne {a = expired} {b = created} (λ e. cc)) refl;
    attempted = rw (f.dispatched_at, f.attempts) refl;
    sent = refl;
    excused = rw (is_status-ne {a = expired} {b = delivery_unconfirmed} (λ e. cc)) refl;
    reconciled = refl;
    receipted = refl;
  };
}
