-- ===== src/Lifecycle/Creation.antt =====
-- crates/execution/src/state.rs: the first state of a command, and its first move.
use sinan.Prelude.{
  ℤ, false, not, ◌||◌, Option, none, some, ◌≡◌, ◌↔◌, refl, ap, arith, ok, >>=-eq-ok, reject_if,
  reject_if-eq-ok, ok-injective, leb_ℤ, is_negative, String, str_ne, opt_str_ne,
}
use text.Mathlib.TextEquality.{eq_iff}
use sinan.Types.Enums.{created, delivery_unconfirmed}
use sinan.Types.Command.{ExecutionCommand, ExecutionCommandState}
use sinan.Lifecycle.Status.{command_status_is_terminal}
use sinan.Lifecycle.Valid.{
  validate_command_identity, outside, outside_bounds, requires_dispatch, requires_reconciling,
  requires_receipt, has_later_evidence, validate_command_state,
}
use sinan.Lifecycle.Transition.{initial, initial_command_state}
use sinan.Lifecycle.Checks.{IsValid, IsValid-ok, is_status-ne}

str_ne_self : (s : String) → str_ne s s ≡ false
str_ne_self s = ap not ((eq_iff s s).1 refl)

opt_str_ne_self : (o : Option String) → opt_str_ne o o ≡ false
opt_str_ne_self none = refl
opt_str_ne_self (some s) = str_ne_self s

initial-IsValid :
    (c : ExecutionCommand) (at : ℤ)
    → validate_command_identity c ≡ ok tt
    → is_negative at ≡ false
    → leb_ℤ c.expires_at at ≡ false
    → IsValid c (initial c at)
unfolding initial command_status_is_terminal outside_bounds outside has_later_evidence
    requires_dispatch requires_reconciling requires_receipt
initial-IsValid c at identity nonneg early = record {
  identity = identity;
  belongs =
      rw
        (
          str_ne_self c.command_id,
          str_ne_self c.account_id,
          opt_str_ne_self c.plan_id,
          opt_str_ne_self c.leg_id,
        )
        refl;
  timed = record { versioned = ground arith; unexpired = early; terminal = refl; inside = refl };
  staged = record {
    fresh = ground arith;
    attempted = refl;
    sent = refl;
    excused = rw (is_status-ne {a = created} {b = delivery_unconfirmed} (λ e. cc)) refl;
    reconciled = refl;
    receipted = refl;
  };
}

-- A state is made for a command exactly if the command's identity is complete and the time of creation
-- is not negative and precedes the expiry; the state is then the initial one.
pub initial_command_state_iff :
    (c : ExecutionCommand) (at : ℤ) (s : ExecutionCommandState)
    → (initial_command_state c at ≡ ok s) ↔ (
        (validate_command_identity c ≡ ok tt)
        × (is_negative at ≡ false)
        × (leb_ℤ c.expires_at at ≡ false)
        × (initial c at ≡ s))
unfolding initial_command_state
initial_command_state_iff c at s = (
  (λ h.
      let (_, a, h1) = >>=-eq-ok (validate_command_identity c) _ h in
      let (_, b, h2) = >>=-eq-ok (reject_if (is_negative at || leb_ℤ c.expires_at at) _) _ h1 in
      let (_, _, h3) = >>=-eq-ok (validate_command_state c (initial c at)) _ h2 in
      let test = reject_if-eq-ok (is_negative at || leb_ℤ c.expires_at at) _ b in
      (a, ground arith, ground arith, ok-injective h3)),
  (λ h.
      let (a, b, d, e) = h in
      rw (a, b, d, IsValid-ok c (initial c at) (initial-IsValid c at a b d), e) refl),
)
