-- ===== src/Lifecycle/Graph.antt =====
-- crates/execution/src/state.rs: the graph of the statuses that `transition_is_allowed` spans.
use sinan.Prelude.{ℕ, suc, ◌+◌, ◌<◌, ◌≤◌, true, false, ◌≡◌, ◌↔◌, refl, arith}
use sinan.Types.Enums.{
  ExecutionCommandStatus, created, dispatched, delivery_unconfirmed, delivery_failed, reconciling,
  manual_reconciliation_required, command_received, accepted, order_sent, partially_filled, filled,
}
use sinan.Lifecycle.Status.{command_status_is_terminal, transition_is_allowed}

-- The number of allowed changes on the longest way to a status.
unfoldable pub depth : ExecutionCommandStatus → ℕ
depth created = 0
depth dispatched = 1
depth delivery_unconfirmed = 2
depth reconciling = 3
depth manual_reconciliation_required = 4
depth command_received = 5
depth accepted = 6
depth order_sent = 7
depth partially_filled = 8
depth _ = 9

pub allowed_depth :
    (from to : ExecutionCommandStatus)
    → transition_is_allowed from to ≡ true
    → depth from < depth to
unfolding transition_is_allowed depth
allowed_depth from to h = ground arith

-- `Changes n a b`: n allowed changes lead from `a` to `b`.
pub data Changes : ℕ → ExecutionCommandStatus → ExecutionCommandStatus → Type 0 where
  done : (a : ExecutionCommandStatus) → Changes 0 a a
  change :
      (n : ℕ) (a b c : ExecutionCommandStatus)
      → transition_is_allowed a b ≡ true
      → Changes n b c
      → Changes (suc n) a c

Changes-depth : (n : ℕ) (a b : ExecutionCommandStatus) → Changes n a b → depth a + n ≤ depth b
Changes-depth _ _ _ (done a) = omega arith
Changes-depth _ _ _ (change n a b c e rest) =
    omega (arith, allowed_depth a b e, Changes-depth n b c rest)

pub depth_le : (a : ExecutionCommandStatus) → depth a ≤ 9
unfolding depth
depth_le a = ground arith

-- The statuses have no cycle: any two statuses are at most nine allowed changes apart, and no allowed
-- changes, if there is at least one, lead from a status back to it.
pub Changes-bounded :
    (n : ℕ) (a b : ExecutionCommandStatus) → Changes n a b → (n ≤ 9) × (a ≡ b → n ≡ 0)
Changes-bounded n a b h =
    (omega (arith, Changes-depth n a b h, depth_le b), λ e. ground (arith, Changes-depth n a b h))

-- A status that leads on, for each that is not terminal.
unfoldable next_status : ExecutionCommandStatus → ExecutionCommandStatus
next_status created = dispatched
next_status dispatched = command_received
next_status delivery_unconfirmed = reconciling
next_status reconciling = command_received
next_status manual_reconciliation_required = command_received
next_status command_received = accepted
next_status accepted = order_sent
next_status order_sent = filled
next_status partially_filled = filled
next_status a = a

-- A status is terminal exactly if no change from it is allowed.
pub terminal_iff :
    (a : ExecutionCommandStatus)
    → (command_status_is_terminal a ≡ true)
      ↔ ((b : ExecutionCommandStatus) → transition_is_allowed a b ≡ false)
unfolding command_status_is_terminal transition_is_allowed next_status
terminal_iff a = ((λ h b. ground arith), λ h. let e = h (next_status a) in ground arith)

allowed_target :
    (a b : ExecutionCommandStatus) → transition_is_allowed a b ≡ true → ¬ (b ≡ delivery_failed)
unfolding transition_is_allowed
allowed_target a b h e = ground arith

Changes-target :
    (n : ℕ) (a b : ExecutionCommandStatus)
    → Changes n a b
    → ¬ (a ≡ delivery_failed)
    → ¬ (b ≡ delivery_failed)
Changes-target _ _ _ (done a) h = h
Changes-target _ _ _ (change n a b c e rest) h = Changes-target n b c rest (allowed_target a b e)

-- No allowed changes lead from another status to that of a failed delivery.
pub never_delivery_failed :
    (n : ℕ) (a : ExecutionCommandStatus) → ¬ (a ≡ delivery_failed) → ¬ Changes n a delivery_failed
never_delivery_failed n a other h = Changes-target n a delivery_failed h other refl
