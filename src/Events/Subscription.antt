-- ===== src/Events/Subscription.antt =====
-- crates/events/src/lib.rs: `EventSubscription::recv`. The channel of tokio is what its receiver returns
-- in turn; a call that finds nothing left waits, which is `none`.
use sinan.Prelude.{
  ℕ, zero, suc, List, [], ◌∷◌, Bool, not, ◌||◌, Option, none, some, leb, if◌then◌else◌,
}
use sinan.Events.Filter.{EventStreamRecord, EventStreamFilter, matches}

pub data SubscriptionCloseReason : Type 0 where
  slow_consumer : (skipped : ℕ) → SubscriptionCloseReason
  manager_closed : SubscriptionCloseReason

pub data SubscriptionOutcome : Type 0 where
  event : EventStreamRecord → SubscriptionOutcome
  closed : SubscriptionCloseReason → SubscriptionOutcome

-- What `broadcast::Receiver::recv` returns.
pub data Received : Type 0 where
  live : EventStreamRecord → Received
  lagged : (skipped : ℕ) → Received
  channel_closed : Received

pub record EventSubscription : Type 0 where
  pub replay : List EventStreamRecord
  pub filter : EventStreamFilter
  pub high_water : ℕ
  pub last_delivered_sequence : ℕ
  pub terminal : Option SubscriptionCloseReason

-- A call's outcome, the subscription after it, and what the channel has left.
pub record Call : Type 0 where
  pub outcome : Option SubscriptionOutcome
  pub next : EventSubscription
  pub inbox : List Received

unfoldable pub close : EventSubscription → SubscriptionCloseReason → List Received → Call
close s reason inbox = record {
  outcome = some (closed reason);
  next = record s { terminal = some reason };
  inbox = inbox;
}

unfoldable pub is_passed : EventSubscription → EventStreamRecord → Bool
is_passed s r =
    leb r.stream_sequence s.high_water
    || leb r.stream_sequence s.last_delivered_sequence
    || not (matches s.filter r)

-- The `loop`.
unfoldable pub receive_live : EventSubscription → List Received → Call
receive_live s [] = record { outcome = none; next = s; inbox = [] }
receive_live s (live r ∷ inbox) =
    let later = receive_live s inbox in
    if is_passed s r then later else record {
      outcome = some (event r);
      next = record s { last_delivered_sequence = r.stream_sequence };
      inbox = inbox;
    }
receive_live s (lagged skipped ∷ inbox) = close s (slow_consumer skipped) inbox
receive_live s (channel_closed ∷ inbox) = close s manager_closed inbox

-- `recv` on an open subscription.
unfoldable pub receive_open : EventSubscription → List EventStreamRecord → List Received → Call
receive_open s [] inbox = receive_live s inbox
receive_open s (r ∷ replay) inbox = record {
  outcome = some (event r);
  next = record s { replay = replay; last_delivered_sequence = r.stream_sequence };
  inbox = inbox;
}

unfoldable pub recv_by : Option SubscriptionCloseReason → EventSubscription → List Received → Call
recv_by (some reason) s inbox = record { outcome = some (closed reason); next = s; inbox = inbox }
recv_by none s inbox = receive_open s s.replay inbox

unfoldable pub recv : EventSubscription → List Received → Call
recv s inbox = recv_by s.terminal s inbox

-- The outcomes of `calls` calls, up to one that waits.
abbrev pub and_then :
    Option SubscriptionOutcome → List SubscriptionOutcome → List SubscriptionOutcome
and_then none later = []
and_then (some outcome) later = outcome ∷ later

unfoldable pub drain : ℕ → EventSubscription → List Received → List SubscriptionOutcome
drain zero s inbox = []
drain (suc calls) s inbox =
    let call = recv s inbox in and_then call.outcome (drain calls call.next call.inbox)
