-- ===== src/Events/Order.antt =====
-- crates/events/src/lib.rs: what a subscription delivers, over all calls.
use sinan.Prelude.{
  ℕ, zero, suc, ◌<◌, List, [], ◌∷◌, true, false, Option, none, some, ◌≡◌, refl, sym, subst, inl,
  inr, arith, Bool-cases,
}
use sinan.Events.Filter.{EventStreamRecord, EventStreamFilter, matches}
use sinan.Events.Subscription.{
  SubscriptionCloseReason, SubscriptionOutcome, event, closed, Received, live, lagged,
  channel_closed, EventSubscription, close, is_passed, receive_live, receive_open, recv_by, recv,
  and_then, drain,
}

-- A record that the filter lets through, with a sequence number above `last`.
abbrev pub IsNext : EventStreamFilter → ℕ → EventStreamRecord → Type 0
IsNext filter last r = (last < r.stream_sequence) × (matches filter r ≡ true)

-- Records that the filter lets through, whose sequence numbers rise from above `last`.
unfoldable pub Rising : EventStreamFilter → ℕ → List EventStreamRecord → Type 0
Rising filter last [] = Unit
Rising filter last (r ∷ rs) = IsNext filter last r × Rising filter r.stream_sequence rs

AllClosed : SubscriptionCloseReason → List SubscriptionOutcome → Type 0
AllClosed reason [] = Unit
AllClosed reason (o ∷ os) = (o ≡ closed reason) × AllClosed reason os

-- Outcomes of a subscription that has delivered records up to `last`. The records of its replay come
-- first, one after the other; then come records above the high water. All pass the filter, and rise.
-- The first closing comes after the replay, and ends the outcomes for good.
pub Delivers :
    EventStreamFilter → ℕ → List EventStreamRecord → ℕ → List SubscriptionOutcome → Type 0
Delivers filter high replay last [] = Unit
Delivers filter high (p ∷ replay) last (event r ∷ os) =
    (r ≡ p) × IsNext filter last r × Delivers filter high replay r.stream_sequence os
Delivers filter high [] last (event r ∷ os) =
    (high < r.stream_sequence) × IsNext filter last r × Delivers filter high [] r.stream_sequence os
Delivers filter high (p ∷ replay) last (closed reason ∷ os) = ⊥
Delivers filter high [] last (closed reason ∷ os) = AllClosed reason os

-- An open subscription with a filter, a high water and a replay, which passes the filter and rises.
record IsOpen (filter : EventStreamFilter) (high : ℕ) (replay : List EventStreamRecord)
    (s : EventSubscription) : Type 0 where
  opened : s.terminal ≡ none
  filtered : s.filter ≡ filter
  marked : s.high_water ≡ high
  left : s.replay ≡ replay
  replayed : Rising filter s.last_delivered_sequence replay

-- What a call does to a subscription with a replay.
Follows :
    EventStreamFilter
    → ℕ
    → List EventStreamRecord
    → ℕ
    → Option SubscriptionOutcome
    → EventSubscription
    → Type 0
Follows filter high replay last none next = Unit
Follows filter high (p ∷ replay) last (some (event r)) next =
    (r ≡ p)
    × IsNext filter last r
    × (next.last_delivered_sequence ≡ r.stream_sequence)
    × IsOpen filter high replay next
Follows filter high [] last (some (event r)) next =
    (high < r.stream_sequence)
    × IsNext filter last r
    × (next.last_delivered_sequence ≡ r.stream_sequence)
    × IsOpen filter high [] next
Follows filter high (p ∷ replay) last (some (closed reason)) next = ⊥
Follows filter high [] last (some (closed reason)) next = next.terminal ≡ some reason

not_passed-IsNext :
    (s : EventSubscription) (r : EventStreamRecord)
    → is_passed s r ≡ false
    → (s.high_water < r.stream_sequence) × IsNext s.filter s.last_delivered_sequence r
unfolding is_passed
not_passed-IsNext s r h = (ground arith, (ground arith, ground arith))

receive_live-Follows :
    (s : EventSubscription) (inbox : List Received)
    → s.terminal ≡ none
    → s.replay ≡ []
    → Follows s.filter s.high_water [] s.last_delivered_sequence
        (receive_live s inbox).outcome
        (receive_live s inbox).next
unfolding receive_live close Follows Rising
receive_live-Follows s [] fresh empty = tt
receive_live-Follows s (lagged n ∷ inbox) fresh empty = refl
receive_live-Follows s (channel_closed ∷ inbox) fresh empty = refl
receive_live-Follows s (live r ∷ inbox) fresh empty = elim (Bool-cases (is_passed s r)) [
  | inl e ↦ rw e (receive_live-Follows s inbox fresh empty)
  | inr e ↦
      let (above, next) = not_passed-IsNext s r e in
      rw e (
        above,
        next,
        refl,
        record { opened = fresh; filtered = refl; marked = refl; left = empty; replayed = tt },
      )
]

receive_open-Follows :
    (s : EventSubscription) (replay : List EventStreamRecord) (inbox : List Received)
    → s.terminal ≡ none
    → s.replay ≡ replay
    → Rising s.filter s.last_delivered_sequence replay
    → Follows s.filter s.high_water replay s.last_delivered_sequence
        (receive_open s replay inbox).outcome
        (receive_open s replay inbox).next
unfolding receive_open Follows Rising
receive_open-Follows s [] inbox fresh same h = receive_live-Follows s inbox fresh same
receive_open-Follows s (r ∷ replay) inbox fresh same (h, hs) = (
  refl,
  h,
  refl,
  record { opened = fresh; filtered = refl; marked = refl; left = refl; replayed = hs },
)

-- Of an open subscription, in terms of its own fields.
recv_by-Follows :
    (s : EventSubscription) (inbox : List Received)
    → s.terminal ≡ none
    → Rising s.filter s.last_delivered_sequence s.replay
    → Follows s.filter s.high_water s.replay s.last_delivered_sequence
        (recv_by s.terminal s inbox).outcome
        (recv_by s.terminal s inbox).next
unfolding recv_by
recv_by-Follows s inbox fresh replayed =
    subst
      (λ terminal.
        let call = recv_by terminal s inbox in
        Follows s.filter s.high_water s.replay s.last_delivered_sequence call.outcome call.next)
      (sym fresh) (receive_open-Follows s s.replay inbox fresh refl replayed)

module _ (filter : EventStreamFilter) (high : ℕ) where
  recv-Follows :
      (replay : List EventStreamRecord) (s : EventSubscription) (inbox : List Received)
      → IsOpen filter high replay s
      → Follows filter high replay s.last_delivered_sequence
          (recv s inbox).outcome
          (recv s inbox).next
  unfolding recv
  recv-Follows replay s inbox o =
      let last = s.last_delivered_sequence in
      let call = recv s inbox in
      let own = recv_by-Follows s inbox o.opened (
        subst (λ f. Rising f last s.replay) (sym o.filtered)
          (subst (Rising filter last) (sym o.left) o.replayed)) in
      let by_filter =
        subst (λ f. Follows f s.high_water s.replay last call.outcome call.next) o.filtered own in
      let by_mark =
        subst (λ h. Follows filter h s.replay last call.outcome call.next) o.marked by_filter in
      subst (λ rs. Follows filter high rs last call.outcome call.next) o.left by_mark

drain-closed :
    (calls : ℕ) (s : EventSubscription) (inbox : List Received) (reason : SubscriptionCloseReason)
    → s.terminal ≡ some reason
    → AllClosed reason (drain calls s inbox)
unfolding drain recv recv_by AllClosed
drain-closed zero s inbox reason h = tt
drain-closed (suc calls) s inbox reason h =
    subst
      (λ terminal.
        let call = recv_by terminal s inbox in
        AllClosed reason (and_then call.outcome (drain calls call.next call.inbox)))
      (sym h) (refl, drain-closed calls s inbox reason h)

module _ (filter : EventStreamFilter) (high : ℕ) where
  and_then-Delivers :
      (replay : List EventStreamRecord) (last : ℕ) (o : Option SubscriptionOutcome)
      (next : EventSubscription) (later : List SubscriptionOutcome)
      → Follows filter high replay last o next
      → ((left : List EventStreamRecord)
          → IsOpen filter high left next
          → Delivers filter high left next.last_delivered_sequence later)
      → ((reason : SubscriptionCloseReason) → next.terminal ≡ some reason → AllClosed reason later)
      → Delivers filter high replay last (and_then o later)
  unfolding Follows Delivers
  and_then-Delivers replay last none next later f k c = tt
  and_then-Delivers [] last (some (event r)) next later (above, passes, at, fresh) k c =
      (above, passes, subst (λ n. Delivers filter high [] n later) at (k [] fresh))
  and_then-Delivers (p ∷ replay) last (some (event r)) next later (same, passes, at, fresh) k c =
      (same, passes, subst (λ n. Delivers filter high replay n later) at (k replay fresh))
  and_then-Delivers [] last (some (closed reason)) next later f k c = c reason f
  and_then-Delivers (p ∷ replay) last (some (closed reason)) next later f k c = absurd f

  drain-IsOpen :
      (calls : ℕ) (replay : List EventStreamRecord) (s : EventSubscription) (inbox : List Received)
      → IsOpen filter high replay s
      → Delivers filter high replay s.last_delivered_sequence (drain calls s inbox)
  unfolding drain Delivers
  drain-IsOpen zero replay s inbox o = tt
  drain-IsOpen (suc calls) replay s inbox o =
      let call = recv s inbox in
      and_then-Delivers replay s.last_delivered_sequence call.outcome call.next
        (drain calls call.next call.inbox) (recv-Follows filter high replay s inbox o)
        (λ left fresh. drain-IsOpen calls left call.next call.inbox fresh)
        (λ reason shut. drain-closed calls call.next call.inbox reason shut)

-- From an open subscription whose replay passes its filter and rises from above its last delivered
-- record, over any number of calls of `recv` up to one that waits and whatever the channel returns:
-- the records of the replay are delivered first, in their order, and then only records above the high
-- water; all of them pass the filter and rise strictly; and after the first closing, which comes after
-- the replay, every call closes for the same reason.
pub drain-Delivers :
    (calls : ℕ) (s : EventSubscription) (inbox : List Received)
    → s.terminal ≡ none
    → Rising s.filter s.last_delivered_sequence s.replay
    → Delivers s.filter s.high_water s.replay s.last_delivered_sequence (drain calls s inbox)
drain-Delivers calls s inbox fresh replayed =
    drain-IsOpen s.filter s.high_water calls s.replay s inbox
      (record { opened = fresh; filtered = refl; marked = refl; left = refl; replayed = replayed })
