-- ===== src/Events/Tests.antt =====
-- Runs of crates/events/src/lib.rs: the witnesses.
use sinan.Prelude.{ℕ, pos, ok, List, [], ◌∷◌, true, none, some, ◌≡◌, refl, arith, any}
use sinan.Events.Filter.{
  execution_summary, EventStreamRecord, AuthorizedAccountScope, EventStreamFilter,
  EventSubscriptionRequest, same_topic, contains, event_is_visible, matches, check_topics, scope_of,
  subscription_filter,
}
use sinan.Events.Subscription.{Received, live, lagged, channel_closed, EventSubscription, drain}
use sinan.Events.Order.{Rising, Delivers, drain-Delivers}
use sinan.Events.Scope.{Shown, subscription_filter-Shown}

abbrev summary : ℕ → EventStreamRecord
summary n = record {
  stream_sequence = n;
  event_id = "e";
  topic = execution_summary;
  account_id = some "a";
  event_type = "t";
  payload = "{}";
  created_at = pos 0;
}

abbrev narrow_filter : EventStreamFilter
narrow_filter = record {
  topics = execution_summary ∷ [];
  account_scope = record { account_ids = "a" ∷ [] };
}

abbrev principal_of_two : AuthorizedAccountScope
principal_of_two = record { account_ids = "b" ∷ "a" ∷ [] }

abbrev narrow_request : EventSubscriptionRequest
narrow_request = record {
  topics = execution_summary ∷ [];
  account_id = some "a";
  last_event_id = none;
}

abbrev subscription : EventSubscription
subscription = record {
  replay = summary 4 ∷ summary 7 ∷ [];
  filter = narrow_filter;
  high_water = 7;
  last_delivered_sequence = 2;
  terminal = none;
}

-- The seventh record comes again on the channel, and the reader lags behind after the ninth.
abbrev channel : List Received
channel = live (summary 7) ∷ live (summary 9) ∷ lagged 3 ∷ channel_closed ∷ []

subscription-Rising : Rising narrow_filter 2 (summary 4 ∷ summary 7 ∷ [])
unfolding Rising matches event_is_visible contains same_topic
subscription-Rising = ((omega arith, refl), ((omega arith, refl), tt))

drain-Delivers_example :
    Delivers narrow_filter 7 (summary 4 ∷ summary 7 ∷ []) 2 (drain 5 subscription channel)
drain-Delivers_example = drain-Delivers 5 subscription channel refl subscription-Rising

narrow_request-filter : subscription_filter narrow_request principal_of_two ≡ ok narrow_filter
unfolding subscription_filter check_topics scope_of contains same_topic
narrow_request-filter = refl

narrow_filter-matches : matches narrow_filter (summary 4) ≡ true
unfolding matches event_is_visible contains same_topic
narrow_filter-matches = refl

subscription_filter-Shown_example :
    (any (same_topic execution_summary) (execution_summary ∷ []) ≡ true)
    × Shown principal_of_two (some "a") execution_summary (some "a")
subscription_filter-Shown_example =
    subscription_filter-Shown narrow_request principal_of_two narrow_filter (summary 4)
      narrow_request-filter narrow_filter-matches
