-- ===== src/Events/Filter.antt =====
-- crates/events/src/lib.rs, crates/store/src/event_stream.rs, crates/store/src/projection.rs: the filter
-- of a subscription. A set is a list; the payload of a record is its canonical text.
use sinan.Prelude.{
  ℕ, ℤ, String, List, [], ◌∷◌, Bool, true, false, not, ◌&&◌, Option, none, some, Result, ok, ◌>>=◌,
  ◌>>◌, reject_if, any, is_some_and, str_eq,
}

pub data EventStreamTopic : Type 0 where
  market_snapshot risk_summary execution_summary system_event deadletter_summary : EventStreamTopic

pub record EventStreamRecord : Type 0 where
  pub stream_sequence : ℕ
  pub event_id : String
  pub topic : EventStreamTopic
  pub account_id : Option String
  pub event_type : String
  pub payload : String
  pub created_at : ℤ

pub record AuthorizedAccountScope : Type 0 where
  pub account_ids : List String

pub record EventStreamFilter : Type 0 where
  pub topics : List EventStreamTopic
  pub account_scope : AuthorizedAccountScope

pub record EventSubscriptionRequest : Type 0 where
  pub topics : List EventStreamTopic
  pub account_id : Option String
  pub last_event_id : Option String

-- The errors that `subscription_filter` returns.
pub data EventStreamManagerError : Type 0 where
  empty_topics : EventStreamManagerError
  duplicate_topic : EventStreamTopic → EventStreamManagerError
  unauthorized_account : String → EventStreamManagerError
  empty_cursor : EventStreamManagerError

unfoldable pub same_topic : EventStreamTopic → EventStreamTopic → Bool
same_topic market_snapshot market_snapshot = true
same_topic risk_summary risk_summary = true
same_topic execution_summary execution_summary = true
same_topic system_event system_event = true
same_topic deadletter_summary deadletter_summary = true
same_topic _ _ = false

unfoldable pub contains : AuthorizedAccountScope → String → Bool
contains scope account_id = any (str_eq account_id) scope.account_ids

unfoldable pub is_global_topic : EventStreamTopic → Bool
is_global_topic system_event = true
is_global_topic deadletter_summary = true
is_global_topic _ = false

unfoldable pub event_is_visible : EventStreamTopic → Option String → AuthorizedAccountScope → Bool
event_is_visible topic none scope = is_global_topic topic
event_is_visible topic (some account_id) scope = contains scope account_id

-- `EventStreamFilter::matches`.
unfoldable pub matches : EventStreamFilter → EventStreamRecord → Bool
matches filter event =
    any (same_topic event.topic) filter.topics
    && event_is_visible event.topic event.account_id filter.account_scope

-- The loop over the topics, with the set of those before.
unfoldable pub check_topics :
    List EventStreamTopic → List EventStreamTopic → Result EventStreamManagerError (Unit {0})
check_topics [] known = ok tt
check_topics (topic ∷ topics) known = do
  reject_if (any (same_topic topic) known) (duplicate_topic topic)
  check_topics topics (topic ∷ known)

-- `String::is_empty`.
abbrev pub is_empty_text : String → Bool
is_empty_text s = str_eq s ""

unfoldable pub scope_of :
    Option String → AuthorizedAccountScope → Result EventStreamManagerError AuthorizedAccountScope
scope_of none principal = ok principal
scope_of (some account_id) principal = do
  reject_if (not (contains principal account_id)) (unauthorized_account account_id)
  ok (record { account_ids = account_id ∷ [] })

abbrev pub no_topics : List EventStreamTopic → Bool
no_topics [] = true
no_topics (topic ∷ topics) = false

unfoldable pub subscription_filter :
    EventSubscriptionRequest
    → AuthorizedAccountScope
    → Result EventStreamManagerError EventStreamFilter
subscription_filter request principal = do
  reject_if (no_topics request.topics) empty_topics
  check_topics request.topics []
  reject_if (is_some_and is_empty_text request.last_event_id) empty_cursor
  scope ← scope_of request.account_id principal
  ok (record { topics = request.topics; account_scope = scope })
