-- ===== src/Events/Scope.antt =====
-- crates/events/src/lib.rs: a request does not broaden the scope of its principal.
use sinan.Prelude.{
  String, [], ◌∷◌, Bool, true, not, ◌&&◌, Option, none, some, ◌≡◌, sym, ap, subst, ok, >>=-eq-ok,
  reject_if, reject_if-eq-ok, ok-injective, any, is_some_and, arith,
}
use text.Mathlib.TextEquality.{eq_iff}
use sinan.Events.Filter.{
  EventStreamTopic, EventStreamRecord, AuthorizedAccountScope, EventStreamFilter,
  EventSubscriptionRequest, same_topic, contains, is_global_topic, event_is_visible, matches,
  check_topics, is_empty_text, scope_of, no_topics, subscription_filter,
}

contains_one :
    (account_id other : String)
    → contains (record { account_ids = account_id ∷ [] }) other ≡ true
    → other ≡ account_id
unfolding contains
contains_one account_id other h = (eq_iff other account_id).0 (ground arith)

-- The account of a record is the requested one, if one is requested.
abbrev pub Narrowed : Option String → String → Type 0
Narrowed requested account_id = (b : String) → requested ≡ some b → account_id ≡ b

scope_of-contains :
    (requested : Option String) (principal : AuthorizedAccountScope) (account_id : String)
    {scope : AuthorizedAccountScope}
    → scope_of requested principal ≡ ok scope
    → contains scope account_id ≡ true
    → (contains principal account_id ≡ true) × Narrowed requested account_id
unfolding scope_of
scope_of-contains none principal account_id h k =
    (subst (λ s. contains s account_id ≡ true) (sym (ok-injective h)) k, λ b e. cc)
scope_of-contains (some a) principal account_id h k =
    let (_, allowed, h1) = >>=-eq-ok (reject_if (not (contains principal a)) _) _ h in
    let one = subst (λ s. contains s account_id ≡ true) (sym (ok-injective h1)) k in
    let same = contains_one a account_id one in
    let known = reject_if-eq-ok (not (contains principal a)) _ allowed in
    (subst (λ b. contains principal b ≡ true) (sym same) (ground arith), λ b e. cc)

both : (a b : Bool) → (a && b) ≡ true → (a ≡ true) × (b ≡ true)
both a b h = (ground arith, ground arith)

-- A record that may be shown: without an account it must be of a global topic, and otherwise its
-- account must be one that the principal may see, and the requested one, if one is requested.
pub Shown : AuthorizedAccountScope → Option String → EventStreamTopic → Option String → Type 0
Shown principal requested topic none = is_global_topic topic ≡ true
Shown principal requested topic (some account_id) =
    (contains principal account_id ≡ true) × Narrowed requested account_id

event_is_visible-Shown :
    (requested : Option String) (principal : AuthorizedAccountScope) (topic : EventStreamTopic)
    (owner : Option String) {scope : AuthorizedAccountScope}
    → scope_of requested principal ≡ ok scope
    → event_is_visible topic owner scope ≡ true
    → Shown principal requested topic owner
unfolding event_is_visible Shown
event_is_visible-Shown requested principal topic none h k = k
event_is_visible-Shown requested principal topic (some account_id) h k =
    scope_of-contains requested principal account_id h k

-- A record that the filter of a subscription lets through is of a topic that was asked for. If it is
-- of an account, then of one that the principal may see, and of the account that was asked for, if
-- one was; if it is of none, then its topic is a global one.
pub subscription_filter-Shown :
    (request : EventSubscriptionRequest) (principal : AuthorizedAccountScope)
    (filter : EventStreamFilter) (r : EventStreamRecord)
    → subscription_filter request principal ≡ ok filter
    → matches filter r ≡ true
    → (any (same_topic r.topic) request.topics ≡ true)
      × Shown principal request.account_id r.topic r.account_id
unfolding subscription_filter matches
subscription_filter-Shown request principal filter r h k =
    let (_, _, h1) = >>=-eq-ok (reject_if (no_topics request.topics) _) _ h in
    let (_, _, h2) = >>=-eq-ok (check_topics request.topics []) _ h1 in
    let (_, _, h3) =
      >>=-eq-ok (reject_if (is_some_and is_empty_text request.last_event_id) _) _ h2 in
    let (scope, a, h4) = >>=-eq-ok (scope_of request.account_id principal) _ h3 in
    let same = ok-injective h4 in
    let topics = ap (λ (f : EventStreamFilter). f.topics) same in
    let scopes = ap (λ (f : EventStreamFilter). f.account_scope) same in
    let (asked, visible) = both (any (same_topic r.topic) filter.topics) _ k in
    (
      subst (λ t. any (same_topic r.topic) t ≡ true) (sym topics) asked,
      event_is_visible-Shown request.account_id principal r.topic r.account_id a
          (subst (λ s. event_is_visible r.topic r.account_id s ≡ true) (sym scopes) visible),
    )
