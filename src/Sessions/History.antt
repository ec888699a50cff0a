-- ===== src/Sessions/History.antt =====
-- crates/gateway/src/registry.rs: the registry over time, and what clearing it does.
use sinan.Prelude.{
  ℕ, ◌+◌, ◌*◌, ◌/◌, ◌<◌, String, true, false, Option, none, some, List, [], ◌∷◌, ◌==◌, ◌≡◌, refl,
  sym, ◌∙◌, subst, inl, inr, str_eq, if◌then◌else◌, arith, Bool-cases, chosen,
}
use sinan.Prelude.Maps.{lookup}
use sinan.Sessions.Gate.{fenced_bit}
use sinan.Sessions.Registry.{
  LiveSessionRoute, LiveSessionHandle, is_fenced, LiveSessions, empty_sessions, fence_at,
  fence_route, displace, activate, handle, disconnect, fence_all, clear,
}
use sinan.Sessions.Ownership.{
  IsClosed, IsOwned, fence_at-unfenced, fence_at-IsClosed, remove_optional-IsOwned,
}
use sinan.Sessions.Operations.{publish-IsOwned, fence_session-IsOwned, disconnect-IsOwned}

-- An activity of the writers of one handle: the count in its word becomes `n`, the fence stays.
unfoldable pub count_writers : ℕ → ℕ → LiveSessions → LiveSessions
count_writers address n r = record r {
  handles = λ h.
      if h == address
      then record (r.handles h) { word = (r.handles h).word / fenced_bit * fenced_bit + n }
      else r.handles h;
}

pub data RegistryEvent : Type 0 where
  route_fenced : LiveSessionRoute → RegistryEvent
  activated : LiveSessionRoute → (session_id : String) → (replaced : Option String) → RegistryEvent
  disconnected : String → RegistryEvent
  cleared : RegistryEvent
  writers_counted : (address n : ℕ) → RegistryEvent

unfoldable pub registry_step : RegistryEvent → LiveSessions → LiveSessions
registry_step (route_fenced route) r = (fence_route route r).0
registry_step (activated route session_id replaced) r = (activate route session_id replaced r).0
registry_step (disconnected session_id) r = (disconnect session_id r).0
registry_step cleared r = clear r
registry_step (writers_counted address n) r = count_writers address n r

-- A session that is activated is new, and the count fits in its bits.
unfoldable pub Admissible : RegistryEvent → LiveSessions → Type 0
Admissible (activated route session_id replaced) r =
    handle session_id (displace route replaced r) ≡ none
Admissible (writers_counted address n) r = n < fenced_bit
Admissible _ r = Unit

-- What fencing every handle of a map leaves.
fence_all-unfenced :
    (m : List (String × ℕ)) (r : LiveSessions) (h : ℕ)
    → IsClosed (r.handles h)
    → is_fenced ((fence_all m r).handles h) ≡ false
    → (is_fenced (r.handles h) ≡ false) × ((s : String) → ¬ (lookup str_eq s m ≡ some h))
unfolding fence_all
fence_all-unfenced [] r h c f = (f, λ s q. cc)
fence_all-unfenced ((t, a) ∷ m) r h c f =
    let (live, absent) = fence_all-unfenced m (fence_at a r) h (fence_at-IsClosed a r h c) f in
    let (other, before) = fence_at-unfenced a r h c live in
    (
      before,
      λ s q. elim (chosen (λ x. x ≡ some h) (str_eq s t) _ _ q) [
        | inl (_, same) ↦ ground arith
        | inr (_, found) ↦ absent s found
      ],
    )

fence_all-IsClosed :
    (m : List (String × ℕ)) (r : LiveSessions) (h : ℕ)
    → IsClosed (r.handles h)
    → IsClosed ((fence_all m r).handles h)
unfolding fence_all
fence_all-IsClosed [] r h c = c
fence_all-IsClosed ((t, a) ∷ m) r h c =
    fence_all-IsClosed m (fence_at a r) h (fence_at-IsClosed a r h c)

fence_all-names :
    (m : List (String × ℕ)) (r : LiveSessions) → (fence_all m r).allocated ≡ r.allocated
unfolding fence_all fence_at
fence_all-names [] r = refl
fence_all-names ((t, a) ∷ m) r = fence_all-names m (fence_at a r)

clear-fences :
    (r : LiveSessions)
    → IsOwned r
    → (h : ℕ) → h < r.allocated
    → is_fenced ((clear r).handles h) ≡ true
unfolding clear handle
clear-fences r o h b = elim (Bool-cases (is_fenced ((fence_all r.by_session r).handles h))) [
  | inl e ↦ e
  | inr e ↦
      let (live, absent) = fence_all-unfenced r.by_session r h (o.closed h b) e in
      absurd (absent (r.handles h).session_id (o.unfenced h b live))
]

closed_once : (h : LiveSessionHandle) → IsClosed h → is_fenced h ≡ true → h.closes ≡ 1
unfolding IsClosed
closed_once h (b, c) f = ground arith

-- Once an owned registry is cleared, no session is found, and the sink of every handle that was made
-- was closed exactly once, with its handle fenced.
pub clear-closes :
    (r : LiveSessions)
    → IsOwned r
    → ((s : String) → handle s (clear r) ≡ none)
      × ((h : ℕ)
          → h < r.allocated
          → (is_fenced ((clear r).handles h) ≡ true) × (((clear r).handles h).closes ≡ 1))
unfolding clear handle
clear-closes r o = (
  (λ s. refl),
  (λ h b.
      let fenced = clear-fences r o h b in
      (fenced, closed_once _ (fence_all-IsClosed r.by_session r h (o.closed h b)) fenced)),
)

clear-IsOwned : (r : LiveSessions) → IsOwned r → IsOwned (clear r)
unfolding clear handle
clear-IsOwned r o =
    let names = fence_all-names r.by_session r in
    record {
      registered = λ s h q. cc;
      unfenced = λ h b f. let fenced = clear-fences r o h (omega (arith, names)) in cc;
      closed = λ h b. fence_all-IsClosed r.by_session r h (o.closed h (omega (arith, names)));
    }

-- A count of writers that fits in its bits leaves the fence as it is.
counted-IsClosed :
    (h : LiveSessionHandle) (n : ℕ)
    → n < fenced_bit
    → IsClosed h
    → IsClosed (record h { word = h.word / fenced_bit * fenced_bit + n })
      × (is_fenced (record h { word = h.word / fenced_bit * fenced_bit + n }) ≡ is_fenced h)
unfolding IsClosed is_fenced
counted-IsClosed h n b (c, d) = ground arith

count_writers-names :
    (address n : ℕ) (r : LiveSessions) (h : ℕ)
    → ((count_writers address n r).handles h).session_id ≡ (r.handles h).session_id
unfolding count_writers
count_writers-names address n r h = ground arith

count_writers-is_fenced :
    (address n : ℕ) (r : LiveSessions) (h : ℕ)
    → n < fenced_bit
    → IsClosed (r.handles h)
    → is_fenced ((count_writers address n r).handles h) ≡ is_fenced (r.handles h)
unfolding count_writers
count_writers-is_fenced address n r h b c = elim (Bool-cases (h == address)) [
  | inl e ↦ rw e (counted-IsClosed (r.handles h) n b c).1
  | inr e ↦ rw e refl
]

count_writers-IsOwned :
    (address n : ℕ) (r : LiveSessions)
    → n < fenced_bit
    → IsOwned r
    → IsOwned (count_writers address n r)
unfolding count_writers handle
count_writers-IsOwned address n r b o = record {
  registered = λ s h q.
      let (below, named) = o.registered s h q in (below, count_writers-names address n r h ∙ named);
  unfenced = λ h below f.
      let same = count_writers-is_fenced address n r h b (o.closed h below) in
      subst (λ s. lookup str_eq s r.by_session ≡ some h) (sym (count_writers-names address n r h))
        (o.unfenced h below (sym same ∙ f));
  closed = λ h below. elim (Bool-cases (h == address)) [
    | inl e ↦ rw e (counted-IsClosed (r.handles h) n b (o.closed h below)).0
    | inr e ↦ rw e (o.closed h below)
  ];
}

registry_step-IsOwned :
    (e : RegistryEvent) (r : LiveSessions)
    → Admissible e r
    → IsOwned r
    → IsOwned (registry_step e r)
unfolding registry_step Admissible fence_route activate displace
registry_step-IsOwned (route_fenced route) r a o = fence_session-IsOwned _ r o
registry_step-IsOwned (activated route s replaced) r a o =
    publish-IsOwned route s (displace route replaced r) a
      (remove_optional-IsOwned replaced _ (remove_optional-IsOwned _ r o))
registry_step-IsOwned (disconnected s) r a o = disconnect-IsOwned s r o
registry_step-IsOwned cleared r a o = clear-IsOwned r o
registry_step-IsOwned (writers_counted address n) r a o = count_writers-IsOwned address n r a o

-- `Reaches r t`: operations that are admissible lead from `r` to `t`.
pub data Reaches : LiveSessions → LiveSessions → Type 0 where
  here : (r : LiveSessions) → Reaches r r
  operate :
      (e : RegistryEvent) (r t : LiveSessions)
      → Admissible e r
      → Reaches (registry_step e r) t
      → Reaches r t

empty_sessions-IsOwned : IsOwned empty_sessions
unfolding empty_sessions handle
empty_sessions-IsOwned = record {
  registered = λ s h q. cc;
  unfenced = λ h b f. ground arith;
  closed = λ h b. ground arith;
}

Reaches-IsOwned : (r t : LiveSessions) → IsOwned r → Reaches r t → IsOwned t
Reaches-IsOwned r _ o (here _) = o
Reaches-IsOwned r t o (operate e _ _ a rest) =
    Reaches-IsOwned (registry_step e r) t (registry_step-IsOwned e r a o) rest

-- Whatever the registry went through since it was empty, a handle that it finds for a session is that
-- session's, a handle that is not fenced is the one found for its session, and a sink was closed once
-- if its handle is fenced, and never otherwise.
pub registry-IsOwned : (t : LiveSessions) → Reaches empty_sessions t → IsOwned t
registry-IsOwned t h = Reaches-IsOwned empty_sessions t empty_sessions-IsOwned h
