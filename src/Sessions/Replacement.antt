-- ===== src/Sessions/Replacement.antt =====
-- crates/gateway/src/registry.rs: the replacement of a session, and callbacks that come late.
use sinan.Prelude.{
  ℕ, ◌<◌, String, true, false, Option, none, some, ◌≡◌, refl, sym, ◌∙◌, subst, ◌⊎◌, inl, inr,
  str_eq, opt_str_eq, arith, Bool-cases, Option-cases,
}
use sinan.Prelude.Maps.{lookup, remove, lookup-remove, lookup-remove_self, lookup-remove_ne}
use sinan.Sessions.Registry.{
  LiveSessionRoute, route_eq, new_handle, is_fenced, LiveSessions, fence_at, remove_fenced,
  remove_optional, displace, publish, activate, handle, disconnect,
}
use sinan.Sessions.Ownership.{
  str_eq-IsTest, IsOwned, fence_at-session_id, without, remove_fenced-none, remove_fenced-some,
  remove_optional-IsOwned,
}
use sinan.Sessions.Operations.{publish-IsOwned, none-some}

-- What a removal leaves of the store of handles.
record Remains (r t : LiveSessions) : Type 0 where
  allocated : t.allocated ≡ r.allocated
  names : (h : ℕ) → (t.handles h).session_id ≡ (r.handles h).session_id
  gone : (s : String) → handle s r ≡ none → handle s t ≡ none

without-Remains : (s : String) (address : ℕ) (r : LiveSessions) → Remains r (without s address r)
unfolding fence_at handle
without-Remains s address r = record {
  allocated = refl;
  names = λ h. fence_at-session_id address r h;
  gone = λ t e. elim (Option-cases (lookup str_eq t (remove str_eq s r.by_session))) [
    | inl q ↦ q
    | inr (h, q) ↦
        let (_, found) = lookup-remove str_eq str_eq-IsTest t s r.by_session q in
        absurd (none-some (sym e ∙ found))
  ];
}

Remains-refl : (r : LiveSessions) → Remains r r
Remains-refl r = record { allocated = refl; names = λ h. refl; gone = λ s e. e }

Remains-trans : {r t u : LiveSessions} → Remains r t → Remains t u → Remains r u
Remains-trans a b = record {
  allocated = b.allocated ∙ a.allocated;
  names = λ h. b.names h ∙ a.names h;
  gone = λ s e. b.gone s (a.gone s e);
}

without-gone : (s : String) (address : ℕ) (r : LiveSessions) → handle s (without s address r) ≡ none
unfolding fence_at handle
without-gone s address r = lookup-remove_self str_eq str_eq-IsTest s r.by_session

remove_fenced-Remains :
    (s : String) (r : LiveSessions)
    → Remains r (remove_fenced s r) × (handle s (remove_fenced s r) ≡ none)
remove_fenced-Remains s r = elim (Option-cases (handle s r)) [
  | inl e ↦
      subst (λ t. Remains r t × (handle s t ≡ none)) (sym (remove_fenced-none s r e))
        (Remains-refl r, e)
  | inr (address, e) ↦
      subst (λ t. Remains r t × (handle s t ≡ none)) (sym (remove_fenced-some s r address e))
        (without-Remains s address r, without-gone s address r)
]

remove_optional-Remains :
    (o : Option String) (r : LiveSessions)
    → Remains r (remove_optional o r)
      × ((s : String) → o ≡ some s → handle s (remove_optional o r) ≡ none)
remove_optional-Remains none r = (Remains-refl r, λ s e. cc)
remove_optional-Remains (some t) r =
    let (a, b) = remove_fenced-Remains t r in
    (a, λ s e. subst (λ u. handle u (remove_fenced t r) ≡ none) (cc) b)

displace-Remains :
    (route : LiveSessionRoute) (replaced : Option String) (r : LiveSessions)
    → Remains r (displace route replaced r)
      × ((s : String)
          → (lookup route_eq route r.by_route ≡ some s) ⊎ (replaced ≡ some s)
          → handle s (displace route replaced r) ≡ none)
unfolding displace
displace-Remains route replaced r =
    let o = lookup route_eq route r.by_route in
    let (a, b) = remove_optional-Remains o r in
    let (d, e) = remove_optional-Remains replaced (remove_optional o r) in
    (Remains-trans a d, λ s h. elim h [ inl q ↦ d.gone s (b s q) | inr q ↦ e s q ])

displace-IsOwned :
    (route : LiveSessionRoute) (replaced : Option String) (r : LiveSessions)
    → IsOwned r
    → IsOwned (displace route replaced r)
unfolding displace
displace-IsOwned route replaced r o =
    remove_optional-IsOwned replaced _
      (remove_optional-IsOwned (lookup route_eq route r.by_route) r o)

terminal_self : (o : Option String) → opt_str_eq o o ≡ true
terminal_self none = refl
terminal_self (some s) = str_eq-IsTest.self s

route_eq_self : (route : LiveSessionRoute) → route_eq route route ≡ true
route_eq_self route =
    rw (str_eq-IsTest.self route.client_id, str_eq-IsTest.self route.account_id)
      (terminal_self route.terminal_id)

publish-new :
    (route : LiveSessionRoute) (s : String) (r : LiveSessions)
    → (handle s (publish route s r) ≡ some r.allocated)
      × (is_fenced ((publish route s r).handles r.allocated) ≡ false)
      × (lookup route_eq route (publish route s r).by_route ≡ some s)
unfolding publish handle new_handle is_fenced
publish-new route s r =
    (rw (str_eq-IsTest.self s) refl, ground arith, rw (route_eq_self route) refl)

publish-others :
    (route : LiveSessionRoute) (s x : String) (r : LiveSessions)
    → str_eq x s ≡ false
    → handle x r ≡ none
    → handle x (publish route s r) ≡ none
unfolding publish handle
publish-others route s x r other gone =
    rw other (lookup-remove_ne str_eq str_eq-IsTest x s r.by_session other ∙ gone)

publish-names :
    (route : LiveSessionRoute) (s : String) (r : LiveSessions) (h : ℕ)
    → h < r.allocated
    → (((publish route s r).handles h).session_id ≡ (r.handles h).session_id)
      × (h < (publish route s r).allocated)
unfolding publish
publish-names route s r h b = (ground arith, omega arith)

disconnect-absent :
    (s : String) (r : LiveSessions) → handle s r ≡ none → disconnect s r ≡ (r, false)
unfolding handle disconnect
disconnect-absent s r e =
    let found : lookup str_eq s r.by_session ≡ none = e in rw (disconnect, found) refl

-- In an owned registry, a handle whose session is not found is fenced.
unfound_fenced :
    (r : LiveSessions) (h : ℕ)
    → IsOwned r
    → h < r.allocated
    → handle (r.handles h).session_id r ≡ none
    → is_fenced (r.handles h) ≡ true
unfound_fenced r h o b e = elim (Bool-cases (is_fenced (r.handles h))) [
  | inl f ↦ f
  | inr f ↦ absurd (none-some (sym e ∙ o.unfenced h b f))
]

abbrev pub activated_sessions :
    LiveSessionRoute → String → Option String → LiveSessions → LiveSessions
activated_sessions route s replaced r = (activate route s replaced r).0

-- When a session `s` that the registry does not find is activated for a route, another session `x` that
-- was the route's, or that it names as the one it replaces, can no longer write: its handle is fenced
-- and is not found, and the callback that disconnects it late changes nothing, while `s` is the
-- session of the route and its handle is not fenced.
pub activate-replaces :
    (route : LiveSessionRoute) (s x : String) (replaced : Option String) (r : LiveSessions) (h : ℕ)
    → IsOwned r
    → handle s (displace route replaced r) ≡ none
    → (lookup route_eq route r.by_route ≡ some x) ⊎ (replaced ≡ some x)
    → str_eq x s ≡ false
    → handle x r ≡ some h
    → (is_fenced ((activated_sessions route s replaced r).handles h) ≡ true)
      × (handle x (activated_sessions route s replaced r) ≡ none)
      × (disconnect x (activated_sessions route s replaced r)
          ≡ (activated_sessions route s replaced r, false))
      × (lookup route_eq route (activated_sessions route s replaced r).by_route ≡ some s)
      × ((a : ℕ) × (handle s (activated_sessions route s replaced r) ≡ some a)
          × (is_fenced ((activated_sessions route s replaced r).handles a) ≡ false))
unfolding activate
activate-replaces route s x replaced r h o new old other found =
    let d = displace route replaced r in
    let t = publish route s d in
    let (m, displaced) = displace-Remains route replaced r in
    let (below, named) = o.registered x h found in
    let (kept, made) = publish-names route s d h (omega (arith, below, m.allocated)) in
    let gone = publish-others route s x d other (displaced x old) in
    let owned = publish-IsOwned route s d new (displace-IsOwned route replaced r o) in
    let name = kept ∙ m.names h ∙ named in
    let (present, live, routed) = publish-new route s d in
    (
      unfound_fenced t h owned made (subst (λ n. handle n t ≡ none) (sym name) gone),
      gone,
      disconnect-absent x t gone,
      routed,
      (d.allocated, present, live),
    )
