-- ===== src/Sessions/Operations.antt =====
-- crates/gateway/src/registry.rs: every operation of the registry keeps who may write.
use sinan.Prelude.{
  ℕ, suc, ◌<◌, String, Bool, false, Option, none, some, List, ◌==◌, ◌≡◌, sym, ap, ◌∙◌, subst, inl,
  inr, str_eq, if◌then◌else◌, arith, Bool-cases, chosen, Option-cases,
}
use sinan.Prelude.Maps.{lookup, insert, lookup-remove, lookup-remove_ne}
use sinan.Sessions.Registry.{
  LiveSessionRoute, new_handle, is_fenced, LiveSessions, fence_at, fence_session, publish, handle,
  disconnect,
}
use sinan.Sessions.Ownership.{
  str_eq-IsTest, IsClosed, IsOwned, fence_at-session_id, fence_at-unfenced, fence_at-IsClosed,
  remove_fenced-IsOwned,
}

new_handle-IsClosed : (s : String) → IsClosed (new_handle s)
unfolding IsClosed new_handle is_fenced
new_handle-IsClosed s = ground arith

pub none-some : {h : ℕ} → ◌≡◌ {A = Option ℕ} none (some h) → ⊥
none-some q = cc

published :
    (route : LiveSessionRoute) (s : String) (r : LiveSessions) (t : String) (h : ℕ)
    → IsOwned r
    → handle t (publish route s r) ≡ some h
    → (h < suc r.allocated) × (((publish route s r).handles h).session_id ≡ t)
unfolding publish handle new_handle
published route s r t h o q = elim (chosen (λ x. x ≡ some h) (str_eq t s) _ _ q) [
  | inl (e, same) ↦ let named = str_eq-IsTest.sound t s e in ground arith
  | inr (e, found) ↦
      let (_, before) = lookup-remove str_eq str_eq-IsTest t s r.by_session found in
      let (below, named) = o.registered t h before in ground arith
]

found_again :
    (s t : String) (r : LiveSessions) (h : ℕ)
    → handle s r ≡ none
    → handle t r ≡ some h
    → handle t (record r { by_session = insert str_eq s r.allocated r.by_session }) ≡ some h
unfolding handle
found_again s t r h new found = elim (Bool-cases (str_eq t s)) [
  | inl e ↦
      let same =
        subst (λ l. lookup str_eq l r.by_session ≡ some h) (str_eq-IsTest.sound t s e) found in
      absurd (none-some (sym new ∙ same))
  | inr e ↦ rw e (lookup-remove_ne str_eq str_eq-IsTest t s r.by_session e ∙ found)
]

pub publish-IsOwned :
    (route : LiveSessionRoute) (s : String) (r : LiveSessions)
    → handle s r ≡ none
    → IsOwned r
    → IsOwned (publish route s r)
unfolding publish handle new_handle
publish-IsOwned route s r new o = record {
  registered = λ t h q. published route s r t h o q;
  unfenced = λ h b f. elim (Bool-cases (h == r.allocated)) [
    | inl e ↦
        let same : h ≡ r.allocated = ground arith in
        rw (e, str_eq-IsTest.self s) (ap some (sym same))
    | inr e ↦
        let live =
          subst (λ (b : Bool). is_fenced (if b then new_handle s else r.handles h) ≡ false) e f in
        subst
          (λ (b : Bool).
            lookup str_eq (if b then new_handle s else r.handles h).session_id
              (insert str_eq s r.allocated r.by_session)
            ≡ some h)
          (sym e)
          (found_again s (r.handles h).session_id r h new (o.unfenced h (ground arith) live))
  ];
  closed = λ h b. elim (Bool-cases (h == r.allocated)) [
    | inl e ↦ rw e (new_handle-IsClosed s)
    | inr e ↦ rw e (o.closed h (ground arith))
  ];
}

-- Only the first map and the handles tell who may write.
same_owners :
    (r : LiveSessions) (routes : List (LiveSessionRoute × String))
    → IsOwned r
    → IsOwned (record r { by_route = routes })
unfolding handle
same_owners r routes o = record {
  registered = o.registered;
  unfenced = o.unfenced;
  closed = o.closed;
}

fence_at-IsOwned : (address : ℕ) (r : LiveSessions) → IsOwned r → IsOwned (fence_at address r)
unfolding fence_at handle
fence_at-IsOwned address r o = record {
  registered = λ s h q.
      let (below, named) = o.registered s h q in (below, fence_at-session_id address r h ∙ named);
  unfenced = λ h b f.
      let (other, live) = fence_at-unfenced address r h (o.closed h b) f in
      rw (fence_at-session_id address r h) (o.unfenced h b live);
  closed = λ h b. fence_at-IsClosed address r h (o.closed h b);
}

pub fence_session-IsOwned :
    (s : Option String) (r : LiveSessions) → IsOwned r → IsOwned (fence_session s r).0
unfolding fence_session
fence_session-IsOwned none r o = o
fence_session-IsOwned (some s) r o = elim (Option-cases (lookup str_eq s r.by_session)) [
  | inl e ↦ rw (fence_session, e) o
  | inr (address, e) ↦ rw (fence_session, e) (fence_at-IsOwned address r o)
]

pub disconnect-IsOwned : (s : String) (r : LiveSessions) → IsOwned r → IsOwned (disconnect s r).0
unfolding disconnect
disconnect-IsOwned s r o = elim (Option-cases (lookup str_eq s r.by_session)) [
  | inl e ↦ rw (disconnect, e) o
  | inr (address, e) ↦ rw (disconnect, e) (same_owners _ _ (remove_fenced-IsOwned s r o))
]
