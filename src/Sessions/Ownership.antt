-- ===== src/Sessions/Ownership.antt =====
-- crates/gateway/src/registry.rs: who may write. Only a registered handle is not fenced.
use sinan.Prelude.{
  ℕ, ◌*◌, ◌<◌, String, true, false, Option, none, some, List, ◌==◌, ◌≡◌, refl, sym, ◌∙◌, subst, inl,
  inr, str_eq, if◌then◌else◌, arith, Bool-cases, Option-cases,
}
use text.Mathlib.TextEquality.{eq_iff}
use sinan.Prelude.Maps.{lookup, remove, IsTest, lookup-remove, lookup-remove_ne}
use sinan.Sessions.Gate.{fence_word, fenced_bit}
use sinan.Sessions.Registry.{
  LiveSessionHandle, is_fenced, fence_handle, LiveSessions, fence_at, remove_fenced,
  remove_optional, handle,
}

pub str_eq-IsTest : IsTest str_eq
str_eq-IsTest = record { sound = λ a b. (eq_iff a b).0; self = λ a. (eq_iff a a).1 refl }

-- A handle is closed once, exactly if it is fenced.
unfoldable pub IsClosed : LiveSessionHandle → Type 0
IsClosed h = (h.word < 2 * fenced_bit) × (h.closes ≡ (if is_fenced h then 1 else 0))

pub record IsOwned (r : LiveSessions) : Type 0 where
  pub registered :
      (s : String) (h : ℕ)
      → handle s r ≡ some h
      → (h < r.allocated) × ((r.handles h).session_id ≡ s)
  pub unfenced :
      (h : ℕ)
      → h < r.allocated
      → is_fenced (r.handles h) ≡ false
      → handle (r.handles h).session_id r ≡ some h
  pub closed : (h : ℕ) → h < r.allocated → IsClosed (r.handles h)

fence_handle-IsClosed :
    (h : LiveSessionHandle)
    → IsClosed h
    → IsClosed (fence_handle h)
      × (is_fenced (fence_handle h) ≡ true)
      × ((fence_handle h).session_id ≡ h.session_id)
unfolding IsClosed fence_handle is_fenced fence_word
fence_handle-IsClosed h (b, c) = ground arith

-- What fencing the handle at `address` makes of the handle at `h`.
fence_at-handle :
    (address : ℕ) (r : LiveSessions) (h : ℕ)
    → (fence_at address r).handles h
      ≡ (if h == address then fence_handle (r.handles h) else r.handles h)
unfolding fence_at
fence_at-handle address r h = refl

pub fence_at-session_id :
    (address : ℕ) (r : LiveSessions) (h : ℕ)
    → ((fence_at address r).handles h).session_id ≡ (r.handles h).session_id
unfolding fence_at fence_handle
fence_at-session_id address r h = ground arith

pub fence_at-unfenced :
    (address : ℕ) (r : LiveSessions) (h : ℕ)
    → IsClosed (r.handles h)
    → is_fenced ((fence_at address r).handles h) ≡ false
    → ((h == address) ≡ false) × (is_fenced (r.handles h) ≡ false)
unfolding fence_at
fence_at-unfenced address r h c f = ground (arith, fence_handle-IsClosed (r.handles h) c)

pub fence_at-IsClosed :
    (address : ℕ) (r : LiveSessions) (h : ℕ)
    → IsClosed (r.handles h)
    → IsClosed ((fence_at address r).handles h)
unfolding fence_at
fence_at-IsClosed address r h c = elim (Bool-cases (h == address)) [
  | inl e ↦ rw e (fence_handle-IsClosed (r.handles h) c).0
  | inr e ↦ rw e c
]

pub remove_fenced-none : (s : String) (r : LiveSessions) → handle s r ≡ none → remove_fenced s r ≡ r
unfolding remove_fenced handle
remove_fenced-none s r e =
    let found : lookup str_eq s r.by_session ≡ none = e in rw (remove_fenced, found) refl

-- The registry once the handle at `address` has left the first map.
abbrev pub without : String → ℕ → LiveSessions → LiveSessions
without s address r = fence_at address (record r { by_session = remove str_eq s r.by_session })

pub remove_fenced-some :
    (s : String) (r : LiveSessions) (address : ℕ)
    → handle s r ≡ some address
    → remove_fenced s r ≡ without s address r
unfolding remove_fenced handle
remove_fenced-some s r address e =
    let found : lookup str_eq s r.by_session ≡ some address = e in rw (remove_fenced, found) refl

still_found :
    (s : String) (m : List (String × ℕ)) (address h : ℕ) (t : String)
    → lookup str_eq s m ≡ some address
    → lookup str_eq t m ≡ some h
    → (h == address) ≡ false
    → lookup str_eq t (remove str_eq s m) ≡ some h
still_found s m address h t e found other = elim (Bool-cases (str_eq t s)) [
  | inl q ↦
      let same = subst (λ l. lookup str_eq l m ≡ some h) (str_eq-IsTest.sound t s q) found in
      ground arith
  | inr q ↦ lookup-remove_ne str_eq str_eq-IsTest t s m q ∙ found
]

without-IsOwned :
    (s : String) (address : ℕ) (r : LiveSessions)
    → handle s r ≡ some address
    → IsOwned r
    → IsOwned (without s address r)
unfolding fence_at handle
without-IsOwned s address r e o = record {
  registered = λ t h q.
      let (_, found) = lookup-remove str_eq str_eq-IsTest t s r.by_session q in
      let (below, named) = o.registered t h found in
      (below, fence_at-session_id address r h ∙ named);
  unfenced = λ h b f.
      let (other, live) = fence_at-unfenced address r h (o.closed h b) f in
      rw (fence_at-session_id address r h) (
        still_found s r.by_session address h (r.handles h).session_id e (o.unfenced h b live)
          other);
  closed = λ h b. fence_at-IsClosed address r h (o.closed h b);
}

-- A handle that leaves the first map is fenced with it.
pub remove_fenced-IsOwned :
    (s : String) (r : LiveSessions) → IsOwned r → IsOwned (remove_fenced s r)
remove_fenced-IsOwned s r o = elim (Option-cases (handle s r)) [
  | inl e ↦ subst IsOwned (sym (remove_fenced-none s r e)) o
  | inr (address, e) ↦
      subst IsOwned (sym (remove_fenced-some s r address e)) (without-IsOwned s address r e o)
]

pub remove_optional-IsOwned :
    (s : Option String) (r : LiveSessions) → IsOwned r → IsOwned (remove_optional s r)
remove_optional-IsOwned none r o = o
remove_optional-IsOwned (some s) r o = remove_fenced-IsOwned s r o
