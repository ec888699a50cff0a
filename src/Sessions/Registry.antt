-- ===== src/Sessions/Registry.antt =====
-- crates/gateway/src/registry.rs, crates/gateway/src/sink.rs: `LiveSessionHandle` and
-- `LiveSessionRegistry`. A handle is shared through `Arc`, so the handles stand in a store and a map
-- holds their addresses; `closes` counts the calls of the sink's `close`. Every operation holds the
-- lock of the two maps, so operations are steps; the poisoned lock is entered as well.
use sinan.Prelude.{
  ℕ, suc, ◌+◌, String, Bool, true, false, ◌&&◌, Option, none, some, List, [], ◌∷◌, ◌==◌, str_eq,
  str_ne, opt_str_eq, if◌then◌else◌,
}
use sinan.Prelude.Maps.{lookup, remove, insert, retain}
use sinan.Sessions.Gate.{word_is_fenced, fence_word}

pub record LiveSessionRoute : Type 0 where
  pub client_id : String
  pub account_id : String
  pub terminal_id : Option String

-- The derived `==` of a route.
abbrev pub route_eq : LiveSessionRoute → LiveSessionRoute → Bool
route_eq a b =
    str_eq a.client_id b.client_id
    && str_eq a.account_id b.account_id
    && opt_str_eq a.terminal_id b.terminal_id

pub record LiveSessionHandle : Type 0 where
  pub session_id : String
  pub word : ℕ
  pub closes : ℕ

-- `LiveSessionHandle::new`.
unfoldable pub new_handle : String → LiveSessionHandle
new_handle session_id = record { session_id = session_id; word = 0; closes = 0 }

unfoldable pub is_fenced : LiveSessionHandle → Bool
is_fenced h = word_is_fenced h.word

-- `LiveSessionHandle::fence`.
unfoldable pub fence_handle : LiveSessionHandle → LiveSessionHandle
fence_handle h =
    let fenced = record h { word = fence_word h.word } in
    if word_is_fenced h.word then fenced else record fenced { closes = h.closes + 1 }

pub record LiveSessions : Type 0 where
  pub by_session : List (String × ℕ)
  pub by_route : List (LiveSessionRoute × String)
  pub handles : ℕ → LiveSessionHandle
  pub allocated : ℕ

unfoldable pub empty_sessions : LiveSessions
empty_sessions = record {
  by_session = [];
  by_route = [];
  handles = λ h. new_handle "";
  allocated = 0;
}

unfoldable pub fence_at : ℕ → LiveSessions → LiveSessions
fence_at address r = record r {
  handles = λ h. if h == address then fence_handle (r.handles h) else r.handles h;
}

-- The end of `fence_route`, from the session of the route on.
unfoldable pub fence_session : Option String → LiveSessions → LiveSessions × Option String
fence_session none r = (r, none)
fence_session (some session_id) r = elim (lookup str_eq session_id r.by_session) [
  | none ↦ (r, none)
  | some address ↦ (fence_at address r, some session_id)
]

unfoldable pub fence_route : LiveSessionRoute → LiveSessions → LiveSessions × Option String
fence_route route r = fence_session (lookup route_eq route r.by_route) r

-- `if let Some(handle) = by_session.remove(id) { handle.fence(); }`.
unfoldable pub remove_fenced : String → LiveSessions → LiveSessions
remove_fenced session_id r = elim (lookup str_eq session_id r.by_session) [
  | none ↦ r
  | some address ↦
      fence_at address (record r { by_session = remove str_eq session_id r.by_session })
]

abbrev pub remove_optional : Option String → LiveSessions → LiveSessions
remove_optional none r = r
remove_optional (some session_id) r = remove_fenced session_id r

-- The two removals of `activate`: the session of the route, and the one that is replaced.
unfoldable pub displace : LiveSessionRoute → Option String → LiveSessions → LiveSessions
displace route replaced r =
    remove_optional replaced (remove_optional (lookup route_eq route r.by_route) r)

-- The insertions of `activate`.
unfoldable pub publish : LiveSessionRoute → String → LiveSessions → LiveSessions
publish route session_id r = record {
  by_session = insert str_eq session_id r.allocated r.by_session;
  by_route = insert route_eq route session_id r.by_route;
  handles = λ h. if h == r.allocated then new_handle session_id else r.handles h;
  allocated = suc r.allocated;
}

-- `activate`, which returns the address of the new handle.
unfoldable pub activate :
    LiveSessionRoute → String → Option String → LiveSessions → LiveSessions × ℕ
activate route session_id replaced r =
    let displaced = displace route replaced r in
    (publish route session_id displaced, displaced.allocated)

-- `handle`.
unfoldable pub handle : String → LiveSessions → Option ℕ
handle session_id r = lookup str_eq session_id r.by_session

-- `disconnect`.
unfoldable pub disconnect : String → LiveSessions → LiveSessions × Bool
disconnect session_id r = elim (lookup str_eq session_id r.by_session) [
  | none ↦ (r, false)
  | some address ↦
      let removed = remove_fenced session_id r in
      (
        record removed { by_route = retain (λ active. str_ne active session_id) removed.by_route },
        true,
      )
]

unfoldable pub fence_all : List (String × ℕ) → LiveSessions → LiveSessions
fence_all [] r = r
fence_all ((session_id, address) ∷ rest) r = fence_all rest (fence_at address r)

-- `clear`.
unfoldable pub clear : LiveSessions → LiveSessions
clear r = record (fence_all r.by_session r) { by_session = []; by_route = [] }
