-- ===== src/Sessions/Tests.antt =====
-- crates/gateway/src/registry.rs: a session that is replaced while it writes, and its late disconnect.
use sinan.Prelude.{
  ℕ, ◌*◌, ◌<◌, String, true, false, none, some, List, [], ◌∷◌, ◌≡◌, ◌⊎◌, inr, refl, arith, any,
}
use sinan.Prelude.Maps.{lookup}
use sinan.Sessions.Gate.{
  fenced_bit, word_is_fenced, writers_of, load, exchange, drop_permit, GateEvent, act, gate_run,
}
use sinan.Sessions.Steps.{all_permits}
use sinan.Sessions.Admission.{is_fence, new_gate, gate_run-counts}
use sinan.Sessions.Fencing.{NoneNew, fenced_gate, fence-NoneNew}
use sinan.Sessions.Registry.{
  LiveSessionRoute, route_eq, new_handle, is_fenced, LiveSessions, empty_sessions, remove_fenced,
  fence_at, displace, publish, activate, handle, disconnect, clear,
}
use sinan.Sessions.Ownership.{IsOwned}
use sinan.Sessions.History.{
  activated, registry_step, Admissible, Reaches, here, operate, registry-IsOwned, clear-closes,
}
use sinan.Sessions.Replacement.{activated_sessions, activate-replaces}
use sinan.Sessions.Writing.{OutboundFrame, written, write, Takes, IsRefused, write-Takes}

abbrev events : List GateEvent
events = act 0 load ∷ act 1 load ∷ act 0 exchange ∷ []

abbrev late_events : List GateEvent
late_events = act 1 exchange ∷ act 0 drop_permit ∷ []

gate_run-counts_example :
    ((gate_run events (new_gate 2)).word < 2 * fenced_bit)
    × (writers_of (gate_run events (new_gate 2)).word
        ≡ all_permits (gate_run events (new_gate 2)).writers)
    × (word_is_fenced (gate_run events (new_gate 2)).word ≡ any is_fence events)
gate_run-counts_example = gate_run-counts 2 events

fence-NoneNew_example :
    NoneNew (fenced_gate 2 events).writers (gate_run late_events (fenced_gate 2 events)).writers
    × (word_is_fenced (gate_run late_events (fenced_gate 2 events)).word ≡ true)
fence-NoneNew_example = fence-NoneNew 2 events late_events

abbrev route : LiveSessionRoute
route = record { client_id = "client_1"; account_id = "account_1"; terminal_id = some "terminal_1" }

abbrev first_sessions : LiveSessions
first_sessions = registry_step (activated route "session_old" none) empty_sessions

first_reached : Reaches empty_sessions first_sessions
unfolding Admissible displace empty_sessions handle
first_reached =
    operate (activated route "session_old" none) empty_sessions first_sessions refl
      (here first_sessions)

registry-IsOwned_example : IsOwned first_sessions
registry-IsOwned_example = registry-IsOwned first_sessions first_reached

clear-closes_example :
    ((s : String) → handle s (clear first_sessions) ≡ none)
    × ((h : ℕ)
        → h < first_sessions.allocated
        → (is_fenced ((clear first_sessions).handles h) ≡ true)
          × (((clear first_sessions).handles h).closes ≡ 1))
clear-closes_example = clear-closes first_sessions (registry-IsOwned first_sessions first_reached)

abbrev next_sessions : LiveSessions
next_sessions = activated_sessions route "session_new" (some "session_old") first_sessions

first_found : handle "session_old" first_sessions ≡ some 0
unfolding registry_step activate publish displace empty_sessions handle
first_found = refl

new_free : handle "session_new" (displace route (some "session_old") first_sessions) ≡ none
unfolding registry_step activate publish displace remove_fenced fence_at empty_sessions handle
new_free = refl

activate-replaces_example :
    (is_fenced (next_sessions.handles 0) ≡ true)
    × (handle "session_old" next_sessions ≡ none)
    × (disconnect "session_old" next_sessions ≡ (next_sessions, false))
    × (lookup route_eq route next_sessions.by_route ≡ some "session_new")
    × ((a : ℕ) × (handle "session_new" next_sessions ≡ some a)
        × (is_fenced (next_sessions.handles a) ≡ false))
activate-replaces_example =
    activate-replaces route "session_new" "session_old" (some "session_old") first_sessions 0
      (registry-IsOwned first_sessions first_reached) new_free (inr refl) refl first_found

abbrev frame : OutboundFrame
frame = record {
  session_id = "session_new";
  message_id = "message_1";
  sequence = 2;
  wire_bytes = 123 ∷ 125 ∷ [];
}

write-Takes_example :
    ((write (λ f. written) (new_handle "session_new") frame).word ≡ (new_handle "session_new").word)
    × ((Takes (new_handle "session_new") frame
          × ((write (λ f. written) (new_handle "session_new") frame).passed_on ≡ some frame)
          × ((write (λ f. written) (new_handle "session_new") frame).outcome ≡ written))
        ⊎ (¬ Takes (new_handle "session_new") frame
            × IsRefused (write (λ f. written) (new_handle "session_new") frame)))
unfolding new_handle
write-Takes_example = write-Takes (λ f. written) (new_handle "session_new") frame (omega arith)
