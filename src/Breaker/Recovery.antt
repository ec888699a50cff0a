-- ===== src/Breaker/Recovery.antt =====
-- crates/risk/src/circuit_breaker.rs: the two ways that lead back to trading, what each one requires,
-- and the action matrix until then.
use sinan.Prelude.{
  ℤ, String, List, [], ◌∷◌, Bool, true, false, Option, none, some, ◌≡◌, refl, ◌≢◌, inl, inr, arith,
  is_negative, ◌≤ℤ◌, ok, All, not, >>=-eq-ok, ok-injective, ◌⊎◌,
}
use sinan.Breaker.Types.{
  CircuitBreakerPolicy, CircuitBreakerStatus, closed, opened, half_open, RecoveryPrerequisite,
}
use sinan.Breaker.Input.{
  CircuitBreakerInput, TransitionRequest, HalfOpenReadiness, CircuitBreakerAction,
}
use sinan.Breaker.State.{
  CircuitBreakerState, is_active, authorize, action_allowed, is_risk_increasing,
}
use sinan.Breaker.Policy.{missing_half_open_prerequisites, missing_of, check_range}
use sinan.Breaker.Machine.{incident_state}
use sinan.Breaker.Requests.{cleared_state}
use sinan.Breaker.Closing.{closed_state, transition}
use sinan.Breaker.Step.{
  Step, stay, incident, exhausted, evidence_cleared, half_opened, reset, counted, Closes, Enters,
}
use sinan.Breaker.Served.{transition-Step}
use sinan.Breaker.Safety.{Step-closing}
use sinan.Breaker.History.{Call, run}

-- A call of `transition` closes an active breaker only if it was half-open and the request was a
-- close that met every condition of `Closes`: the observation window has passed, no violation was
-- collected, clock and store are healthy, and the reset is authorized under the name that the new
-- state records.
pub transition-closing :
    (p : CircuitBreakerPolicy) (s : CircuitBreakerState) (request : TransitionRequest) (now : ℤ)
    → is_active s.status ≡ true
    → (transition p s request now).state.status ≡ closed
    → (s.status ≡ half_open)
      × ((by : String) × ((transition p s request now).state ≡ closed_state s by now)
          × Closes p request s by now)
transition-closing p s request now =
    Step-closing p request now s (transition p s request now).state
      (transition-Step p s request now)

-- A time that is present, not before the trigger and not after the server time.
abbrev pub IsFresh : ℤ → ℤ → Option ℤ → Type 0
IsFresh triggered_at now none = ⊥
IsFresh triggered_at now (some t) = (triggered_at ≤ℤ t) × (t ≤ℤ now) × (is_negative t ≡ false)

active_or_closed : (status : CircuitBreakerStatus) → (is_active status ≡ true) ⊎ (status ≡ closed)
unfolding is_active
active_or_closed closed = inr refl
active_or_closed opened = inl refl
active_or_closed half_open = inl refl

action_allowed-active :
    (status : CircuitBreakerStatus) (action : CircuitBreakerAction)
    → is_active status ≡ true
    → action_allowed status action ≡ not (is_risk_increasing action)
unfolding is_active action_allowed is_risk_increasing
action_allowed-active status action h = ground arith

Step-half_opened :
    (p : CircuitBreakerPolicy) (request : TransitionRequest) (now : ℤ) (s t : CircuitBreakerState)
    → Step p request now s t
    → s.status ≢ half_open
    → t.status ≡ half_open
    → (s.status ≡ opened) × ((input : CircuitBreakerInput) × Enters p request s input now)
unfolding incident_state cleared_state closed_state
Step-half_opened p request now s t (stay e) other half = ground arith
Step-half_opened p request now s t (incident e es at _ _ _ _ q) other half = ground arith
Step-half_opened p request now s t (exhausted e at _ _ _ _ q) other half = ground arith
Step-half_opened p request now s t (evidence_cleared _ _ at _ q) other half = ground arith
Step-half_opened p request now s t (half_opened input _ _ at entry q) other half =
    (at, (input, entry))
Step-half_opened p request now s t (reset by _ _ at _ closing q) other half = ground arith
Step-half_opened p request now s t (counted n _ q) other half = ground arith

IsFresh-field :
    (field : String) (o : Option ℤ) (p : RecoveryPrerequisite)
    (rest : List (String × Option ℤ × RecoveryPrerequisite)) (triggered_at now : ℤ)
    → missing_of ((field, o, p) ∷ rest) triggered_at now ≡ ok []
    → IsFresh triggered_at now o × (missing_of rest triggered_at now ≡ ok [])
unfolding missing_of
IsFresh-field field none p rest triggered_at now h =
    let (missing, e, h') = >>=-eq-ok (missing_of rest triggered_at now) _ h in
    let none_left = ok-injective h' in cc
IsFresh-field field (some t) p rest triggered_at now h =
    let (u, range, h') = >>=-eq-ok (check_range field (some t) now) _ h in
    let (missing, e, h'') = >>=-eq-ok (missing_of rest triggered_at now) _ h' in
    let left = ok-injective h'' in ground arith

complete-IsFresh :
    (r : HalfOpenReadiness) (t now : ℤ)
    → missing_half_open_prerequisites r t now ≡ ok []
    → IsFresh t now r.account_refreshed_at_ms
      × IsFresh t now r.positions_refreshed_at_ms
      × IsFresh t now r.orders_refreshed_at_ms
      × IsFresh t now r.symbol_metadata_refreshed_at_ms
      × IsFresh t now r.pending_commands_reconciled_at_ms
unfolding missing_half_open_prerequisites
complete-IsFresh r t now h =
    let (a, ka) = IsFresh-field _ _ _ _ t now h in
    let (b, kb) = IsFresh-field _ _ _ _ t now ka in
    let (c, kc) = IsFresh-field _ _ _ _ t now kb in
    let (d, kd) = IsFresh-field _ _ _ _ t now kc in
    let (f, kf) = IsFresh-field _ _ _ _ t now kd in (a, b, c, d, f)

-- A call of `transition` makes a breaker half-open that was not only if it was open and the request
-- was one to enter the half-open state, with evidence of the present recovery epoch in which each
-- of the five refreshes is present, not before the trigger and not after the server time.
pub transition-half_opened :
    (p : CircuitBreakerPolicy) (s : CircuitBreakerState) (request : TransitionRequest) (now : ℤ)
    → s.status ≢ half_open
    → (transition p s request now).state.status ≡ half_open
    → (s.status ≡ opened)
      × ((r : HalfOpenReadiness) × (input : CircuitBreakerInput) × (t : ℤ) × (request
            ≡ TransitionRequest.enter_half_open r input)
          × (s.triggered_at_ms ≡ some t)
          × (r.recovery_epoch ≡ s.recovery_epoch)
          × IsFresh t now r.account_refreshed_at_ms
          × IsFresh t now r.positions_refreshed_at_ms
          × IsFresh t now r.orders_refreshed_at_ms
          × IsFresh t now r.symbol_metadata_refreshed_at_ms
          × IsFresh t now r.pending_commands_reconciled_at_ms)
transition-half_opened p s request now other half =
    let (at, entry) =
      Step-half_opened p request now s (transition p s request now).state
        (transition-Step p s request now) other half in
    let (input, e) = entry in
    let (a, b, c, d, f) = complete-IsFresh e.readiness e.triggered_at now e.complete in
    (
      at,
      (e.readiness, input, e.triggered_at, e.asked, e.was_triggered, e.same_epoch, a, b, c, d, f),
    )

-- Requests that do not ask to close.
abbrev pub is_close : TransitionRequest → Bool
is_close (TransitionRequest.close health authorization) = true
is_close (TransitionRequest.observe input) = false
is_close (TransitionRequest.enter_half_open readiness input) = false
is_close (TransitionRequest.record_blocked_intent_count n) = false

transition-stays_active :
    (p : CircuitBreakerPolicy) (s : CircuitBreakerState) (request : TransitionRequest) (now : ℤ)
    → is_active s.status ≡ true
    → is_close request ≡ false
    → is_active (transition p s request now).state.status ≡ true
transition-stays_active p s request now on h =
    elim (active_or_closed (transition p s request now).state.status) [
      | inl e ↦ e
      | inr off ↦
          let (by, q, c) = (transition-closing p s request now on off).1 in
          let asked = c.asked in ground arith
    ]

run-stays_active :
    (s : CircuitBreakerState) (cs : List Call)
    → is_active s.status ≡ true
    → All (λ c. is_close c.request ≡ false) cs
    → is_active (run s cs).status ≡ true
unfolding run
run-stays_active s [] on h = on
run-stays_active s (c ∷ cs) on h =
    run-stays_active (transition c.policy s c.request c.server_now_ms).state cs
      (transition-stays_active c.policy s c.request c.server_now_ms on h.0) h.1

-- From an active breaker on, through any calls none of which asks to close, an action is authorized
-- exactly if it does not increase the risk; a refusal carries the reason that the state records.
pub authorize-run :
    (s : CircuitBreakerState) (cs : List Call) (action : CircuitBreakerAction)
    → is_active s.status ≡ true
    → All (λ c. is_close c.request ≡ false) cs
    → ((authorize (run s cs) action).allowed ≡ not (is_risk_increasing action))
      × (is_risk_increasing action ≡ true
          → (authorize (run s cs) action).blocked_reason ≡ some (run s cs).reason)
unfolding authorize
authorize-run s cs action on h =
    let e = action_allowed-active (run s cs).status action (run-stays_active s cs on h) in
    (e, λ risky. rw (e, risky))
