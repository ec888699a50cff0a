-- ===== src/Projection/Fills.antt =====
-- crates/execution/src/projector.rs: recorded fills decide the status of a leg; and what is closed.
use sinan.Prelude.{
  String, List, [], ◌∷◌, Bool, false, not, ◌&&◌, ◌||◌, Option, some, ◌≡◌, ◌↔◌, refl, sym, ◌∙◌, ap,
  subst, arith, ok, >>=-eq-ok, reject_if, reject_if-eq-ok, ok-injective, any, str_eq, str_ne,
  opt_str_ne, if◌then◌else◌,
}
use sinan.Types.Command.{ExecutionCommandState, ExecutionEvent}
use sinan.Types.Plan.{
  ExecutionLegStatus, ExecutionLeg, RollbackMode, close_filled, ExecutionFailurePolicy,
  ExecutionPlanStatus, partial, ExecutionPlan,
}
use sinan.Lifecycle.Evidence.{is_fill, bad_value}
use sinan.Projection.Leg.{
  Fills, no_fills, is_partial_event, is_full_event, is_foreign, project_event, project_events,
  lifecycle_status, leg_status, project_leg,
}
use sinan.Projection.Recovery.{close_legs, recover_by, mode_of, recover_in, decide_recovery}

-- Whether an event reports the full fill, or a partial one.
abbrev pub any_full : List ExecutionEvent → Bool
any_full events = any (λ (e : ExecutionEvent). is_full_event e.status) events

abbrev pub any_partial : List ExecutionEvent → Bool
any_partial events = any (λ (e : ExecutionEvent). is_partial_event e.status) events

-- Whether an event is one of those before it again.
unfoldable pub repeats : List String → List ExecutionEvent → Bool
repeats seen [] = false
repeats seen (e ∷ events) =
    any (str_eq e.execution_id) seen || repeats (e.execution_id ∷ seen) events

module _ (plan_id account_id : String) (leg : ExecutionLeg) (command : ExecutionCommandState) where
  project_event-ok :
      (e : ExecutionEvent) (fills : Fills) {next : Fills}
      → project_event plan_id account_id leg command e fills ≡ ok next
      → (next.has_full_fill ≡ (fills.has_full_fill || is_full_event e.status))
        × (next.has_partial_fill ≡ (fills.has_partial_fill || is_partial_event e.status))
        × (next.execution_ids ≡ e.execution_id ∷ fills.execution_ids)
        × (any (str_eq e.execution_id) fills.execution_ids ≡ false)
  unfolding project_event is_foreign
  project_event-ok e fills h =
      let (_, a, h1) =
        >>=-eq-ok (reject_if (is_foreign plan_id account_id leg command fills.execution_ids e) _) _
          h in
      let (_, _, h2) = >>=-eq-ok (reject_if (is_fill e.status && _) _) _ h1 in
      let (_, _, h3) = >>=-eq-ok (reject_if (not (is_fill e.status) && _) _) _ h2 in
      let (_, _, h4) =
        >>=-eq-ok
          (reject_if
            (any bad_value
              (e.requested_lots ∷ e.fill_price ∷ e.filled_lots ∷ e.remaining_lots ∷ []))
            _)
          _ h3 in
      let same = ok-injective h4 in
      let known =
        reject_if-eq-ok (is_foreign plan_id account_id leg command fills.execution_ids e) _ a in
      (
        ap (λ (f : Fills). f.has_full_fill) (sym same),
        ap (λ (f : Fills). f.has_partial_fill) (sym same),
        ap (λ (f : Fills). f.execution_ids) (sym same),
        ground arith,
      )

  project_events-ok :
      (events : List ExecutionEvent) (fills : Fills) {next : Fills}
      → project_events plan_id account_id leg command events fills ≡ ok next
      → (next.has_full_fill ≡ (fills.has_full_fill || any_full events))
        × (next.has_partial_fill ≡ (fills.has_partial_fill || any_partial events))
        × (repeats fills.execution_ids events ≡ false)
  unfolding project_events repeats
  project_events-ok [] fills h = let same = ok-injective h in (ground arith, ground arith, refl)
  project_events-ok (e ∷ events) fills h =
      let (f, a, h1) = >>=-eq-ok (project_event plan_id account_id leg command e fills) _ h in
      let (full, part, ids, new) = project_event-ok e fills a in
      let (rest_full, rest_part, once) = project_events-ok events f h1 in
      (ground arith, ground arith, rw new (subst (λ seen. repeats seen events ≡ false) ids once))

-- A leg is projected from a single command, whose status has a projection, and from events none of
-- which is counted twice. Only its status changes: FILLED if an event reports a full fill, whatever
-- the command says and in whatever order the events stand, otherwise PARTIALLY_FILLED if one reports a
-- partial fill, and otherwise the projection of the command's status.
pub project_leg-status :
    (plan_id account_id : String) (leg projected : ExecutionLeg)
    (commands : List ExecutionCommandState) (events : List ExecutionEvent)
    → project_leg plan_id account_id leg commands events ≡ ok projected
    → (command : ExecutionCommandState) × (lifecycle : ExecutionLegStatus) × (commands
        ≡ command ∷ [])
      × (lifecycle_status command.status ≡ ok lifecycle)
      × (repeats [] events ≡ false)
      × (projected.definition ≡ leg.definition)
      × (projected.state.status ≡ (
          if any_full events
          then ExecutionLegStatus.filled
          else if any_partial events
          then ExecutionLegStatus.partially_filled
          else lifecycle))
unfolding project_leg no_fills leg_status
project_leg-status plan_id account_id leg projected [] events h = cc
project_leg-status plan_id account_id leg projected (command ∷ other ∷ more) events h = cc
project_leg-status plan_id account_id leg projected (command ∷ []) events h =
    let (_, _, h1) =
      >>=-eq-ok
        (reject_if
          (str_ne command.account_id account_id
            || opt_str_ne command.plan_id (some plan_id)
            || opt_str_ne command.leg_id (some leg.definition.leg_id))
          _)
        _ h in
    let (fills, a, h2) =
      >>=-eq-ok (project_events plan_id account_id leg command events no_fills) _ h1 in
    let (lifecycle, b, h3) = >>=-eq-ok (lifecycle_status command.status) _ h2 in
    let same = ok-injective h3 in
    let (full, part, once) = project_events-ok plan_id account_id leg command events no_fills a in
    (
      command,
      lifecycle,
      refl,
      b,
      once,
      ap (λ (l : ExecutionLeg). l.definition) (sym same),
      sym (ap (λ (l : ExecutionLeg). l.state.status) same) ∙ rw (full, part) refl,
    )

recover_by-closes :
    (mode : Option RollbackMode) (failure_policy : ExecutionFailurePolicy) (legs ids : List String)
    → (recover_by mode failure_policy legs ≡ close_legs ids)
      ↔ ((mode ≡ some close_filled) × (legs ≡ ids) × ¬ (ids ≡ []))
unfolding recover_by
recover_by-closes mode failure_policy legs ids = (
  (λ h. (ground arith, ground arith, λ e. ground arith)),
  (λ h. let (a, b, c) = h in ground arith),
)

recover_in-closes :
    (status : ExecutionPlanStatus) (plan : ExecutionPlan) (ids : List String)
    → (recover_in status plan ≡ close_legs ids) ↔ (
        (status ≡ partial)
        × (mode_of plan.definition.rollback_policy ≡ some close_filled)
        × (plan.state.filled_legs ≡ ids)
        × ¬ (ids ≡ []))
unfolding recover_in
recover_in-closes ExecutionPlanStatus.pending plan ids =
    ((λ h. cc), (λ h. let (e, _, _, _) = h in cc))
recover_in-closes ExecutionPlanStatus.reconciling plan ids =
    ((λ h. cc), (λ h. let (e, _, _, _) = h in cc))
recover_in-closes ExecutionPlanStatus.manual_reconciliation_required plan ids =
    ((λ h. cc), (λ h. let (e, _, _, _) = h in cc))
recover_in-closes ExecutionPlanStatus.completed plan ids =
    ((λ h. cc), (λ h. let (e, _, _, _) = h in cc))
recover_in-closes ExecutionPlanStatus.failed plan ids =
    ((λ h. cc), (λ h. let (e, _, _, _) = h in cc))
recover_in-closes ExecutionPlanStatus.expired plan ids =
    ((λ h. cc), (λ h. let (e, _, _, _) = h in cc))
recover_in-closes ExecutionPlanStatus.cancelled plan ids =
    ((λ h. cc), (λ h. let (e, _, _, _) = h in cc))
recover_in-closes partial plan ids =
    let by =
      recover_by-closes (mode_of plan.definition.rollback_policy) plan.definition.failure_policy
        plan.state.filled_legs ids in
    (
      (λ h. let (a, b, d) = by.0 h in (refl, a, b, d)),
      (λ h. let (_, a, b, d) = h in by.1 (a, b, d)),
    )

-- Positions are closed exactly if the plan is PARTIAL, its policy is to close what is filled, and there
-- are filled legs; then exactly those are closed.
pub decide_recovery-closes :
    (plan : ExecutionPlan) (ids : List String)
    → (decide_recovery plan ≡ close_legs ids) ↔ (
        (plan.state.status ≡ partial)
        × (mode_of plan.definition.rollback_policy ≡ some close_filled)
        × (plan.state.filled_legs ≡ ids)
        × ¬ (ids ≡ []))
unfolding decide_recovery
decide_recovery-closes plan ids = recover_in-closes plan.state.status plan ids
