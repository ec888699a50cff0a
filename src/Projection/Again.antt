-- ===== src/Projection/Again.antt =====
-- crates/execution/src/projector.rs: a projected plan is projected to itself.
use sinan.Prelude.{
  suc, String, List, [], ◌∷◌, not, ◌≡◌, refl, sym, ◌∙◌, ap, subst, Result, ok, err, ◌>>=◌,
  >>=-eq-ok, reject_if, ok-injective, any, length, ◌==◌,
}
use sinan.Types.Command.{ExecutionCommandState, ExecutionEvent}
use sinan.Types.Plan.{ExecutionLegDefinition, ExecutionLegState, ExecutionLeg, ExecutionPlan}
use sinan.Projection.Leg.{Fills, no_fills, is_foreign, project_event, project_events, project_leg}
use sinan.Projection.Validation.{validate_plan}
use sinan.Projection.Fills.{project_leg-status}
use sinan.Projection.Plan.{
  states_of, events_of, project_legs, is_stray, is_foreign_state, projected_plan, as_mismatch,
  project_plan,
}

bind_cong :
    {E A B : Type 0} (r : Result E A) (f g : A → Result E B)
    → ((a : A) → f a ≡ g a)
    → (r >>= f) ≡ (r >>= g)
bind_cong (ok a) f g h = h a
bind_cong (err e) f g h = refl

project_events-state :
    (plan_id account_id : String) (d : ExecutionLegDefinition) (s t : ExecutionLegState)
    (command : ExecutionCommandState) (events : List ExecutionEvent) (fills : Fills)
    → project_events plan_id account_id (record { definition = d; state = s }) command events fills
      ≡ project_events plan_id account_id
          (record { definition = d; state = t })
          command
          events
          fills
unfolding project_events project_event is_foreign
project_events-state plan_id account_id d s t command [] fills = refl
project_events-state plan_id account_id d s t command (event ∷ events) fills =
    bind_cong
      (project_event plan_id account_id (record { definition = d; state = s }) command event fills)
      _ _ (λ next. project_events-state plan_id account_id d s t command events next)

-- The projection of a leg does not read its status.
project_leg-state :
    (plan_id account_id : String) (d : ExecutionLegDefinition) (s t : ExecutionLegState)
    (commands : List ExecutionCommandState) (events : List ExecutionEvent)
    → project_leg plan_id account_id (record { definition = d; state = s }) commands events
      ≡ project_leg plan_id account_id (record { definition = d; state = t }) commands events
unfolding project_leg
project_leg-state plan_id account_id d s t [] events = refl
project_leg-state plan_id account_id d s t (command ∷ []) events =
    rw (project_events-state plan_id account_id d s t command events no_fills) refl
project_leg-state plan_id account_id d s t (command ∷ other ∷ more) events = refl

project_leg-again :
    (plan_id account_id : String) (leg p : ExecutionLeg) (commands : List ExecutionCommandState)
    (events : List ExecutionEvent)
    → project_leg plan_id account_id leg commands events ≡ ok p
    → (p.definition ≡ leg.definition) × (project_leg plan_id account_id p commands events ≡ ok p)
project_leg-again plan_id account_id leg p commands events h =
    let (_, _, _, _, _, same, _) = project_leg-status plan_id account_id leg p commands events h in
    (
      same,
      ap
            (λ d.
              project_leg plan_id account_id (record { definition = d; state = p.state }) commands
                events)
            same
          ∙ project_leg-state plan_id account_id leg.definition p.state leg.state commands events
          ∙ h,
    )

project_legs-again :
    (plan_id account_id : String) (states : List ExecutionCommandState)
    (events : List ExecutionEvent) (legs : List ExecutionLeg) {projected : List ExecutionLeg}
    → project_legs plan_id account_id states events legs ≡ ok projected
    → (length projected ≡ length legs)
      × (project_legs plan_id account_id states events projected ≡ ok projected)
unfolding project_legs
project_legs-again plan_id account_id states events [] h =
    subst
      (λ (l : List ExecutionLeg).
        (length l ≡ 0) × (project_legs plan_id account_id states events l ≡ ok l))
      (ok-injective h) (refl, refl)
project_legs-again plan_id account_id states events (leg ∷ legs) h =
    let mine = states_of leg.definition.leg_id states in
    let reports = events_of leg.definition.leg_id events in
    let (p, a, h1) = >>=-eq-ok (project_leg plan_id account_id leg mine reports) _ h in
    let (ps, b, h2) = >>=-eq-ok (project_legs plan_id account_id states events legs) _ h1 in
    let (same, once) = project_leg-again plan_id account_id leg p mine reports a in
    let (long, rest) = project_legs-again plan_id account_id states events legs b in
    let own =
      subst
        (λ (d : ExecutionLegDefinition).
          project_leg plan_id account_id p (states_of d.leg_id states) (events_of d.leg_id events)
          ≡ ok p)
        (sym same) once in
    subst
      (λ (l : List ExecutionLeg).
        (length l ≡ suc (length legs)) × (project_legs plan_id account_id states events l ≡ ok l))
      (ok-injective h2) (ap suc long, rw (own, rest) refl)

-- A plan that is projected from its commands and events is a projection of itself: from the same
-- commands and events it is projected again, without a change.
pub project_plan-again :
    (plan projected : ExecutionPlan) (states : List ExecutionCommandState)
    (events : List ExecutionEvent)
    → project_plan plan states events ≡ ok projected
    → project_plan projected states events ≡ ok projected
unfolding project_plan projected_plan
project_plan-again plan projected states events h =
    let (_, a, h1) = >>=-eq-ok (reject_if (length plan.legs == 0) _) _ h in
    let (_, b, h2) = >>=-eq-ok (reject_if (not (length states == length plan.legs)) _) _ h1 in
    let (_, d, h3) = >>=-eq-ok (reject_if (any (is_foreign_state plan.definition) states) _) _ h2 in
    let (legs, e, h4) =
      >>=-eq-ok
        (project_legs plan.definition.plan_id plan.definition.account_id states events plan.legs) _
        h3 in
    let (_, f, h5) = >>=-eq-ok (reject_if (any (is_stray legs) events) _) _ h4 in
    let (_, g, h6) = >>=-eq-ok (as_mismatch (validate_plan (projected_plan plan legs))) _ h5 in
    let (long, again) =
      project_legs-again plan.definition.plan_id plan.definition.account_id states events plan.legs
        e in
    subst (λ (p : ExecutionPlan). project_plan p states events ≡ ok p) (ok-injective h6)
      (rw (long, a, b, d, again, f, g) refl)
