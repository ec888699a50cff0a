-- ===== src/Projection/Exposure.antt =====
-- crates/types/src/dto.rs: what the status of a plan says about the exposure of its legs.
use sinan.Prelude.{
  Bool, true, false, not, ◌&&◌, ◌||◌, List, [], ◌∷◌, ◌≡◌, refl, arith, if◌then◌else◌,
}
use sinan.Types.Plan.{ExecutionPlanStatus, ExecutionLegStatus, ExecutionLeg}
use sinan.Projection.PlanStatus.{
  all_legs, any_leg, is_filled, is_partially_filled, is_cancelled, is_expired, is_manual,
  is_unresolved, leg_status_is_terminal, derive_execution_plan_status,
}

-- A leg that holds a position.
unfoldable pub is_exposed : ExecutionLegStatus → Bool
unfolding is_filled is_partially_filled
is_exposed s = is_filled s || is_partially_filled s

-- The plan statuses that say that a leg is exposed, and those that admit it.
unfoldable pub shows_exposure : ExecutionPlanStatus → Bool
shows_exposure ExecutionPlanStatus.completed = true
shows_exposure ExecutionPlanStatus.partial = true
shows_exposure _ = false

unfoldable pub admits_exposure : ExecutionPlanStatus → Bool
admits_exposure ExecutionPlanStatus.completed = true
admits_exposure ExecutionPlanStatus.partial = true
admits_exposure ExecutionPlanStatus.manual_reconciliation_required = true
admits_exposure _ = false

-- The plan statuses after which nothing is to be expected of a leg.
unfoldable pub is_final : ExecutionPlanStatus → Bool
is_final ExecutionPlanStatus.completed = true
is_final ExecutionPlanStatus.cancelled = true
is_final ExecutionPlanStatus.expired = true
is_final ExecutionPlanStatus.failed = true
is_final _ = false

all_legs_mono :
    (p q : ExecutionLegStatus → Bool) (legs : List ExecutionLeg)
    → ((s : ExecutionLegStatus) → p s ≡ true → q s ≡ true)
    → all_legs p legs ≡ true
    → all_legs q legs ≡ true
all_legs_mono p q [] h k = refl
all_legs_mono p q (leg ∷ legs) h k =
    let here = h leg.state.status in let rest = all_legs_mono p q legs h in ground arith

all_legs-excludes :
    (p q : ExecutionLegStatus → Bool) (legs : List ExecutionLeg)
    → ((s : ExecutionLegStatus) → p s ≡ true → q s ≡ false)
    → all_legs p legs ≡ true
    → any_leg q legs ≡ false
all_legs-excludes p q [] h k = refl
all_legs-excludes p q (leg ∷ legs) h k =
    let here = h leg.state.status in let rest = all_legs-excludes p q legs h in ground arith

any_leg-or :
    (p q : ExecutionLegStatus → Bool) (legs : List ExecutionLeg)
    → any_leg (λ s. p s || q s) legs ≡ (any_leg p legs || any_leg q legs)
any_leg-or p q [] = refl
any_leg-or p q (leg ∷ legs) = let rest = any_leg-or p q legs in ground arith

any_leg-exposed :
    (legs : List ExecutionLeg)
    → any_leg is_exposed legs ≡ (any_leg is_filled legs || any_leg is_partially_filled legs)
unfolding is_exposed
any_leg-exposed legs = any_leg-or is_filled is_partially_filled legs

cancelled-not_exposed : (s : ExecutionLegStatus) → is_cancelled s ≡ true → is_exposed s ≡ false
unfolding is_cancelled is_exposed is_filled is_partially_filled
cancelled-not_exposed s h = ground arith

expired-not_exposed : (s : ExecutionLegStatus) → is_expired s ≡ true → is_exposed s ≡ false
unfolding is_expired is_exposed is_filled is_partially_filled
expired-not_exposed s h = ground arith

filled-terminal : (s : ExecutionLegStatus) → is_filled s ≡ true → leg_status_is_terminal s ≡ true
unfolding is_filled leg_status_is_terminal
filled-terminal s h = ground arith

cancelled-terminal :
    (s : ExecutionLegStatus) → is_cancelled s ≡ true → leg_status_is_terminal s ≡ true
unfolding is_cancelled leg_status_is_terminal
cancelled-terminal s h = ground arith

expired-terminal : (s : ExecutionLegStatus) → is_expired s ≡ true → leg_status_is_terminal s ≡ true
unfolding is_expired leg_status_is_terminal
expired-terminal s h = ground arith

all_filled-some :
    (leg : ExecutionLeg) (legs : List ExecutionLeg)
    → all_legs is_filled (leg ∷ legs) ≡ true
    → any_leg is_filled (leg ∷ legs) ≡ true
all_filled-some leg legs h = ground arith

-- The decision of the plan's status, on what is known of the legs.
unfoldable decided : (all_f all_c all_e any_m any_p any_f all_t any_u : Bool) → ExecutionPlanStatus
decided all_f all_c all_e any_m any_p any_f all_t any_u =
    if all_f
    then ExecutionPlanStatus.completed
    else if all_c
    then ExecutionPlanStatus.cancelled
    else if all_e
    then ExecutionPlanStatus.expired
    else if any_m
    then ExecutionPlanStatus.manual_reconciliation_required
    else if any_p || (any_f && not all_f)
    then ExecutionPlanStatus.partial
    else if all_t
    then ExecutionPlanStatus.failed
    else if any_u
    then ExecutionPlanStatus.reconciling
    else ExecutionPlanStatus.pending

decided-exposed :
    (all_f all_c all_e any_m any_p any_f all_t any_u exposed : Bool)
    → exposed ≡ (any_f || any_p)
    → (all_f ≡ true → any_f ≡ true)
    → (all_c ≡ true → exposed ≡ false)
    → (all_e ≡ true → exposed ≡ false)
    → (exposed ≡ true
        → admits_exposure (decided all_f all_c all_e any_m any_p any_f all_t any_u) ≡ true)
      × (shows_exposure (decided all_f all_c all_e any_m any_p any_f all_t any_u) ≡ true
          → exposed ≡ true)
unfolding decided admits_exposure shows_exposure
decided-exposed all_f all_c all_e any_m any_p any_f all_t any_u exposed a b c d =
    ((λ h. ground arith), (λ h. ground arith))

decided-final :
    (all_f all_c all_e any_m any_p any_f all_t any_u : Bool)
    → (all_f ≡ true → all_t ≡ true)
    → (all_c ≡ true → all_t ≡ true)
    → (all_e ≡ true → all_t ≡ true)
    → is_final (decided all_f all_c all_e any_m any_p any_f all_t any_u) ≡ true
    → all_t ≡ true
unfolding decided is_final
decided-final all_f all_c all_e any_m any_p any_f all_t any_u a b c h = ground arith

-- A plan with an exposed leg is COMPLETED or PARTIAL or needs a manual reconciliation, so that no other
-- status hides a position; and COMPLETED and PARTIAL are not said of a plan without an exposed leg.
pub derive-exposure :
    (legs : List ExecutionLeg)
    → (any_leg is_exposed legs ≡ true → admits_exposure (derive_execution_plan_status legs) ≡ true)
      × (shows_exposure (derive_execution_plan_status legs) ≡ true → any_leg is_exposed legs ≡ true)
unfolding derive_execution_plan_status decided shows_exposure
derive-exposure [] = ((λ h. cc), (λ h. h))
derive-exposure (leg ∷ rest) =
    let legs = leg ∷ rest in
    decided-exposed (all_legs is_filled legs) (all_legs is_cancelled legs)
      (all_legs is_expired legs) (any_leg is_manual legs) (any_leg is_partially_filled legs)
      (any_leg is_filled legs) (all_legs leg_status_is_terminal legs) (any_leg is_unresolved legs)
      (any_leg is_exposed legs) (any_leg-exposed legs) (all_filled-some leg rest)
      (all_legs-excludes is_cancelled is_exposed legs cancelled-not_exposed)
      (all_legs-excludes is_expired is_exposed legs expired-not_exposed)

-- A plan that is COMPLETED, CANCELLED, EXPIRED or FAILED has legs, and all of them are terminal.
pub derive-final :
    (legs : List ExecutionLeg)
    → is_final (derive_execution_plan_status legs) ≡ true
    → (all_legs leg_status_is_terminal legs ≡ true) × ¬ (legs ≡ [])
unfolding derive_execution_plan_status decided is_final
derive-final [] h = cc
derive-final (leg ∷ rest) h =
    let legs = leg ∷ rest in
    (
      decided-final (all_legs is_filled legs) (all_legs is_cancelled legs)
          (all_legs is_expired legs) (any_leg is_manual legs) (any_leg is_partially_filled legs)
          (any_leg is_filled legs) (all_legs leg_status_is_terminal legs)
          (any_leg is_unresolved legs)
          (all_legs_mono is_filled leg_status_is_terminal legs filled-terminal)
          (all_legs_mono is_cancelled leg_status_is_terminal legs cancelled-terminal)
          (all_legs_mono is_expired leg_status_is_terminal legs expired-terminal) h,
      λ e. cc,
    )
