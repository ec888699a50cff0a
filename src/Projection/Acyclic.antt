-- ===== src/Projection/Acyclic.antt =====
-- crates/types/src/dto.rs: the validation of the dependencies always comes to an end.
use sinan.Prelude.{
  ℕ, suc, String, List, [], ◌∷◌, not, ◌||◌, Option, none, some, Result, ok, err, ◌>>=◌, >>=-eq-ok,
  reject_if, ok_or, ok_or-eq-ok, ok-injective, str_eq, length, ◌≡◌, refl, sym, ◌∙◌, ap, inl, inr,
  arith, chosen, Fails, Fails->>=, Fails-reject_if, Fails-ok_or, Fails-err,
}
use sinan.Types.Plan.{ExecutionLeg}
use sinan.Projection.Dependencies.{
  ExecutionPlanValidationError, panicked, unfinished, Validated, Degrees, DependencyGraph, has_id,
  prepend, increment, add_dependencies, add_legs, no_degrees, free_ids, Searched, visited,
  search_panicked, out_of_fuel, search_graph, check_visited, validate_execution_dependencies,
}
use sinan.Projection.Search.{waiting-free, search-ends}

some_list : {a b : Degrees} → ◌≡◌ {A = Option Degrees} (some a) (some b) → length a ≡ length b
some_list h = cc

prepend-length :
    (e : String × ℕ) (o : Option Degrees) (n : ℕ) (r : Degrees)
    → ((m : Degrees) → o ≡ some m → length m ≡ n)
    → prepend e o ≡ some r
    → length r ≡ suc n
prepend-length e none n r h q = cc
prepend-length e (some m) n r h q = omega (arith, some_list q, h m refl)

increment-length : (id : String) (m r : Degrees) → increment id m ≡ some r → length r ≡ length m
unfolding increment
increment-length id [] r h = cc
increment-length id ((j, n) ∷ m) r h = elim (chosen (λ x. x ≡ some r) (str_eq id j) _ _ h) [
  | inl (_, q) ↦ omega (arith, some_list q)
  | inr (_, q) ↦
      prepend-length (j, n) (increment id m) (length m) r (λ x. increment-length id m x) q
]

add_dependencies-length :
    (ids : List String) (leg_id : String) (dependencies known : List String) (g : DependencyGraph)
    {r : DependencyGraph}
    → add_dependencies ids leg_id dependencies known g ≡ ok r
    → length r.indegree ≡ length g.indegree
unfolding add_dependencies
add_dependencies-length ids leg_id [] known g h =
    ap (λ (x : DependencyGraph). length x.indegree) (sym (ok-injective h))
add_dependencies-length ids leg_id (dependency ∷ more) known g h =
    let (_, _, h1) =
      >>=-eq-ok
        (reject_if
          (str_eq dependency leg_id || not (has_id dependency ids) || has_id dependency known) _)
        _ h in
    let (m, a, h2) = >>=-eq-ok (ok_or (increment leg_id g.indegree) panicked) _ h1 in
    add_dependencies-length ids leg_id more (dependency ∷ known) _ h2
    ∙ increment-length leg_id g.indegree m (ok_or-eq-ok (increment leg_id g.indegree) _ a)

add_legs-length :
    (ids : List String) (legs : List ExecutionLeg) (g : DependencyGraph) {r : DependencyGraph}
    → add_legs ids legs g ≡ ok r
    → length r.indegree ≡ length g.indegree
unfolding add_legs
add_legs-length ids [] g h = ap (λ (x : DependencyGraph). length x.indegree) (sym (ok-injective h))
add_legs-length ids (leg ∷ legs) g h =
    let (x, a, h1) =
      >>=-eq-ok (add_dependencies ids leg.definition.leg_id leg.definition.dependency [] g) _ h in
    add_legs-length ids legs x h1 ∙ add_dependencies-length ids _ _ [] g a

no_degrees-length : (ids : List String) → length (no_degrees ids) ≡ length ids
unfolding no_degrees
no_degrees-length [] = refl
no_degrees-length (id ∷ ids) = ap suc (no_degrees-length ids)

-- An error other than that of an unfinished search.
abbrev Finished : ExecutionPlanValidationError → Type 0
Finished e = ¬ (e ≡ unfinished)

add_dependencies-Fails :
    (ids : List String) (leg_id : String) (dependencies known : List String) (g : DependencyGraph)
    → Fails Finished (add_dependencies ids leg_id dependencies known g)
unfolding add_dependencies
add_dependencies-Fails ids leg_id [] known g = tt
add_dependencies-Fails ids leg_id (dependency ∷ more) known g =
    Fails->>= Finished (reject_if _ _) _ (Fails-reject_if Finished _ _ (λ e. cc)) (λ _.
      Fails->>= Finished (ok_or (increment leg_id g.indegree) panicked) _
        (Fails-ok_or Finished (increment leg_id g.indegree) panicked (λ e. cc))
        (λ m. add_dependencies-Fails ids leg_id more (dependency ∷ known) _))

add_legs-Fails :
    (ids : List String) (legs : List ExecutionLeg) (g : DependencyGraph)
    → Fails Finished (add_legs ids legs g)
unfolding add_legs
add_legs-Fails ids [] g = tt
add_legs-Fails ids (leg ∷ legs) g =
    Fails->>= Finished (add_dependencies ids leg.definition.leg_id leg.definition.dependency [] g) _
      (add_dependencies-Fails ids _ _ [] g) (λ x. add_legs-Fails ids legs x)

check_visited-Fails :
    (expected : ℕ) (s : Searched) → ¬ (s ≡ out_of_fuel) → Fails Finished (check_visited expected s)
unfolding check_visited
check_visited-Fails expected (visited count) h = Fails-reject_if Finished _ _ (λ e. cc)
check_visited-Fails expected search_panicked h = λ e. cc
check_visited-Fails expected out_of_fuel h = absurd (h refl)

search_graph-ends :
    (ids : List String) (g : DependencyGraph)
    → length g.indegree ≡ length ids
    → ¬ (search_graph ids g ≡ out_of_fuel)
unfolding search_graph
search_graph-ends ids g h =
    search-ends (length ids) g.outgoing g.indegree (free_ids g.indegree) 0
      (omega (arith, waiting-free g.indegree, h))

-- A bind keeps the kind of the errors, where its value is known.
Fails-known :
    (r : Result ExecutionPlanValidationError DependencyGraph) (f : DependencyGraph → Validated)
    → Fails Finished r
    → ((g : DependencyGraph) → r ≡ ok g → Fails Finished (f g))
    → Fails Finished (r >>= f)
Fails-known (ok g) f h k = k g refl
Fails-known (err e) f h k = h

-- The search for a cycle among the dependencies of any legs ends within one round for each id that it
-- is given.
pub validate_execution_dependencies-Fails :
    (legs : List ExecutionLeg) (ids : List String)
    → ¬ (validate_execution_dependencies legs ids ≡ err unfinished)
unfolding validate_execution_dependencies
validate_execution_dependencies-Fails legs ids =
    let start : DependencyGraph = record { indegree = no_degrees ids; outgoing = [] } in
    λ e.
      Fails-err Finished
        (Fails-known (add_legs ids legs start)
          (λ g. check_visited (length ids) (search_graph ids g)) (add_legs-Fails ids legs start)
          (λ g q.
            check_visited-Fails (length ids) (search_graph ids g)
              (search_graph-ends ids g (add_legs-length ids legs start q ∙ no_degrees-length ids))))
        e refl
