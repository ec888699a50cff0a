-- ===== src/Projection/Dependencies.antt =====
-- crates/types/src/dto.rs: `validate_execution_dependencies`. The maps are association lists; a hash map
-- gives its keys in some order, here in that of the legs. Where the code would panic, at a key that
-- is not indexed or a count below 0, the outcome is `panicked`.
use sinan.Prelude.{
  ℕ, zero, suc, ◌+◌, String, List, [], ◌∷◌, ◌++◌, Bool, not, ◌||◌, Option, none, some, Result, ok,
  err, ◌>>=◌, ◌>>◌, reject_if, ok_or, any, str_eq, length, ◌==◌, if◌then◌else◌,
}
use sinan.Types.Plan.{ExecutionLeg}

pub data ExecutionPlanValidationError : Type 0 where
  invalid : (field reason : String) → ExecutionPlanValidationError
  panicked : ExecutionPlanValidationError
  unfinished : ExecutionPlanValidationError

abbrev pub Validated : Type 0
Validated = Result ExecutionPlanValidationError (Unit {0})

abbrev pub Degrees : Type 0
Degrees = List (String × ℕ)

pub record DependencyGraph : Type 0 where
  pub indegree : Degrees
  pub outgoing : List (String × List String)

abbrev pub has_id : String → List String → Bool
has_id id ids = any (str_eq id) ids

abbrev pub prepend : String × ℕ → Option Degrees → Option Degrees
prepend e none = none
prepend e (some m) = some (e ∷ m)

-- `*indegree.get_mut(id).expect(..) += 1`.
unfoldable pub increment : String → Degrees → Option Degrees
increment id [] = none
increment id ((j, n) ∷ m) =
    let rest = increment id m in if str_eq id j then some ((j, n + 1) ∷ m) else prepend (j, n) rest

-- `outgoing.entry(id).or_default().push(target)`.
unfoldable pub add_outgoing :
    String → String → List (String × List String) → List (String × List String)
add_outgoing id target [] = (id, target ∷ []) ∷ []
add_outgoing id target ((j, targets) ∷ m) =
    let rest = add_outgoing id target m in
    if str_eq id j then (j, targets ++ target ∷ []) ∷ m else (j, targets) ∷ rest

-- `outgoing.get(id).into_iter().flatten()`.
unfoldable pub targets_of : String → List (String × List String) → List String
targets_of id [] = []
targets_of id ((j, targets) ∷ m) =
    let rest = targets_of id m in if str_eq id j then targets else rest

-- The loop over the dependencies of one leg; `known` is the set of those before.
unfoldable pub add_dependencies :
    List String
    → String
    → List String
    → List String
    → DependencyGraph
    → Result ExecutionPlanValidationError DependencyGraph
add_dependencies ids leg_id [] known g = ok g
add_dependencies ids leg_id (dependency ∷ more) known g = do
  reject_if (str_eq dependency leg_id || not (has_id dependency ids) || has_id dependency known)
      (invalid "legs[].dependency" "must be unique, known, and not self-referential")
  indegree ← ok_or (increment leg_id g.indegree) panicked
  add_dependencies ids leg_id more (dependency ∷ known)
      (record { indegree = indegree; outgoing = add_outgoing dependency leg_id g.outgoing })

unfoldable pub add_legs :
    List String
    → List ExecutionLeg
    → DependencyGraph
    → Result ExecutionPlanValidationError DependencyGraph
add_legs ids [] g = ok g
add_legs ids (leg ∷ legs) g = do
  next ← add_dependencies ids leg.definition.leg_id leg.definition.dependency [] g
  add_legs ids legs next

unfoldable pub no_degrees : List String → Degrees
no_degrees [] = []
no_degrees (id ∷ ids) = (id, 0) ∷ no_degrees ids

-- The ids whose count is 0.
unfoldable pub free_ids : Degrees → List String
free_ids [] = []
free_ids ((id, zero) ∷ m) = id ∷ free_ids m
free_ids ((id, suc n) ∷ m) = free_ids m

-- What a decrement makes of a count: the new count, and whether it is 0.
pub data Decrement : Type 0 where
  absent : Decrement
  no_count : Decrement
  freed : Degrees → Decrement
  left : Degrees → Decrement

abbrev pub after_entry : String × ℕ → Decrement → Decrement
after_entry e absent = absent
after_entry e no_count = no_count
after_entry e (freed m) = freed (e ∷ m)
after_entry e (left m) = left (e ∷ m)

abbrev pub decrement_entry : String → ℕ → Degrees → Decrement
decrement_entry j zero m = no_count
decrement_entry j (suc zero) m = freed ((j, zero) ∷ m)
decrement_entry j (suc (suc n)) m = left ((j, suc n) ∷ m)

unfoldable pub decrement : String → Degrees → Decrement
decrement id [] = absent
decrement id ((j, n) ∷ m) =
    let rest = decrement id m in
    if str_eq id j then decrement_entry j n m else after_entry (j, n) rest

-- The `for target` loop of a round: the counts and the queue, unless the code would panic.
unfoldable pub release_targets :
    List String → Degrees → List String → Option (Degrees × List String)
release_targets [] m queue = some (m, queue)
release_targets (target ∷ targets) m queue = elim (decrement target m) [
  | absent ↦ none
  | no_count ↦ none
  | freed n ↦ release_targets targets n (queue ++ (target ∷ []))
  | left n ↦ release_targets targets n queue
]

pub data Searched : Type 0 where
  visited : ℕ → Searched
  search_panicked : Searched
  out_of_fuel : Searched

-- The `while` loop, one round for each unit of fuel.
unfoldable pub search : ℕ → List (String × List String) → Degrees → List String → ℕ → Searched
search fuel outgoing m [] count = visited count
search zero outgoing m (id ∷ queue) count = out_of_fuel
search (suc fuel) outgoing m (id ∷ queue) count =
    elim (release_targets (targets_of id outgoing) m queue) [
      | none ↦ search_panicked
      | some (n, next) ↦ search fuel outgoing n next (count + 1)
    ]

unfoldable pub search_graph : List String → DependencyGraph → Searched
search_graph ids g = search (length ids) g.outgoing g.indegree (free_ids g.indegree) 0

unfoldable pub check_visited : ℕ → Searched → Validated
check_visited expected (visited count) =
    reject_if (not (count == expected)) (invalid "legs[].dependency" "must form an acyclic graph")
check_visited expected search_panicked = err panicked
check_visited expected out_of_fuel = err unfinished

unfoldable pub validate_execution_dependencies : List ExecutionLeg → List String → Validated
validate_execution_dependencies legs ids = do
  g ← add_legs ids legs (record { indegree = no_degrees ids; outgoing = [] })
  check_visited (length ids) (search_graph ids g)
