-- ===== src/Projection/Search.antt =====
-- crates/types/src/dto.rs: the search for a cycle among the legs of a plan ends.
use sinan.Prelude.{
  ℕ, zero, suc, ◌+◌, ◌≤◌, String, List, [], ◌∷◌, ◌++◌, Option, none, some, str_eq, length,
  length-append, ◌≡◌, refl, sym, ap, inl, inr, arith, Bool-cases,
}
use sinan.Projection.Dependencies.{
  Degrees, free_ids, Decrement, absent, no_count, freed, left, after_entry, decrement_entry,
  decrement, release_targets, targets_of, Searched, search_panicked, out_of_fuel, search,
}

-- The ids whose count is above 0.
unfoldable pub waiting : Degrees → ℕ
waiting [] = 0
waiting ((id, zero) ∷ m) = waiting m
waiting ((id, suc n) ∷ m) = suc (waiting m)

abbrev WaitsBy : ℕ → Decrement → Type 0
WaitsBy w absent = Unit
WaitsBy w no_count = Unit
WaitsBy w (freed m) = suc (waiting m) ≡ w
WaitsBy w (left m) = waiting m ≡ w

after_entry-WaitsBy :
    (j : String) (n w : ℕ) (m : Degrees) (d : Decrement)
    → WaitsBy (waiting m) d
    → WaitsBy (waiting ((j, n) ∷ m)) (after_entry (j, n) d)
unfolding waiting
after_entry-WaitsBy j zero w m absent h = h
after_entry-WaitsBy j zero w m no_count h = h
after_entry-WaitsBy j zero w m (freed x) h = h
after_entry-WaitsBy j zero w m (left x) h = h
after_entry-WaitsBy j (suc n) w m absent h = h
after_entry-WaitsBy j (suc n) w m no_count h = h
after_entry-WaitsBy j (suc n) w m (freed x) h = ap suc h
after_entry-WaitsBy j (suc n) w m (left x) h = ap suc h

decrement_entry-WaitsBy :
    (j : String) (n : ℕ) (m : Degrees) → WaitsBy (waiting ((j, n) ∷ m)) (decrement_entry j n m)
unfolding waiting
decrement_entry-WaitsBy j zero m = tt
decrement_entry-WaitsBy j (suc zero) m = refl
decrement_entry-WaitsBy j (suc (suc n)) m = refl

decrement-WaitsBy : (id : String) (m : Degrees) → WaitsBy (waiting m) (decrement id m)
unfolding decrement
decrement-WaitsBy id [] = tt
decrement-WaitsBy id ((j, n) ∷ m) = elim (Bool-cases (str_eq id j)) [
  | inl e ↦ rw e (decrement_entry-WaitsBy j n m)
  | inr e ↦ rw e (after_entry-WaitsBy j n 0 m (decrement id m) (decrement-WaitsBy id m))
]

-- Releasing keeps the number of ids that wait or stand in the queue.
abbrev Keeps : (Degrees → List String → Option (Degrees × List String)) → Type 0
Keeps f =
    (m : Degrees) (queue : List String) (r : Degrees × List String)
    → f m queue ≡ some r
    → waiting r.0 + length r.1 ≡ waiting m + length queue

release_one-Keeps :
    (f : Degrees → List String → Option (Degrees × List String)) (target : String) (m : Degrees)
    (queue : List String) (r : Degrees × List String) (d : Decrement)
    → Keeps f
    → WaitsBy (waiting m) d
    → (elim d as (λ _. Option (Degrees × List String)) [
      | absent ↦ none
      | no_count ↦ none
      | freed n ↦ f n (queue ++ (target ∷ []))
      | left n ↦ f n queue
    ])
      ≡ some r
    → waiting r.0 + length r.1 ≡ waiting m + length queue
release_one-Keeps f target m queue r absent k w h = cc
release_one-Keeps f target m queue r no_count k w h = cc
release_one-Keeps f target m queue r (freed n) k w h =
    omega (arith, k n (queue ++ (target ∷ [])) r h, w, length-append queue (target ∷ []))
release_one-Keeps f target m queue r (left n) k w h = omega (arith, k n queue r h, w)

some-injective :
    {a b : Degrees × List String}
    → ◌≡◌ {A = Option (Degrees × List String)} (some a) (some b)
    → a ≡ b
some-injective h = cc

release_targets-Keeps : (targets : List String) → Keeps (release_targets targets)
unfolding release_targets
release_targets-Keeps [] m queue r h =
    let same = some-injective h in
    sym (ap (λ (q : Degrees × List String). waiting q.0 + length q.1) same)
release_targets-Keeps (target ∷ targets) m queue r h =
    release_one-Keeps (release_targets targets) target m queue r (decrement target m)
      (release_targets-Keeps targets) (decrement-WaitsBy target m) h

-- One round, whatever the targets give.
search_round :
    (fuel : ℕ) (outgoing : List (String × List String)) (count : ℕ)
    (o : Option (Degrees × List String))
    → ((r : Degrees × List String) → o ≡ some r → waiting r.0 + length r.1 ≤ fuel)
    → ((m : Degrees) (queue : List String)
        → waiting m + length queue ≤ fuel
        → ¬ (search fuel outgoing m queue (count + 1) ≡ out_of_fuel))
    → ¬ (
        (elim o as (λ _. Searched) [
          | none ↦ search_panicked
          | some (n, next) ↦ search fuel outgoing n next (count + 1)
        ])
        ≡ out_of_fuel)
search_round fuel outgoing count none k ih e = cc
search_round fuel outgoing count (some (n, next)) k ih e = ih n next (k (n, next) refl) e

pub search-ends :
    (fuel : ℕ) (outgoing : List (String × List String)) (m : Degrees) (queue : List String)
    (count : ℕ)
    → waiting m + length queue ≤ fuel
    → ¬ (search fuel outgoing m queue count ≡ out_of_fuel)
unfolding search
search-ends zero outgoing m [] count h e = cc
search-ends (suc fuel) outgoing m [] count h e = cc
search-ends zero outgoing m (id ∷ queue) count h e = absurd (omega arith)
search-ends (suc fuel) outgoing m (id ∷ queue) count h e =
    search_round fuel outgoing count (release_targets (targets_of id outgoing) m queue)
      (λ r released.
        omega (arith, release_targets-Keeps (targets_of id outgoing) m queue r released, h))
      (λ n next. search-ends fuel outgoing n next (count + 1)) e

pub waiting-free : (m : Degrees) → waiting m + length (free_ids m) ≡ length m
unfolding waiting free_ids
waiting-free [] = refl
waiting-free ((id, zero) ∷ m) = omega (arith, waiting-free m)
waiting-free ((id, suc n) ∷ m) = omega (arith, waiting-free m)
