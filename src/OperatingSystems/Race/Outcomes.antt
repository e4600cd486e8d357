-- ===== src/OperatingSystems/Race/Outcomes.antt =====
-- race_interleavings.py: the values after atomic and split increments.
use netai_devsecops_runbook.Prelude.{
  length, Result, ℕ, suc, ◌+◌, ◌≡◌, refl, ap, Option, none, some, List, [], ◌∷◌, arith, ok, err,
  leb, nat_beq, if◌then◌else◌, count, all, zero, sym, ◌∙◌, Bool, true, false, not, ◌++◌, map,
  nat_beq_iff, zero-add,
}
use netai_devsecops_runbook.OperatingSystems.Race.{
  Actor, thread_a, thread_b, Kind, split_three, atomic_load_store, atomic_rmw,
  mutex_whole_increment, RaceError, Row, Memory, race_step, race_loop, simulate_race, step_effect,
  new_memory,
}

-- one indivisible step for a whole increment
pub data IsWhole : Kind → Type 0 where
  rmw_whole : IsWhole atomic_rmw
  mutex_whole : IsWhole mutex_whole_increment

race_step-whole :
    (kind : Kind) (actor : Actor) (m : Memory)
    → IsWhole kind
    → (row : Row) × (m' : Memory) × (race_step kind actor m ≡ ok (row, m'))
      × (m'.value ≡ m.value + 1)
unfolding race_step step_effect
race_step-whole _ thread_a m rmw_whole = (_, _, refl, refl)
race_step-whole _ thread_b m rmw_whole = (_, _, refl, refl)
race_step-whole _ thread_a m mutex_whole = (_, _, refl, refl)
race_step-whole _ thread_b m mutex_whole = (_, _, refl, refl)

race_loop-whole :
    (kind : Kind) (schedule : List Actor) (m : Memory)
    → IsWhole kind
    → (trace : List Row) × (race_loop kind schedule m ≡ ok (m.value + length schedule, trace))
      × (length trace ≡ length schedule)
unfolding race_loop
race_loop-whole kind [] m h = ([], ap (λ n. ok (n, [])) (omega arith), refl)
race_loop-whole kind (actor ∷ schedule) m h =
    let (row, m', stepped, more) = race_step-whole kind actor m h in
    let (trace, ran, rows) = race_loop-whole kind schedule m' h in
    (
      row ∷ trace,
      rw (race_loop, stepped, ran) (ap (λ n. ok (n, row ∷ trace)) (omega (arith, more))),
      omega (arith, rows),
    )

-- Where an increment is one step, any schedule of any length runs, its value counts the steps, and
-- the trace has a row for each: no update is lost.
pub simulate_race-whole :
    (kind : Kind) (schedule : List Actor)
    → IsWhole kind
    → (trace : List Row) × (simulate_race schedule kind ≡ ok (length schedule, trace))
      × (length trace ≡ length schedule)
unfolding simulate_race new_memory
simulate_race-whole kind schedule h =
    let (trace, ran, rows) = race_loop-whole kind schedule new_memory h in
    (trace, rw (sym (zero-add (length schedule))) ran, rows)

-- the value at the end of a run, where it does not raise
abbrev pub final_value : Result RaceError (ℕ × List Row) → Option ℕ
final_value (ok (value, trace)) = some value
final_value (err e) = none

-- how often a schedule changes from one actor to the other
abbrev pub switches : List Actor → ℕ
switches [] = 0
switches (thread_a ∷ []) = 0
switches (thread_b ∷ []) = 0
switches (thread_a ∷ thread_a ∷ s) = switches (thread_a ∷ s)
switches (thread_b ∷ thread_b ∷ s) = switches (thread_b ∷ s)
switches (thread_a ∷ thread_b ∷ s) = suc (switches (thread_b ∷ s))
switches (thread_b ∷ thread_a ∷ s) = suc (switches (thread_a ∷ s))

abbrev pub is_a : Actor → Bool
is_a thread_a = true
is_a thread_b = false

-- the schedules in which `thread_a` has `a` steps and `thread_b` has `b`
abbrev pub all_orders : ℕ → ℕ → List (List Actor)
all_orders zero zero = [] ∷ []
all_orders (suc a) zero = map (◌∷◌ thread_a) (all_orders a zero)
all_orders zero (suc b) = map (◌∷◌ thread_b) (all_orders zero b)
all_orders (suc a) (suc b) =
    map (◌∷◌ thread_a) (all_orders a (suc b)) ++ map (◌∷◌ thread_b) (all_orders (suc a) b)

all-map :
    {A B : Type 0} (f : A → B) (test : B → Bool) (xs : List A)
    → all test (map f xs) ≡ all (λ x. test (f x)) xs
all-map f test [] = refl
all-map f test (x ∷ xs) = ground (arith, all-map f test xs)

all-append_parts :
    {A : Type 0} (test : A → Bool) (xs ys : List A)
    → all test (xs ++ ys) ≡ true
    → (all test xs ≡ true) × (all test ys ≡ true)
all-append_parts test [] ys h = (refl, h)
all-append_parts test (x ∷ xs) ys h = ground (arith, all-append_parts test xs ys)

any_order :
    (test : List Actor → Bool) (order : List Actor) (a b : ℕ)
    → count is_a order ≡ a
    → count (λ t. not (is_a t)) order ≡ b
    → all test (all_orders a b) ≡ true
    → test order ≡ true
any_order test [] zero zero ha hb h = ground (arith, h)
any_order test [] zero (suc b) ha hb h = absurd (omega arith)
any_order test [] (suc a) b ha hb h = absurd (omega arith)
any_order test (thread_a ∷ order) zero b ha hb h = absurd (omega arith)
any_order test (thread_a ∷ order) (suc a) zero ha hb h =
    any_order (λ o. test (thread_a ∷ o)) order a zero (omega arith) hb
      (sym (all-map _ test (all_orders a zero)) ∙ h)
any_order test (thread_a ∷ order) (suc a) (suc b) ha hb h =
    any_order (λ o. test (thread_a ∷ o)) order a (suc b) (omega arith) hb
      (sym (all-map _ test (all_orders a (suc b))) ∙ (all-append_parts test _ _ h).0)
any_order test (thread_b ∷ order) a zero ha hb h = absurd (omega arith)
any_order test (thread_b ∷ order) zero (suc b) ha hb h =
    any_order (λ o. test (thread_b ∷ o)) order zero b ha (omega arith)
      (sym (all-map _ test (all_orders zero b)) ∙ h)
any_order test (thread_b ∷ order) (suc a) (suc b) ha hb h =
    any_order (λ o. test (thread_b ∷ o)) order (suc a) b ha (omega arith)
      (sym (all-map _ test (all_orders (suc a) b)) ∙ (all-append_parts test _ _ h).1)

abbrev has_value : ℕ → Option ℕ → Bool
has_value n none = false
has_value n (some value) = nat_beq value n

has_value_lem : (n : ℕ) (o : Option ℕ) → has_value n o ≡ true → o ≡ some n
has_value_lem n none h = absurd (ground arith)
has_value_lem n (some value) h = ap some ((nat_beq_iff value n).0 h)

-- the value at the end is 2 exactly where one thread ran before the other
test_order : Kind → List Actor → Bool
test_order kind order =
    has_value (if leb (switches order) 1 then 2 else 1) (final_value (simulate_race order kind))

test_order_lem :
    (kind : Kind) (order : List Actor)
    → test_order kind order ≡ true
    → final_value (simulate_race order kind) ≡ some (if leb (switches order) 1 then 2 else 1)
unfolding test_order
test_order_lem kind order h =
    has_value_lem (if leb (switches order) 1 then 2 else 1) (final_value (simulate_race order kind))
      h

split_tests : all (test_order split_three) (all_orders 3 3) ≡ true
unfolding test_order simulate_race
split_tests = refl

load_store_tests : all (test_order atomic_load_store) (all_orders 2 2) ≡ true
unfolding test_order simulate_race
load_store_tests = refl

-- Three split steps for each thread, in any order: the run does not raise, and its value is 2 where
-- one thread runs before the other and otherwise 1, so that one update is lost.
pub simulate_race-split :
    (order : List Actor)
    → count is_a order ≡ 3
    → count (λ t. not (is_a t)) order ≡ 3
    → final_value (simulate_race order split_three) ≡ some (if leb (switches order) 1 then 2 else 1)
simulate_race-split order ha hb =
    test_order_lem split_three order
      (any_order (test_order split_three) order 3 3 ha hb split_tests)

-- An atomic load and an atomic store for each thread, in any order: as with three split steps, the
-- value is 2 where one thread runs before the other and otherwise 1.
pub simulate_race-load_store :
    (order : List Actor)
    → count is_a order ≡ 2
    → count (λ t. not (is_a t)) order ≡ 2
    → final_value (simulate_race order atomic_load_store)
      ≡ some (if leb (switches order) 1 then 2 else 1)
simulate_race-load_store order ha hb =
    test_order_lem atomic_load_store order
      (any_order (test_order atomic_load_store) order 2 2 ha hb load_store_tests)
