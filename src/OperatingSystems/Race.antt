-- ===== src/OperatingSystems/Race.antt =====
-- learning/operating-systems/examples/race_interleavings.py: two threads that increment one value.
pub mod Outcomes
use netai_devsecops_runbook.Prelude.{
  if◌then◌else◌, contains, ◌>>=◌, Result, ℕ, zero, suc, ◌+◌, ◌*◌, Option, none, some, List, [], ◌∷◌,
  ◌++◌, map, ok, err, nat_key, nat_beq, Dict, lookup, insert,
}

pub data Actor : Type 0 where
  thread_a thread_b : Actor

-- the strings that `simulate` knows, and any other
pub data Kind : Type 0 where
  split_three atomic_load_store atomic_rmw mutex_whole_increment other_kind : Kind

pub data Operation : Type 0 where
  read add_one write atomic_load atomic_store rmw whole_increment : Operation

-- a KeyError or TypeError of the arithmetic on None, and the ValueError of an unknown kind
pub data RaceError : Type 0 where
  type_error value_error : RaceError

-- `combinations(xs, n)`
abbrev pub combinations : ℕ → List ℕ → List (List ℕ)
combinations zero xs = [] ∷ []
combinations (suc n) [] = []
combinations (suc n) (x ∷ xs) = map (◌∷◌ x) (combinations n xs) ++ combinations (suc n) xs

-- `range(i, i + n)`
abbrev pub range_from : ℕ → ℕ → List ℕ
range_from i zero = []
range_from i (suc n) = i ∷ range_from (i + 1) n

unfoldable pub schedules : ℕ → List (List Actor)
schedules steps_per_thread =
    let size = range_from 0 (2 * steps_per_thread) in
    map (λ a_slots. map (λ slot. if contains slot a_slots then thread_a else thread_b) size)
      (combinations steps_per_thread size)

-- the entries of `local` and of `progress` for one actor
pub record Thread : Type 0 where
  pub local : Option ℕ
  pub progress : ℕ

pub record Memory : Type 0 where
  pub value : ℕ
  pub of_a : Thread
  pub of_b : Thread

-- `(actor, operation, before, value, local[actor])`
pub record Row : Type 0 where
  pub actor : Actor
  pub operation : Operation
  pub before : ℕ
  pub after : ℕ
  pub local : Option ℕ

-- what one step does: the operation, the new value and the new `local[actor]`
pub record Effect : Type 0 where
  pub operation : Operation
  pub value : ℕ
  pub local : Option ℕ

abbrev pub effect : Operation → ℕ → Option ℕ → Effect
effect operation value local = record { operation = operation; value = value; local = local }

-- `local[actor] += 1`, then `value = local[actor]`, and `value = local[actor] + 1`
added : ℕ → Option ℕ → Result RaceError Effect
added value none = err type_error
added value (some n) = ok (effect add_one value (some (n + 1)))

-- a value of None is outside the model; the step before has set `local[actor]`
written : Option ℕ → Result RaceError Effect
written none = err type_error
written (some n) = ok (effect write n (some n))

stored : Option ℕ → Result RaceError Effect
stored none = err type_error
stored (some n) = ok (effect atomic_store (n + 1) (some n))

-- the tests on `kind` and on `step`
step_effect : Kind → ℕ → ℕ → Option ℕ → Result RaceError Effect
unfolding added written stored
step_effect split_three zero value local = ok (effect read value (some value))
step_effect split_three (suc zero) value local = added value local
step_effect split_three (suc (suc step)) value local = written local
step_effect atomic_load_store zero value local = ok (effect atomic_load value (some value))
step_effect atomic_load_store (suc step) value local = stored local
step_effect atomic_rmw step value local = ok (effect rmw (value + 1) local)
step_effect mutex_whole_increment step value local = ok (effect whole_increment (value + 1) local)
step_effect other_kind step value local = err value_error

abbrev pub thread_of : Actor → Memory → Thread
thread_of thread_a m = m.of_a
thread_of thread_b m = m.of_b

abbrev pub updated : Actor → ℕ → Thread → Memory → Memory
updated thread_a value t m = record m { value = value; of_a = t }
updated thread_b value t m = record m { value = value; of_b = t }

-- the body of the loop
race_step : Kind → Actor → Memory → Result RaceError (Row × Memory)
unfolding step_effect
race_step kind actor m =
    let t = thread_of actor m in
    step_effect kind t.progress m.value t.local >>= λ e. ok (
      record {
        actor = actor;
        operation = e.operation;
        before = m.value;
        after = e.value;
        local = e.local;
      },
      updated actor e.value (record { local = e.local; progress = t.progress + 1 }) m,
    )

race_loop : Kind → List Actor → Memory → Result RaceError (ℕ × List Row)
unfolding race_step
race_loop kind [] m = ok (m.value, [])
race_loop kind (actor ∷ schedule) m = race_step kind actor m >>= λ (row, m').
    race_loop kind schedule m' >>= λ (value, trace). ok (value, row ∷ trace)

unfoldable pub idle_thread : Thread
idle_thread = record { local = none; progress = 0 }

unfoldable pub new_memory : Memory
unfolding idle_thread
new_memory = record { value = 0; of_a = idle_thread; of_b = idle_thread }

unfoldable pub simulate_race : List Actor → Kind → Result RaceError (ℕ × List Row)
unfolding race_loop new_memory
simulate_race schedule kind = race_loop kind schedule new_memory

-- `outcomes[result] += 1`
abbrev pub counted : ℕ → Dict ℕ ℕ → Dict ℕ ℕ
counted result outcomes = elim (lookup result outcomes) [
  | none ↦ insert result 1 outcomes
  | some n ↦ insert result (n + 1) outcomes
]

-- `outcomes` and `losing_trace` of `run_model`, over schedules
unfoldable pub run_orders :
    Kind
    → List (List Actor)
    → Dict ℕ ℕ
    → Option (List Row)
    → Result RaceError (Dict ℕ ℕ × Option (List Row))
unfolding simulate_race
run_orders kind [] outcomes losing_trace = ok (outcomes, losing_trace)
run_orders kind (order ∷ orders) outcomes losing_trace =
    simulate_race order kind >>= λ (result, trace).
    run_orders kind orders (counted result outcomes) (elim losing_trace [
      | some row ↦ some row
      | none ↦ if nat_beq result 1 then some trace else none
    ])

unfoldable pub run_model : Kind → ℕ → Result RaceError (Dict ℕ ℕ × Option (List Row))
unfolding run_orders schedules
run_model kind steps = run_orders kind (schedules steps) [] none
