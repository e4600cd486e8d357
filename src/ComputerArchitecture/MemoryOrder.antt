-- ===== src/ComputerArchitecture/MemoryOrder.antt =====
-- learning/computer-architecture/examples/memory_order_model.py: store buffering in one global order.
pub mod Cells
pub mod Buffering
use netai_devsecops_runbook.Prelude.{
  ltb, nat_beq, if◌then◌else◌, filter, ℕ, ◌+◌, Bool, true, false, Option, none, some, List, [], ◌∷◌,
  map,
}
use netai_devsecops_runbook.Gpu.Allocation.{permutations}

-- the four events of the script; for another one the source raises a ValueError
pub data Event : Type 0 where
  store_x load_y store_y load_x : Event

-- `memory` and `reads`
pub record Execution : Type 0 where
  pub x : ℕ
  pub y : ℕ
  pub r1 : Option ℕ
  pub r2 : Option ℕ

-- the body of the loop
unfoldable pub execute : Event → Execution → Execution
execute store_x m = record m { x = 1 }
execute load_y m = record m { r1 = some m.y }
execute store_y m = record m { y = 1 }
execute load_x m = record m { r2 = some m.x }

unfoldable pub execute_all : List Event → Execution → Execution
unfolding execute
execute_all [] m = m
execute_all (event ∷ order) m = execute_all order (execute event m)

unfoldable pub initial : Execution
initial = record { x = 0; y = 0; r1 = none; r2 = none }

-- `(reads["r1"], reads["r2"])`, or `none`, the KeyError, where a read is missing
abbrev pub outcome_of : Option ℕ → Option ℕ → Option (ℕ × ℕ)
outcome_of (some a) (some b) = some (a, b)
outcome_of (some a) none = none
outcome_of none r2 = none

unfoldable pub run_seq_cst_store_buffering : List Event → Option (ℕ × ℕ)
unfolding execute_all initial
run_seq_cst_store_buffering order = let m = execute_all order initial in outcome_of m.r1 m.r2

abbrev pub same_event_as : Event → Event → Bool
same_event_as store_x store_x = true
same_event_as load_y load_y = true
same_event_as store_y store_y = true
same_event_as load_x load_x = true
same_event_as a b = false

-- `position[event]` after the numbers from `i` on, the last one counting; `none` is the KeyError
unfoldable pub position : List Event → ℕ → Event → Option ℕ
position [] i event = none
position (other ∷ order) i event = elim (position order (i + 1) event) [
  | some later ↦ some later
  | none ↦ if same_event_as other event then some i else none
]

abbrev pub is_before : Option ℕ → Option ℕ → Option Bool
is_before (some i) (some j) = some (ltb i j)
is_before (some i) none = none
is_before none j = none

-- `all(...)`, which stops at the first pair that is not kept; `none` is the KeyError
unfoldable pub preserves_program_order : List Event → List (Event × Event) → Option Bool
unfolding position
preserves_program_order order [] = some true
preserves_program_order order ((before, after) ∷ pairs) =
    let rest = preserves_program_order order pairs in
    elim (is_before (position order 0 before) (position order 0 after)) [
      | none ↦ none
      | some kept ↦ if kept then rest else some false
    ]

unfoldable pub program_order : List (Event × Event)
program_order = (store_x, load_y) ∷ (store_y, load_x) ∷ []

abbrev pub keeps : Option Bool → Bool
keeps none = false
keeps (some kept) = kept

-- the orders with their outcomes, before `setdefault` groups them
unfoldable pub enumerate_seq_cst_outcomes : List (List Event × Option (ℕ × ℕ))
unfolding preserves_program_order run_seq_cst_store_buffering program_order permutations
enumerate_seq_cst_outcomes =
    map (λ order. (order, run_seq_cst_store_buffering order))
      (filter (λ order. keeps (preserves_program_order order program_order))
        (permutations 4 (store_x ∷ load_y ∷ store_y ∷ load_x ∷ [])))

unfoldable pub message_passing : ℕ → Option ℕ
message_passing flag_read = if nat_beq flag_read 1 then some 42 else none

-- the set of pairs
unfoldable pub relaxed_store_buffering_outcomes : List (ℕ × ℕ)
relaxed_store_buffering_outcomes = (0, 0) ∷ (0, 1) ∷ (1, 0) ∷ (1, 1) ∷ []
