-- ===== src/ComputerArchitecture/Pipeline.antt =====
-- learning/computer-architecture/examples/pipeline_model.py: a pipeline of five stages that waits
-- one cycle where an instruction needs the result of the load before it.
pub mod Cycles
pub mod Order
pub mod Drain
use netai_devsecops_runbook.Prelude.{
  if◌then◌else◌, length, ◌==◌, contains, ℕ, zero, suc, ◌+◌, ◌*◌, String, Bool, true, false, ◌&&◌,
  ◌||◌, Option, none, some, List, [], ◌∷◌, ◌++◌, string_key,
}

pub record Instruction : Type 0 where
  pub name : String
  pub kind : String
  pub destination : String
  pub sources : List String

pub data Stage : Type 0 where
  if_stage id_stage ex_stage mem_stage wb_stage : Stage

-- what each stage holds
pub record Latches : Type 0 where
  pub at_if : Option Instruction
  pub at_id : Option Instruction
  pub at_ex : Option Instruction
  pub at_mem : Option Instruction
  pub at_wb : Option Instruction

-- an entry of `timeline[name][stage]`
pub record Visit : Type 0 where
  pub name : String
  pub stage : Stage
  pub cycle : ℕ

-- the loop's variables; `rest` is `program[next_instruction:]`
pub record Machine : Type 0 where
  pub latches : Latches
  pub rest : List Instruction
  pub timeline : List Visit
  pub bubble_cycles : List ℕ
  pub cycle : ℕ

abbrev pub is_held : Option Instruction → Bool
is_held none = false
is_held (some i) = true

-- `any(item is not None for item in pipeline.values())`
unfoldable pub is_busy : Latches → Bool
is_busy l =
    is_held l.at_if || is_held l.at_id || is_held l.at_ex || is_held l.at_mem || is_held l.at_wb

abbrev pub visit_of : Stage → ℕ → Option Instruction → List Visit
visit_of stage cycle none = []
visit_of stage cycle (some i) = record { name = i.name; stage = stage; cycle = cycle } ∷ []

-- the entries that a cycle adds, stage by stage
unfoldable pub visits : ℕ → Latches → List Visit
visits cycle l =
    visit_of if_stage cycle l.at_if
    ++ visit_of id_stage cycle l.at_id
    ++ visit_of ex_stage cycle l.at_ex
    ++ visit_of mem_stage cycle l.at_mem
    ++ visit_of wb_stage cycle l.at_wb

unfoldable pub load_use : Option Instruction → Option Instruction → Bool
load_use none consumer = false
load_use (some producer) none = false
load_use (some producer) (some consumer) =
    producer.kind == "LOAD" && contains producer.destination consumer.sources

abbrev pub first_of : List Instruction → Option Instruction
first_of [] = none
first_of (i ∷ rest) = some i

abbrev pub rest_of : List Instruction → List Instruction
rest_of [] = []
rest_of (i ∷ rest) = rest

-- one turn of the loop
unfoldable pub cycle_step : Machine → Machine
unfolding visits load_use
cycle_step m =
    let l = m.latches in
    if load_use l.at_ex l.at_id
    then record {
      latches = record {
        at_if = l.at_if;
        at_id = l.at_id;
        at_ex = none;
        at_mem = l.at_ex;
        at_wb = l.at_mem;
      };
      rest = m.rest;
      timeline = m.timeline ++ visits m.cycle l;
      bubble_cycles = m.bubble_cycles ++ (m.cycle + 1) ∷ [];
      cycle = m.cycle + 1;
    }
    else record {
      latches = record {
        at_if = first_of m.rest;
        at_id = l.at_if;
        at_ex = l.at_id;
        at_mem = l.at_ex;
        at_wb = l.at_mem;
      };
      rest = rest_of m.rest;
      timeline = m.timeline ++ visits m.cycle l;
      bubble_cycles = m.bubble_cycles;
      cycle = m.cycle + 1;
    }

-- the loop on fuel; `none` means that the fuel ran out
pipeline_loop : ℕ → Machine → Option Machine
unfolding cycle_step is_busy
pipeline_loop zero m = if is_busy m.latches then none else some m
pipeline_loop (suc fuel) m =
    let next = pipeline_loop fuel (cycle_step m) in if is_busy m.latches then next else some m

-- before the first cycle
unfoldable pub loaded : List Instruction → Machine
loaded program = record {
  latches = record {
    at_if = first_of program;
    at_id = none;
    at_ex = none;
    at_mem = none;
    at_wb = none;
  };
  rest = rest_of program;
  timeline = [];
  bubble_cycles = [];
  cycle = 1;
}

-- a turn brings every instruction nearer to the end but for the one that a bubble holds
unfoldable pub simulate_pipeline : List Instruction → Option Machine
unfolding pipeline_loop loaded
simulate_pipeline program = pipeline_loop (2 * length program + 5) (loaded program)
