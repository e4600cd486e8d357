-- ===== src/ComputerArchitecture/Pipeline/Cycles.antt =====
-- pipeline_model.py: the cycles and bubbles of a run, counted turn by turn.
use netai_devsecops_runbook.Prelude.{
  ltb, if◌then◌else◌, Bool-cases, length, length-append, ℕ, ◌+◌, ◌-◌, ◌≤◌, ◌<◌, ◌≡◌, refl, inl, inr,
  true, ◌&&◌, Option, none, some, List, [], ◌∷◌, arith,
}
use netai_devsecops_runbook.ComputerArchitecture.Pipeline.{
  Instruction, Latches, Machine, is_held, is_busy, load_use, first_of, rest_of, cycle_step, loaded,
}

-- the turns to come, but for bubbles
abbrev pub turns : Latches → List Instruction → ℕ
turns l rest =
    length rest
    + (if is_held l.at_if
        then 5
        else if is_held l.at_id
        then 4
        else if is_held l.at_ex
        then 3
        else if is_held l.at_mem
        then 2
        else if is_held l.at_wb
        then 1
        else 0)

-- the bubbles that may still come
abbrev pub chances : Latches → List Instruction → ℕ
chances l rest =
    length rest
    + (if is_held l.at_if then 1 else 0)
    + (if is_held l.at_id && is_held l.at_ex then 1 else 0)

load_use-held :
    (producer consumer : Option Instruction)
    → load_use producer consumer ≡ true
    → (is_held producer ≡ true) × (is_held consumer ≡ true)
unfolding load_use
load_use-held none consumer h = cc
load_use-held (some producer) none h = cc
load_use-held (some producer) (some consumer) h = (refl, refl)

first_of-held : (rest : List Instruction) → is_held (first_of rest) ≡ ltb 0 (length rest)
first_of-held [] = refl
first_of-held (i ∷ rest) = ground arith

length-rest_of : (rest : List Instruction) → length (rest_of rest) ≡ length rest - 1
length-rest_of [] = refl
length-rest_of (i ∷ rest) = omega arith

-- while instructions are left to fetch, the first stage holds one
pub record IsRunning (program : List Instruction) (m : Machine) : Type 0 where
  pub fetched : ltb 0 (length m.rest) ≡ true → is_held m.latches.at_if ≡ true
  pub counted :
      m.cycle + turns m.latches m.rest
      ≡ turns (loaded program).latches (loaded program).rest + 1 + length m.bubble_cycles
  pub bounded : length m.bubble_cycles + chances m.latches m.rest ≤ length program

pub cycle_step-IsRunning :
    (program : List Instruction) (m : Machine)
    → is_busy m.latches ≡ true
    → IsRunning program m
    → IsRunning program (cycle_step m)
      × (turns (cycle_step m).latches (cycle_step m).rest
            + chances (cycle_step m).latches (cycle_step m).rest
          < turns m.latches m.rest + chances m.latches m.rest)
unfolding cycle_step is_busy loaded
cycle_step-IsRunning program m busy s =
    elim (Bool-cases (load_use m.latches.at_ex m.latches.at_id)) [
      | inl stalled ↦
          let (in_ex, in_id) = load_use-held m.latches.at_ex m.latches.at_id stalled in
          rw (stalled, cycle_step)
            (
              record {
                fetched = s.fetched;
                counted =
                    ground (arith, s.counted, length-append m.bubble_cycles ((m.cycle + 1) ∷ []));
                bounded =
                    ground (arith, s.bounded, length-append m.bubble_cycles ((m.cycle + 1) ∷ []));
              },
              ground arith,
            )
      | inr going ↦
          rw (going, cycle_step)
            (
              record {
                fetched = ground (arith, first_of-held m.rest, length-rest_of m.rest);
                counted =
                    ground
                      (arith, s.counted, s.fetched, first_of-held m.rest, length-rest_of m.rest);
                bounded =
                    ground
                      (arith, s.bounded, s.fetched, first_of-held m.rest, length-rest_of m.rest);
              },
              ground (arith, s.fetched, first_of-held m.rest, length-rest_of m.rest),
            )
    ]
