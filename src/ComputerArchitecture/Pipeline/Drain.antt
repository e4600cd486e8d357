-- ===== src/ComputerArchitecture/Pipeline/Drain.antt =====
-- pipeline_model.py: the run of a program, from the first fetch to the empty stages.
use netai_devsecops_runbook.Prelude.{
  ltb, nat_beq, if◌then◌else◌, length, ℕ, ◌+◌, ◌≤◌, ◌≡◌, refl, false, some, List, [], ◌∷◌, ◌++◌,
  arith, Bool-cases, zero, suc, ◌*◌, sym, ap, ◌∙◌, inl, inr, append-nil,
}
use netai_devsecops_runbook.ComputerArchitecture.Pipeline.{
  Instruction, Machine, is_busy, cycle_step, pipeline_loop, loaded, simulate_pipeline,
}
use netai_devsecops_runbook.ComputerArchitecture.Pipeline.Cycles.{
  turns, chances, IsRunning, cycle_step-IsRunning,
}
use netai_devsecops_runbook.ComputerArchitecture.Pipeline.Order.{
  retired, names, in_flight, in_flight_idle, cycle_step-in_flight,
}

-- a machine that has run the program to its end
pub record IsDrained (program : List Instruction) (m : Machine) : Type 0 where
  pub idle : is_busy m.latches ≡ false
  pub all_fetched : m.rest ≡ []
  pub in_order : retired m.timeline ≡ names program
  pub cycles :
      m.cycle
      ≡ (if nat_beq (length program) 0 then 1 else length program + length m.bubble_cycles + 5)
  pub bubbles : length m.bubble_cycles ≤ length program

no_rest : (rest : List Instruction) → ltb 0 (length rest) ≡ false → rest ≡ []
no_rest [] h = refl
no_rest (i ∷ rest) h = absurd (ground arith)

turns-loaded :
    (program : List Instruction)
    → turns (loaded program).latches (loaded program).rest
      ≡ (if nat_beq (length program) 0 then 0 else length program + 4)
unfolding loaded
turns-loaded [] = refl
turns-loaded (i ∷ program) = ground arith

idle-IsDrained :
    (program : List Instruction) (m : Machine)
    → is_busy m.latches ≡ false
    → IsRunning program m
    → retired m.timeline ++ in_flight m.latches m.rest ≡ names program
    → IsDrained program m
unfolding is_busy loaded
idle-IsDrained program m idle s order =
    let empty : m.rest ≡ [] = no_rest m.rest (ground (arith, s.fetched)) in
    record {
      idle = idle;
      all_fetched = empty;
      in_order =
          sym (append-nil (retired m.timeline))
          ∙ ap (λ ns. retired m.timeline ++ ns) (sym (in_flight_idle m.latches idle))
          ∙ ap (λ rest. retired m.timeline ++ in_flight m.latches rest) (sym empty)
          ∙ order;
      cycles = ground (arith, s.counted, s.bounded, turns-loaded program, ap length empty);
      bubbles = omega (arith, s.bounded);
    }

pipeline_loop-IsDrained :
    (fuel : ℕ) (program : List Instruction) (m : Machine)
    → turns m.latches m.rest + chances m.latches m.rest ≤ fuel
    → IsRunning program m
    → retired m.timeline ++ in_flight m.latches m.rest ≡ names program
    → (last : Machine) × (pipeline_loop fuel m ≡ some last) × IsDrained program last
unfolding pipeline_loop is_busy
pipeline_loop-IsDrained zero program m enough s order =
    let idle : is_busy m.latches ≡ false = ground arith in
    (m, rw idle refl, idle-IsDrained program m idle s order)
pipeline_loop-IsDrained (suc fuel) program m enough s order =
    elim (Bool-cases (is_busy m.latches)) [
      | inr idle ↦ (m, rw (idle, pipeline_loop) refl, idle-IsDrained program m idle s order)
      | inl busy ↦
          let (running, fewer) = cycle_step-IsRunning program m busy s in
          rw (busy, pipeline_loop)
            (pipeline_loop-IsDrained fuel program (cycle_step m) (omega arith) running
              (cycle_step-in_flight m ∙ order))
    ]

enough_fuel :
    (program : List Instruction)
    → turns (loaded program).latches (loaded program).rest
        + chances (loaded program).latches (loaded program).rest
      ≤ 2 * length program + 5
unfolding loaded
enough_fuel [] = omega arith
enough_fuel (i ∷ program) = ground arith

loaded-IsRunning : (program : List Instruction) → IsRunning program (loaded program)
unfolding loaded
loaded-IsRunning [] = record {
  fetched = λ h. ground arith;
  counted = omega arith;
  bounded = omega arith;
}
loaded-IsRunning (i ∷ program) = record {
  fetched = λ h. refl;
  counted = ground arith;
  bounded = ground arith;
}

loaded-in_flight :
    (program : List Instruction)
    → retired (loaded program).timeline ++ in_flight (loaded program).latches (loaded program).rest
      ≡ names program
unfolding loaded
loaded-in_flight [] = refl
loaded-in_flight (i ∷ program) = refl

-- For any program, the run ends within the fuel, with empty stages and the whole program fetched. The
-- instructions left the last stage in the order of the program, each once. A program of n > 0
-- instructions took n + 4 cycles and one for each bubble, so that the next cycle has the number
-- n + 5 and the bubbles; there are at most n bubbles.
pub simulate_pipeline-IsDrained :
    (program : List Instruction)
    → (last : Machine) × (simulate_pipeline program ≡ some last) × IsDrained program last
unfolding simulate_pipeline loaded
simulate_pipeline-IsDrained program =
    pipeline_loop-IsDrained (2 * length program + 5) program (loaded program) (enough_fuel program)
      (loaded-IsRunning program) (loaded-in_flight program)
