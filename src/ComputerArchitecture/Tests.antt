-- ===== src/ComputerArchitecture/Tests.antt =====
-- The cache fields and the pipeline on the inputs of their scripts.
use netai_devsecops_runbook.Prelude.{
  ℕ, ◌+◌, ◌*◌, ◌<◌, ◌≡◌, refl, Option, none, some, List, [], ◌∷◌, map, ◌⊎◌, true,
}
use netai_devsecops_runbook.ComputerArchitecture.Cache.{fields, line, sets, fields-rebuild}
use netai_devsecops_runbook.ComputerArchitecture.MemoryOrder.{
  store_x, load_y, store_y, load_x, enumerate_seq_cst_outcomes, run_seq_cst_store_buffering,
  preserves_program_order, program_order,
}
use netai_devsecops_runbook.ComputerArchitecture.MemoryOrder.Buffering.{
  run_seq_cst_store_buffering-reads,
}
use netai_devsecops_runbook.ComputerArchitecture.Pipeline.Drain.{
  IsDrained, simulate_pipeline-IsDrained,
}
use netai_devsecops_runbook.ComputerArchitecture.Pipeline.{Instruction, Machine, simulate_pipeline}

fields_0x1234 : fields 4660 ≡ (2, 8, 52)
unfolding fields
fields_0x1234 = refl

fields-rebuild_example :
    ((fields 4660).2 < line)
    × ((fields 4660).1 < sets)
    × (((fields 4660).0 * sets + (fields 4660).1) * line + (fields 4660).2 ≡ 4660)
fields-rebuild_example = fields-rebuild 4660

abbrev load : Instruction
load = record { name = "LW x1,0(x2)"; kind = "LOAD"; destination = "x1"; sources = "x2" ∷ [] }

abbrev use_load : Instruction
use_load = record {
  name = "ADD x3,x1,x4";
  kind = "ALU";
  destination = "x3";
  sources = "x1" ∷ "x4" ∷ [];
}

abbrev bubbles_of : Option Machine → List ℕ
bubbles_of none = []
bubbles_of (some m) = m.bubble_cycles

bubbles_one : bubbles_of (simulate_pipeline (load ∷ use_load ∷ [])) ≡ 4 ∷ []
unfolding simulate_pipeline
bubbles_one = refl

abbrev outcomes : List (Option (ℕ × ℕ))
outcomes = some (0, 1) ∷ some (1, 1) ∷ some (1, 1) ∷ some (1, 1) ∷ some (1, 1) ∷ some (1, 0) ∷ []

-- six orders keep the program order, and none of them reads 0 twice
outcomes_six : map (λ o. o.1) enumerate_seq_cst_outcomes ≡ outcomes
unfolding enumerate_seq_cst_outcomes
outcomes_six = refl

simulate_pipeline-IsDrained_example :
    (last : Machine) × (simulate_pipeline (load ∷ use_load ∷ []) ≡ some last)
    × IsDrained (load ∷ use_load ∷ []) last
simulate_pipeline-IsDrained_example = simulate_pipeline-IsDrained (load ∷ use_load ∷ [])

kept_order :
    preserves_program_order (store_x ∷ store_y ∷ load_x ∷ load_y ∷ []) program_order ≡ some true
unfolding preserves_program_order program_order
kept_order = refl

run_seq_cst_store_buffering-reads_example :
    (r1 : ℕ) × (r2 : ℕ) × (run_seq_cst_store_buffering (store_x ∷ store_y ∷ load_x ∷ load_y ∷ [])
      ≡ some (r1, r2))
    × ((r1 ≡ 1) ⊎ (r2 ≡ 1))
run_seq_cst_store_buffering-reads_example =
    run_seq_cst_store_buffering-reads (store_x ∷ store_y ∷ load_x ∷ load_y ∷ []) kept_order
