-- ===== src/Gpu/Tests.antt =====
-- The device and memory models on the inputs of their scripts.
use netai_devsecops_runbook.Prelude.{
  any, Dict, contains, ℕ, String, ◌≡◌, refl, none, some, List, [], ◌∷◌, arith, nat_key,
}
use netai_devsecops_runbook.Gpu.Allocation.{Device, Request, allocate}
use netai_devsecops_runbook.Gpu.Allocation.Soundness.{IsAllocation, allocate-IsAllocation}
use netai_devsecops_runbook.Gpu.Coalescing.{
  lane_addresses, touched_sectors, touches, touched_sectors-touches,
}
use netai_devsecops_runbook.Gpu.Matmul.Agreement.{tiled_matmul-reference}
use netai_devsecops_runbook.Gpu.Matmul.{Matrix, reference_matmul, tiled_matmul}

abbrev device : String → String → ℕ → Device
device node name memory_gib = record { node = node; name = name; memory_gib = memory_gib }

abbrev devices : List Device
devices =
    device "node-b" "demo-80" 80 ∷ device "node-a" "demo-48" 48 ∷ device "node-a" "demo-24" 24 ∷ []

abbrev requests : List Request
requests =
    record { name = "high"; min_memory_gib = 40 }
    ∷ record { name = "low"; min_memory_gib = 20 }
    ∷ []

-- the names of these devices' nodes, sorted
abbrev two_nodes : List String → List String
two_nodes nodes = "node-a" ∷ "node-b" ∷ []

abbrev first_allocation : String × Dict String Device
first_allocation =
    ("node-a", ("high", device "node-a" "demo-48" 48) ∷ ("low", device "node-a" "demo-24" 24) ∷ [])

allocated : allocate two_nodes devices requests [] ≡ some first_allocation
unfolding allocate
allocated = refl

during_use : allocate two_nodes devices requests ("demo-48" ∷ "demo-24" ∷ []) ≡ none
unfolding allocate
during_use = refl

allocate-IsAllocation_example : IsAllocation devices requests [] first_allocation
allocate-IsAllocation_example =
    allocate-IsAllocation two_nodes devices requests [] first_allocation allocated

misaligned : touched_sectors (lane_addresses 4 32 4 1) 4 32 ≡ 0 ∷ 1 ∷ 2 ∷ 3 ∷ 4 ∷ []
unfolding touched_sectors lane_addresses
misaligned = refl

touched_sectors-touches_example :
    contains 4 (touched_sectors (4 ∷ 128 ∷ []) 4 32) ≡ any (touches 4 32 4) (4 ∷ 128 ∷ [])
touched_sectors-touches_example =
    touched_sectors-touches 4 4 32 (4 ∷ 128 ∷ []) (omega arith) (omega arith)

abbrev odd : Matrix
odd = (1 ∷ 2 ∷ 3 ∷ []) ∷ (4 ∷ 5 ∷ 6 ∷ []) ∷ (7 ∷ 8 ∷ 9 ∷ []) ∷ []

odd_result : some (tiled_matmul odd odd 2).0 ≡ reference_matmul odd odd
unfolding tiled_matmul reference_matmul
odd_result = refl

tiled_matmul-reference_example : reference_matmul odd odd ≡ some (tiled_matmul odd odd 2).0
tiled_matmul-reference_example =
    tiled_matmul-reference odd (1 ∷ 2 ∷ 3 ∷ []) ((4 ∷ 5 ∷ 6 ∷ []) ∷ (7 ∷ 8 ∷ 9 ∷ []) ∷ []) 2
      (omega arith) refl refl
