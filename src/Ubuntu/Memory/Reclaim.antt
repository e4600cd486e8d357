-- ===== src/Ubuntu/Memory/Reclaim.antt =====
-- How far reclaim and writeback get in the memory pressure model.
use netai_devsecops_runbook.Prelude.{ℕ, ◌+◌, ◌≤◌, ◌≡◌, arith, max}
use netai_devsecops_runbook.Ubuntu.Memory.{MemoryState, current_mib, reclaim_to}

-- Reclaim, writeback and a second reclaim leave exactly the target or, where the file pages do not
-- suffice, the anonymous and other pages alone; those two are never touched.
pub reclaim_to-current :
    (target : ℕ) (s : MemoryState)
    → target ≤ current_mib s
    → (current_mib (reclaim_to target s) ≡ max target (s.anonymous_mib + s.other_mib))
      × ((reclaim_to target s).anonymous_mib ≡ s.anonymous_mib)
      × ((reclaim_to target s).other_mib ≡ s.other_mib)
unfolding reclaim_to
reclaim_to-current target s h = ground arith
