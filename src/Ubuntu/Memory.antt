-- ===== src/Ubuntu/Memory.antt =====
-- learning/ubuntu-linux-internals/examples/memory_pressure_model.py: an account of memory in MiB.
-- Amounts are natural numbers; `main` passes no other.
pub mod Reclaim
use netai_devsecops_runbook.Prelude.{ℕ, ◌+◌, ◌-◌, min, ltb, if◌then◌else◌}

pub record MemoryState : Type 0 where
  pub anonymous_mib : ℕ
  pub clean_file_mib : ℕ
  pub dirty_file_mib : ℕ
  pub other_mib : ℕ

abbrev pub current_mib : MemoryState → ℕ
current_mib s = s.anonymous_mib + s.clean_file_mib + s.dirty_file_mib + s.other_mib

unfoldable pub reclaim_clean : MemoryState → ℕ → ℕ × MemoryState
reclaim_clean s amount_mib =
    let reclaimed_mib = min amount_mib s.clean_file_mib in
    (reclaimed_mib, record s { clean_file_mib = s.clean_file_mib - reclaimed_mib })

unfoldable pub writeback_dirty : MemoryState → ℕ × MemoryState
writeback_dirty s =
    let written_mib = s.dirty_file_mib in
    (written_mib, record s { clean_file_mib = s.clean_file_mib + written_mib; dirty_file_mib = 0 })

pub data Pressure : Type 0 where
  above_max above_high at_or_below_high : Pressure

unfoldable pub pressure_label : ℕ → ℕ → ℕ → Pressure
pressure_label current high_mib max_mib =
    if ltb max_mib current
    then above_max
    else if ltb high_mib current
    then above_high
    else at_or_below_high

-- the sequence of calls in `main`: reclaim, write back, reclaim again
unfoldable pub reclaim_to : ℕ → MemoryState → MemoryState
unfolding reclaim_clean writeback_dirty
reclaim_to target_mib s =
    let s1 = (reclaim_clean s (current_mib s - target_mib)).1 in
    let s2 = (writeback_dirty s1).1 in (reclaim_clean s2 (current_mib s2 - target_mib)).1
