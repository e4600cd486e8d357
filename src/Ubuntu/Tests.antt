-- ===== src/Ubuntu/Tests.antt =====
-- The Ubuntu models on the inputs of their scripts.
use netai_devsecops_runbook.Prelude.{
  count, ℕ, ◌+◌, ◌-◌, max, String, ◌≡◌, refl, false, Option, none, some, List, [], ◌∷◌, map, arith,
  pos, negsuc, nat_beq, if◌then◌else◌, lookup, err, nat_key,
}
use netai_devsecops_runbook.Ubuntu.Memory.{
  MemoryState, current_mib, reclaim_clean, reclaim_to, pressure_label, above_high,
}
use netai_devsecops_runbook.Ubuntu.Memory.Reclaim.{reclaim_to-current}
use netai_devsecops_runbook.Ubuntu.Ring.{
  Request, submitted, RingModel, empty_ring, complete, Call, submitting, completing, run,
  unknown_id,
}
use netai_devsecops_runbook.Ubuntu.Ring.Completion.{Completion, complete-IsFinal}
use netai_devsecops_runbook.Ubuntu.Ring.Lifetime.{accounted, accepted, uses, run-accounted}
use netai_devsecops_runbook.Ubuntu.Cgroup.{ThreadDemand, Period, run_period}
use netai_devsecops_runbook.Ubuntu.Cgroup.Budget.{IsPeriod, run_period-IsPeriod}

abbrev state : MemoryState
state = record { anonymous_mib = 220; clean_file_mib = 80; dirty_file_mib = 40; other_mib = 20 }

state_pressure : pressure_label (current_mib state) 256 384 ≡ above_high
unfolding pressure_label
state_pressure = refl

state_reclaimed : (reclaim_clean state (current_mib state - 240)).0 ≡ 80
unfolding reclaim_clean
state_reclaimed = refl

reclaim_to-current_example :
    (current_mib (reclaim_to 240 state) ≡ max 240 240)
    × ((reclaim_to 240 state).anonymous_mib ≡ 220)
    × ((reclaim_to 240 state).other_mib ≡ 20)
reclaim_to-current_example = reclaim_to-current 240 state (omega arith)

abbrev request : ℕ → String → Request
request id buffer = record {
  request_id = id;
  buffer_name = buffer;
  requested_bytes = 4096;
  state = submitted;
  released = false;
}

abbrev calls : List Call
calls =
    submitting (request 101 "buf-A")
    ∷ submitting (request 102 "buf-B")
    ∷ completing 102 (pos 2048)
    ∷ completing 101 (negsuc 21)
    ∷ completing 101 (negsuc 21)
    ∷ []

calls_release_log : (run empty_ring calls).release_log ≡ "buf-B" ∷ "buf-A" ∷ []
unfolding run empty_ring
calls_release_log = refl

run-accounted_example :
    accounted "buf-A" (run empty_ring calls)
    ≡ accounted "buf-A" empty_ring + count (uses "buf-A") (accepted empty_ring calls)
unfolding empty_ring
run-accounted_example =
    run-accounted "buf-A" empty_ring calls tt ((refl, refl), ((refl, refl), (tt, (tt, (tt, tt)))))

abbrev one_pending : RingModel
one_pending = record { pending = (101, request 101 "buf-A") ∷ []; release_log = [] }

complete-IsFinal_example :
    Completion one_pending 101
      (negsuc 124)
      (complete one_pending 101 (negsuc 124)).0
      (complete one_pending 101 (negsuc 124)).1.release_log
    × (lookup 101 (complete one_pending 101 (negsuc 124)).1.pending
        ≡ (if nat_beq 101 101 then none else lookup 101 one_pending.pending))
    × (complete (complete one_pending 101 (negsuc 124)).1 101 (pos 4096)
        ≡ (err unknown_id, (complete one_pending 101 (negsuc 124)).1))
complete-IsFinal_example = complete-IsFinal one_pending 101 101 (negsuc 124) (pos 4096)

cancelled_once : (complete one_pending 101 (negsuc 124)).1.release_log ≡ "buf-A" ∷ []
unfolding complete
cancelled_once = refl

abbrev threads : List ThreadDemand
threads =
    record { name = "A"; demand_ms = 30; used_ms = 0 }
    ∷ record { name = "B"; demand_ms = 30; used_ms = 0 }
    ∷ []

run_period-IsPeriod_example :
    (p : Period) × (run_period 50_000 threads 5 ≡ some p) × IsPeriod 5 50 threads [] p
run_period-IsPeriod_example = run_period-IsPeriod 50_000 5 threads (omega arith)

abbrev used_times : Option Period → List ℕ
used_times none = []
used_times (some p) = map (λ t. t.used_ms) p.demands

threads_used : used_times (run_period 50_000 threads 5) ≡ 25 ∷ 25 ∷ []
unfolding run_period
threads_used = refl
