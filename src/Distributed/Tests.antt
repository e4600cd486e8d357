-- ===== src/Distributed/Tests.antt =====
-- Runs of the distributed models on the inputs of their scripts, and their theorems at such inputs.
use netai_devsecops_runbook.Prelude.{
  ◌-ℤ◌, ℕ, ◌≤◌, ◌<◌, ◌≡◌, refl, ◌⊎◌, Bool, some, List, [], ◌∷◌, arith, pos, ◌==◌, String, ◌||◌,
  string_key,
}
use netai_devsecops_runbook.Distributed.Replication.{
  leader, follower, Event, write, replicate, read, run, start,
}
use netai_devsecops_runbook.Distributed.Replication.Convergence.{
  IsConsistent, redeliver, redeliver_converges,
}
use netai_devsecops_runbook.Distributed.Replication.Order.{IsUpToDate, run-applies_in_order}
use netai_devsecops_runbook.Distributed.Raft.{
  Entry, Logs, majority, copies, committed_index, committed_prefix,
}
use netai_devsecops_runbook.Distributed.Raft.Quorum.{committed_index-largest}
use netai_devsecops_runbook.Distributed.Raft.Voters.{HasVoter, committed_index-in_every_majority}
use netai_devsecops_runbook.Distributed.Dedup.{new_service, debit, serve}
use netai_devsecops_runbook.Distributed.Dedup.Retry.{debit_retry, IsSound, serve-IsSound}

abbrev script : List Event
script =
    write 0 leader 1 (pos 2)
    ∷ read 5 follower
    ∷ replicate 20 follower 1 (pos 2)
    ∷ read 25 follower
    ∷ []

script_reads :
    (run start script).reads
    ≡ record { tick = 5; value = pos 1; applied_index = 0 }
      ∷ record { tick = 25; value = pos 2; applied_index = 1 }
      ∷ []
unfolding run start
script_reads = refl

start-IsConsistent : IsConsistent (pos 1) (pos 2 ∷ []) start
unfolding start
start-IsConsistent = record {
  at_leader = record { bounded = omega arith; current = refl };
  at_follower = record { bounded = omega arith; current = refl };
  at_reads = tt;
}

-- late, repeated and early messages to the follower
abbrev out_of_order : List Event
out_of_order =
    replicate 1 follower 2 (pos 5)
    ∷ replicate 2 follower 1 (pos 2)
    ∷ read 3 follower
    ∷ replicate 4 follower 3 (pos 7)
    ∷ replicate 5 follower 1 (pos 2)
    ∷ replicate 6 follower 2 (pos 5)
    ∷ []

out_of_order-applied : (run start out_of_order).follower.applied_index ≡ 2
unfolding run start
out_of_order-applied = refl

log_start-IsConsistent : IsConsistent (pos 1) (pos 2 ∷ pos 5 ∷ pos 7 ∷ []) start
unfolding start
log_start-IsConsistent = record {
  at_leader = record { bounded = omega arith; current = refl };
  at_follower = record { bounded = omega arith; current = refl };
  at_reads = tt;
}

run-applies_in_order_example :
    IsUpToDate leader out_of_order start (run start out_of_order)
    × IsUpToDate follower out_of_order start (run start out_of_order)
    × IsConsistent (pos 1) (pos 2 ∷ pos 5 ∷ pos 7 ∷ []) (run start out_of_order)
run-applies_in_order_example =
    run-applies_in_order (pos 1) (pos 2 ∷ pos 5 ∷ pos 7 ∷ []) start out_of_order
      (refl, (refl, (tt, (refl, (refl, (refl, tt)))))) log_start-IsConsistent

redeliver_converges_example :
    ((run start (redeliver 0 (pos 2 ∷ []))).follower.applied_index ≡ 1)
    × ((run start (redeliver 0 (pos 2 ∷ []))).follower.value ≡ pos 2)
redeliver_converges_example = redeliver_converges (pos 1) (pos 2 ∷ []) start start-IsConsistent

abbrev entry : ℕ → ℕ → Entry
entry index term = record { index = index; term = term; command = "x=1" }

abbrev logs : Logs
logs =
    ("A", entry 1 2 ∷ entry 2 4 ∷ [])
    ∷ ("B", entry 1 2 ∷ entry 2 4 ∷ [])
    ∷ ("C", entry 1 2 ∷ [])
    ∷ []

committed_index-logs : committed_index logs 4 ≡ 2
unfolding committed_index
committed_index-logs = refl

committed_prefix-logs :
    committed_prefix (entry 1 2 ∷ entry 2 4 ∷ entry 3 4 ∷ []) 2 ≡ entry 1 2 ∷ entry 2 4 ∷ []
unfolding committed_prefix
committed_prefix-logs = refl

committed_index-largest_example :
    ((committed_index logs 4 ≡ 0) ⊎ (majority logs ≤ copies logs 4 (committed_index logs 4)))
    × ((1 ≤ committed_index logs 4) ⊎ (copies logs 4 1 < majority logs))
committed_index-largest_example = committed_index-largest logs 4 1

-- the voters A and C, of which only A has the entry
abbrev first_or_last : String → Bool
first_or_last name = name == "A" || name == "C"

committed_index-in_every_majority_example : HasVoter first_or_last (committed_index logs 4) 4 logs
unfolding committed_index
committed_index-in_every_majority_example =
    committed_index-in_every_majority first_or_last logs 4 (refl, (refl, (refl, tt))) (omega arith)
      (omega arith)

debit_retry_example :
    debit
      (serve
        (debit new_service "R42" (pos 100)).1
        (record { request_id = "R7"; amount = pos 50 } ∷ []))
      "R42"
      (pos 100)
    ≡ (
      some (pos 900),
      serve
          (debit new_service "R42" (pos 100)).1
          (record { request_id = "R7"; amount = pos 50 } ∷ []),
    )
unfolding new_service debit ◌-ℤ◌
debit_retry_example =
    debit_retry new_service "R42" (pos 100) (pos 900) (pos 100)
      (record { request_id = "R7"; amount = pos 50 } ∷ []) refl

serve-IsSound_example :
    IsSound (serve new_service (record { request_id = "R7"; amount = pos 5_000 } ∷ []))
unfolding new_service
serve-IsSound_example =
    serve-IsSound new_service (record { request_id = "R7"; amount = pos 5_000 } ∷ []) (omega arith)
