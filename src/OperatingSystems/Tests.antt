-- ===== src/OperatingSystems/Tests.antt =====
-- The interleavings and the schedules on the inputs of their scripts.
use netai_devsecops_runbook.Prelude.{
  ltb, leb, if◌then◌else◌, ℕ, String, ◌≡◌, refl, ◌≢◌, Bool, some, List, [], ◌∷◌, pos, ok,
  nat_beq_iff, Dict, arith, err, Result, ◌-ℤ◌, none,
}
use netai_devsecops_runbook.OperatingSystems.Race.{
  Actor, thread_a, thread_b, RaceError, schedules, run_model, simulate_race, split_three,
}
use netai_devsecops_runbook.OperatingSystems.Race.Outcomes.{
  all_orders, final_value, switches, simulate_race-split,
}
use netai_devsecops_runbook.OperatingSystems.Translation.{translate, translated_at, page_fault}
use netai_devsecops_runbook.OperatingSystems.Translation.Isolation.{
  IsUnshared, IsTranslation, translate-IsTranslation,
}
use netai_devsecops_runbook.OperatingSystems.Scheduler.{summarize, Job, nonpreemptive, round_robin}
use netai_devsecops_runbook.OperatingSystems.Scheduler.Remaining.{last_burst}
use netai_devsecops_runbook.OperatingSystems.Scheduler.RoundRobin.{round_robin-work}
use netai_devsecops_runbook.OperatingSystems.Scheduler.Work.{work, ticks_of, nonpreemptive-work}

-- the schedules of the script are all orders of the steps
schedules_three : schedules 3 ≡ all_orders 3 3
unfolding schedules
schedules_three = refl

schedules_two : schedules 2 ≡ all_orders 2 2
unfolding schedules
schedules_two = refl

abbrev mixed : List Actor
mixed = thread_a ∷ thread_b ∷ thread_a ∷ thread_a ∷ thread_b ∷ thread_b ∷ []

simulate_race-split_example :
    final_value (simulate_race mixed split_three) ≡ some (if leb (switches mixed) 1 then 2 else 1)
simulate_race-split_example = simulate_race-split mixed refl refl

abbrev mixed_two : List Actor
mixed_two = thread_a ∷ thread_b ∷ thread_b ∷ thread_a ∷ []

abbrev job : String → ℕ → ℕ → Job
job name arrival burst = record { name = name; arrival = arrival; burst = burst }

abbrev jobs : List Job
jobs = job "A" 0 5 ∷ job "B" 1 2 ∷ job "C" 2 1 ∷ []

-- the key of the shortest job first, where no two jobs have one burst
abbrev shorter : Job → Job → Bool
shorter a b = ltb a.burst b.burst

shortest_first :
    nonpreemptive jobs shorter ≡ some ("A" ∷ "A" ∷ "A" ∷ "A" ∷ "A" ∷ "C" ∷ "B" ∷ "B" ∷ [])
unfolding nonpreemptive
shortest_first = refl

robin_two : round_robin 20 jobs (pos 2) ≡ ok ("A" ∷ "A" ∷ "B" ∷ "B" ∷ "C" ∷ "A" ∷ "A" ∷ "A" ∷ [])
unfolding round_robin
robin_two = refl

nonpreemptive-work_example :
    (timeline : List String) × (nonpreemptive jobs shorter ≡ some timeline)
    × ((name : String) → name ≢ "-" → ticks_of name timeline ≡ work name jobs)
nonpreemptive-work_example = nonpreemptive-work jobs shorter

abbrev page_table : Dict ℕ ℕ
page_table = (18, 58) ∷ (127, 4) ∷ []

-- 0x2201 has no page, 0x1234 has one
faulted : translate page_table (pos 8_705) ≡ err (page_fault 34)
unfolding translate
faulted = refl

mapped : translate page_table (pos 4_660) ≡ ok (translated_at 18 52 58)
unfolding translate
mapped = refl

abbrev one_page : Dict ℕ ℕ
one_page = (18, 58) ∷ []

one_page-IsUnshared : IsUnshared one_page
one_page-IsUnshared v w frame hv hw = ground (arith, nat_beq_iff 18 v, nat_beq_iff 18 w)

mapped_one : translate one_page (pos 4_660) ≡ ok (translated_at 18 52 58)
unfolding translate
mapped_one = refl

translate-IsTranslation_example : IsTranslation page_table (pos 4_660) (translated_at 18 52 58)
translate-IsTranslation_example =
    translate-IsTranslation page_table (pos 4_660) (translated_at 18 52 58) mapped

abbrev counts : {A : Type 0} → Result RaceError (Dict ℕ ℕ × A) → Dict ℕ ℕ
counts (ok (outcomes, trace)) = outcomes
counts (err e) = []

outcomes_three : counts (run_model split_three 3) ≡ (2, 2) ∷ (1, 18) ∷ []
unfolding run_model
outcomes_three = refl

round_robin-work_example :
    (timeline : List String) × (round_robin 20 jobs (pos 2) ≡ ok timeline)
    × ((name : String) → name ≢ "-" → ticks_of name timeline ≡ last_burst name 0 jobs)
round_robin-work_example = round_robin-work 20 jobs 2 (omega arith) (omega arith)

-- a job that never ran ends the summary
missing_summary : summarize ("A" ∷ "A" ∷ []) (job "A" 0 2 ∷ job "B" 0 1 ∷ []) ≡ none
unfolding summarize
missing_summary = refl

two_summaries :
    summarize ("A" ∷ "A" ∷ "B" ∷ []) (job "A" 0 2 ∷ job "B" 1 1 ∷ [])
    ≡ some (
        record { turnaround = pos 2; waiting = pos 0; response = pos 0 }
        ∷ record { turnaround = pos 2; waiting = pos 1; response = pos 1 }
        ∷ [])
unfolding summarize ◌-ℤ◌
two_summaries = refl
