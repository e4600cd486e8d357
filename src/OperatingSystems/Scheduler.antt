-- ===== src/OperatingSystems/Scheduler.antt =====
-- learning/operating-systems/examples/scheduler.py: schedules of jobs, tick by tick. `JOBS` is an
-- argument.
pub mod Work
pub mod Admission
pub mod Remaining
pub mod Turns
pub mod RoundRobin
use netai_devsecops_runbook.Prelude.{
  leb, nat_beq, if◌then◌else◌, length, replicate, filter, ◌-ℤ◌, ℤ, ◌==◌, Dict, contains, add,
  lookup, insert, erase, Result, ℕ, zero, suc, ◌+◌, ◌-◌, min, max, String, Bool, not, ◌&&◌, Option,
  none, some, List, [], ◌∷◌, ◌++◌, map, pos, negsuc, ok, err, string_key,
}

pub record Job : Type 0 where
  pub name : String
  pub arrival : ℕ
  pub burst : ℕ

-- equality of the dataclass
unfoldable pub same_job : Job → Job → Bool
same_job a b = a.name == b.name && nat_beq a.arrival b.arrival && nat_beq a.burst b.burst

-- `min(ready, key=key)` of a list that begins with `job`, where `less a b` is `key(a) < key(b)`
unfoldable pub min_by : (Job → Job → Bool) → Job → List Job → Job
min_by less job [] = job
min_by less job (other ∷ ready) = min_by less (if less other job then other else job) ready

-- `pending.remove(job)`
unfoldable pub remove_job : Job → List Job → List Job
unfolding same_job
remove_job job [] = []
remove_job job (other ∷ pending) =
    if same_job other job then pending else other ∷ remove_job job pending

abbrev pub ready_jobs : ℕ → List Job → List Job
ready_jobs time pending = filter (λ job. leb job.arrival time) pending

-- the loop on fuel; `none` means that the fuel ran out
unfoldable pub nonpreemptive_loop :
    ℕ → (Job → Job → Bool) → ℕ → List Job → List String → Option (List String)
unfolding min_by remove_job
nonpreemptive_loop fuel less time [] timeline = some timeline
nonpreemptive_loop zero less time (p ∷ pending) timeline = none
nonpreemptive_loop (suc fuel) less time (p ∷ pending) timeline =
    elim (ready_jobs time (p ∷ pending)) [
      | [] ↦ nonpreemptive_loop fuel less (time + 1) (p ∷ pending) (timeline ++ "-" ∷ [])
      | first ∷ ready ↦
          let job = min_by less first ready in
          nonpreemptive_loop fuel less (time + job.burst) (remove_job job (p ∷ pending))
            (timeline ++ replicate job.burst job.name)
    ]

-- every idle tick brings the time nearer to the last arrival
abbrev pub last_arrival : List Job → ℕ
last_arrival [] = 0
last_arrival (job ∷ jobs) = max job.arrival (last_arrival jobs)

unfoldable pub nonpreemptive : List Job → (Job → Job → Bool) → Option (List String)
unfolding nonpreemptive_loop
nonpreemptive jobs less = nonpreemptive_loop (length jobs + last_arrival jobs) less 0 jobs []

-- the queue and the names admitted
pub record Queue : Type 0 where
  pub ready : List Job
  pub admitted : List String

-- the `for job in JOBS` that admits the jobs that have arrived
unfoldable pub admit : List Job → ℕ → Queue → Queue
admit [] time q = q
admit (job ∷ jobs) time q =
    if leb job.arrival time && not (contains job.name q.admitted)
    then admit jobs time
        (record { ready = q.ready ++ job ∷ []; admitted = add job.name q.admitted })
    else admit jobs time q

-- `for _ in range(run)`: the new time and queue; the timeline gets the name `run` times
unfoldable pub run_ticks : List Job → ℕ → ℕ → Queue → ℕ × Queue
unfolding admit
run_ticks jobs zero time q = (time, q)
run_ticks jobs (suc run) time q = run_ticks jobs run (time + 1) (admit jobs (time + 1) q)

-- what round robin may raise, and a run that is not over within the fuel
pub data SchedulerError : Type 0 where
  value_error key_error out_of_fuel : SchedulerError

unfoldable pub round_robin_loop :
    ℕ → List Job → ℕ → ℕ → Dict String ℕ → Queue → List String → Result SchedulerError (List String)
unfolding run_ticks
round_robin_loop fuel jobs quantum time [] q timeline = ok timeline
round_robin_loop zero jobs quantum time (r ∷ remaining) q timeline = err out_of_fuel
round_robin_loop (suc fuel) jobs quantum time (r ∷ remaining) q timeline =
    let q1 = admit jobs time q in
    elim q1.ready [
      | [] ↦ round_robin_loop fuel jobs quantum (time + 1) (r ∷ remaining) q1 (timeline ++ "-" ∷ [])
      | job ∷ ready ↦ elim (lookup job.name (r ∷ remaining)) [
        | none ↦ err key_error
        | some left ↦
            let run = min quantum left in
            let (time', q2) = run_ticks jobs run time (record q1 { ready = ready }) in
            let done =
              round_robin_loop fuel jobs quantum time' (erase job.name (r ∷ remaining)) q2
                (timeline ++ replicate run job.name) in
            let more =
              round_robin_loop fuel jobs quantum time'
                (insert job.name (left - run) (r ∷ remaining))
                (record q2 { ready = q2.ready ++ job ∷ [] }) (timeline ++ replicate run job.name) in
            if nat_beq (left - run) 0 then done else more
      ]
    ]

-- `{job.name: job.burst for job in JOBS}`
unfoldable pub bursts : List Job → Dict String ℕ → Dict String ℕ
bursts [] remaining = remaining
bursts (job ∷ jobs) remaining = bursts jobs (insert job.name job.burst remaining)

unfoldable pub round_robin : ℕ → List Job → ℤ → Result SchedulerError (List String)
unfolding round_robin_loop bursts
round_robin fuel jobs (negsuc n) = err value_error
round_robin fuel jobs (pos zero) = err value_error
round_robin fuel jobs (pos (suc n)) =
    round_robin_loop fuel jobs (suc n) 0 (bursts jobs []) (record { ready = []; admitted = [] }) []

abbrev pub contains_key : String → Dict String ℕ → Bool
contains_key name d = contains name (map (λ entry. entry.0) d)

-- `first` and `finish` of `summarize`, from the tick on
unfoldable pub ticks :
    List String → ℕ → Dict String ℕ → Dict String ℕ → Dict String ℕ × Dict String ℕ
ticks [] tick first finish = (first, finish)
ticks (name ∷ timeline) tick first finish =
    if name == "-"
    then ticks timeline (tick + 1) first finish
    else ticks timeline (tick + 1)
        (if contains_key name first then first else insert name tick first)
        (insert name (tick + 1) finish)

-- the line that is printed of a job; `none` is the KeyError of a job that never ran
pub record JobSummary : Type 0 where
  pub turnaround : ℤ
  pub waiting : ℤ
  pub response : ℤ

unfoldable pub summarize_job : Dict String ℕ × Dict String ℕ → Job → Option JobSummary
summarize_job (first, finish) job = elim (lookup job.name finish) [
  | none ↦ none
  | some finished ↦ elim (lookup job.name first) [
    | none ↦ none
    | some began ↦ some (record {
      turnaround = pos finished -ℤ pos job.arrival;
      waiting = (pos finished -ℤ pos job.arrival) -ℤ pos job.burst;
      response = pos began -ℤ pos job.arrival;
    })
  ]
]

summarize_jobs : Dict String ℕ × Dict String ℕ → List Job → Option (List JobSummary)
unfolding summarize_job
summarize_jobs ends [] = some []
summarize_jobs ends (job ∷ jobs) = elim (summarize_job ends job) [
  | none ↦ none
  | some summary ↦ elim (summarize_jobs ends jobs) [
    | none ↦ none
    | some summaries ↦ some (summary ∷ summaries)
  ]
]

-- the lines after the timeline; the first KeyError ends the function
unfoldable pub summarize : List String → List Job → Option (List JobSummary)
unfolding ticks summarize_jobs
summarize timeline jobs = summarize_jobs (ticks timeline 0 [] []) jobs
