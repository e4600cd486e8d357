-- ===== src/OperatingSystems/Scheduler/Work.antt =====
-- scheduler.py: the loop of `nonpreemptive`, its end and the ticks that it gives.
use netai_devsecops_runbook.Prelude.{
  if◌then◌else◌, nat_beq_iff, Bool-cases, any, ◌==◌, ==_refl, ℕ, ◌+◌, String, ◌≡◌, refl, inl, inr,
  Bool, true, List, [], ◌∷◌, arith, string_key, leb, not_leb→lt, List-cases, length, replicate,
  count, zero, suc, ◌-◌, ◌≤◌, ◌<◌, sym, ◌≢◌, some, ◌++◌, count-append, ==_ne, ◌∙◌, false, ==_eq,
}
use netai_devsecops_runbook.OperatingSystems.Scheduler.{
  Job, same_job, min_by, remove_job, ready_jobs, nonpreemptive_loop, last_arrival, nonpreemptive,
}

-- the ticks that the jobs of a name want
abbrev pub work : String → List Job → ℕ
work name [] = 0
work name (job ∷ jobs) = (if job.name == name then job.burst else 0) + work name jobs

-- a job that stands in a list
abbrev IsIn : Job → List Job → Type 0
IsIn job jobs = any (λ other. same_job other job) jobs ≡ true

same_job_refl : (job : Job) → same_job job job ≡ true
unfolding same_job
same_job_refl job =
    rw
      (
        ==_refl job.name,
        (nat_beq_iff job.arrival job.arrival).1 refl,
        (nat_beq_iff job.burst job.burst).1 refl,
      )
      refl

same_job_parts : (a b : Job) → same_job a b ≡ true → (a.name ≡ b.name) × (a.burst ≡ b.burst)
unfolding same_job
same_job_parts a b h = elim (Bool-cases (a.name == b.name)) [
  | inl names ↦ (==_eq a.name b.name names, ground (arith, nat_beq_iff a.burst b.burst))
  | inr others ↦ absurd (ground arith)
]

IsIn-either :
    (job first second : Job) (ready : List Job) (b : Bool)
    → IsIn job ((if b then second else first) ∷ ready)
    → IsIn job (first ∷ second ∷ ready)
IsIn-either job first second ready true h = ground arith
IsIn-either job first second ready false h = ground arith

min_by-IsIn :
    (less : Job → Job → Bool) (job : Job) (ready : List Job)
    → IsIn (min_by less job ready) (job ∷ ready)
unfolding min_by
min_by-IsIn less job [] = rw (same_job_refl job) refl
min_by-IsIn less job (other ∷ ready) =
    IsIn-either (min_by less job (other ∷ ready)) job other ready (less other job)
      (min_by-IsIn less (if less other job then other else job) ready)

IsIn-ready :
    (job : Job) (time : ℕ) (pending : List Job)
    → IsIn job (ready_jobs time pending)
    → IsIn job pending
IsIn-ready job time [] h = h
IsIn-ready job time (p ∷ pending) h = ground (arith, IsIn-ready job time pending)

-- a job that is removed takes its ticks with it, and one place
remove_job-work :
    (name : String) (job : Job) (pending : List Job)
    → IsIn job pending
    → work name (remove_job job pending) + (if job.name == name then job.burst else 0)
      ≡ work name pending
unfolding remove_job
remove_job-work name job [] h = absurd (ground arith)
remove_job-work name job (p ∷ pending) h = elim (Bool-cases (same_job p job)) [
  | inl here ↦
      let (names, bursts) = same_job_parts p job here in
      rw (here, remove_job, names, bursts) (omega arith)
  | inr later ↦
      rw (later, remove_job)
        (omega (arith, remove_job-work name job pending (rw (sym h, later) refl)))
]

length-remove_job :
    (job : Job) (pending : List Job)
    → IsIn job pending
    → length (remove_job job pending) + 1 ≡ length pending
unfolding remove_job
length-remove_job job [] h = absurd (ground arith)
length-remove_job job (p ∷ pending) h = elim (Bool-cases (same_job p job)) [
  | inl here ↦ rw (here, remove_job) (omega arith)
  | inr later ↦
      rw (later, remove_job) (omega (arith, length-remove_job job pending (rw (sym h, later) refl)))
]

last_arrival-remove_job :
    (job : Job) (pending : List Job) → last_arrival (remove_job job pending) ≤ last_arrival pending
unfolding remove_job
last_arrival-remove_job job [] = omega arith
last_arrival-remove_job job (p ∷ pending) = elim (Bool-cases (same_job p job)) [
  | inl here ↦ rw (here, remove_job) (omega arith)
  | inr later ↦ rw (later, remove_job) (omega (arith, last_arrival-remove_job job pending))
]

-- where no job is ready, the last one has not arrived
idle_time :
    (time : ℕ) (p : Job) (pending : List Job)
    → ready_jobs time (p ∷ pending) ≡ []
    → time < last_arrival (p ∷ pending)
idle_time time p pending h = elim (Bool-cases (leb p.arrival time)) [
  | inl ready ↦ absurd (ground arith)
  | inr later ↦ omega (arith, not_leb→lt _ _ later)
]

unfoldable pub ticks_of : String → List String → ℕ
ticks_of name timeline = count (λ t. t == name) timeline

pub ticks_of-replicate :
    (name other : String) (n : ℕ)
    → ticks_of name (replicate n other) ≡ (if other == name then n else 0)
unfolding ticks_of
ticks_of-replicate name other zero = ground arith
ticks_of-replicate name other (suc n) = ground (arith, ticks_of-replicate name other n)

pub idle_ticks :
    (name : String) (timeline : List String) (n : ℕ)
    → name ≢ "-"
    → ticks_of name (timeline ++ "-" ∷ []) + n ≡ ticks_of name timeline + n
unfolding ticks_of
idle_ticks name timeline n named =
    rw (count-append (λ t. t == name) timeline ("-" ∷ []), ==_ne "-" name (λ e. named (sym e)))
      (omega arith)

run_work :
    (name : String) (job : Job) (pending : List Job) (timeline : List String)
    → IsIn job pending
    → ticks_of name (timeline ++ replicate job.burst job.name) + work name (remove_job job pending)
      ≡ ticks_of name timeline + work name pending
unfolding ticks_of
run_work name job pending timeline is_in = omega (
  arith,
  count-append (λ t. t == name) timeline (replicate job.burst job.name),
  ticks_of-replicate name job.name job.burst,
  remove_job-work name job pending is_in,
)

nonpreemptive_loop_lem :
    (fuel : ℕ) (less : Job → Job → Bool) (time : ℕ) (pending : List Job) (timeline : List String)
    → length pending + (last_arrival pending - time) ≤ fuel
    → (result : List String) × (nonpreemptive_loop fuel less time pending timeline ≡ some result)
      × ((name : String)
          → name ≢ "-"
          → ticks_of name result ≡ ticks_of name timeline + work name pending)
unfolding nonpreemptive_loop
nonpreemptive_loop_lem fuel less time [] timeline h = (timeline, refl, λ name named. omega arith)
nonpreemptive_loop_lem zero less time (p ∷ pending) timeline h = absurd (omega arith)
nonpreemptive_loop_lem (suc fuel) less time (p ∷ pending) timeline h =
    elim (List-cases (ready_jobs time (p ∷ pending))) [
      | inl idle ↦
          let (result, ran, worked) =
            nonpreemptive_loop_lem fuel less (time + 1) (p ∷ pending) (timeline ++ "-" ∷ [])
              (omega (arith, idle_time time p pending idle)) in
          (
            result,
            rw (nonpreemptive_loop, idle) ran,
            λ name named.
                worked name named ∙ idle_ticks name timeline (work name (p ∷ pending)) named,
          )
      | inr (first, ready, found) ↦
          let job = min_by less first ready in
          let is_in = IsIn-ready job time (p ∷ pending) (rw found (min_by-IsIn less first ready)) in
          let (result, ran, worked) =
            nonpreemptive_loop_lem fuel less (time + job.burst) (remove_job job (p ∷ pending))
              (timeline ++ replicate job.burst job.name)
              (omega (
                arith,
                length-remove_job job (p ∷ pending) is_in,
                last_arrival-remove_job job (p ∷ pending),
              )) in
          (
            result,
            rw (nonpreemptive_loop, found) ran,
            λ name named. worked name named ∙ run_work name job (p ∷ pending) timeline is_in,
          )
    ]

-- Whatever the key, the schedule ends within its fuel, and a name has as many ticks in the timeline
-- as the jobs of the name have in their bursts; a name "-" is apart, since it marks idle ticks.
pub nonpreemptive-work :
    (jobs : List Job) (less : Job → Job → Bool)
    → (timeline : List String) × (nonpreemptive jobs less ≡ some timeline)
      × ((name : String) → name ≢ "-" → ticks_of name timeline ≡ work name jobs)
unfolding nonpreemptive ticks_of
nonpreemptive-work jobs less =
    let (timeline, ran, worked) =
      nonpreemptive_loop_lem (length jobs + last_arrival jobs) less 0 jobs [] (omega arith) in
    (timeline, ran, λ name named. omega (arith, worked name named))
