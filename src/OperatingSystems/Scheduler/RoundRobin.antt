-- ===== src/OperatingSystems/Scheduler/RoundRobin.antt =====
-- scheduler.py: the loop of `round_robin`, its end and the ticks that it gives.
use netai_devsecops_runbook.Prelude.{
  nat_beq, if◌then◌else◌, nat_beq_iff, Bool-cases, Option-cases, List-cases, replicate,
  count-append, string_key, ◌==◌, Dict, ==_refl, ==_eq, contains, lookup, insert, erase, Result, ℕ,
  zero, suc, ◌+◌, ◌-◌, ◌≤◌, ◌<◌, min, String, ◌≡◌, refl, sym, ap, subst, ◌∙◌, ◌≢◌, inl, inr, true,
  false, none, some, List, [], ◌∷◌, ◌++◌, arith, zero-add, pos, ok,
}
use netai_devsecops_runbook.OperatingSystems.Scheduler.{
  Job, Queue, SchedulerError, admit, run_ticks, round_robin_loop, bursts, round_robin, last_arrival,
}
use netai_devsecops_runbook.OperatingSystems.Scheduler.Work.{
  ticks_of, ticks_of-replicate, idle_ticks,
}
use netai_devsecops_runbook.OperatingSystems.Scheduler.Admission.{
  names_of, has, is_some, IsLine, admit-IsLine, admit_late, run_ticks-IsLine,
}
use netai_devsecops_runbook.OperatingSystems.Scheduler.Remaining.{
  left_of, left_of-insert, left_of-erase, total, total-insert, total-erase, last_burst, demand,
  left_of-bursts, total-bursts,
}
use netai_devsecops_runbook.OperatingSystems.Scheduler.Turns.{
  pop-IsLine, erase-IsLine, requeue-IsLine, bursts-IsLine,
}

has-missing : (k : String) (d : Dict String ℕ) → lookup k d ≡ none → has k d ≢ true
has-missing k d missing there = let nothing : false ≡ true = sym (ap is_some missing) ∙ there in cc

-- what the loop gives, from a timeline and what is left
abbrev IsServed : Dict String ℕ → List String → Result SchedulerError (List String) → Type 0
IsServed remaining timeline answer =
    (result : List String) × (answer ≡ ok result)
    × ((name : String)
        → name ≢ "-"
        → ticks_of name result ≡ ticks_of name timeline + left_of name remaining)

-- a turn that gives `run` ticks to a name, of which `left - run` are left
served_run :
    (name n : String) (run : ℕ) (timeline : List String)
    → ticks_of n (timeline ++ replicate run name)
      ≡ ticks_of n timeline + (if name == n then run else 0)
unfolding ticks_of
served_run name n run timeline =
    omega (
      arith,
      count-append (λ t. t == n) timeline (replicate run name),
      ticks_of-replicate n name run,
    )

served_done :
    (name n : String) (run left t : ℕ) (d : Dict String ℕ) (timeline : List String)
    → lookup name d ≡ some left
    → run ≤ left
    → left - run ≡ 0
    → t ≡ ticks_of n (timeline ++ replicate run name) + left_of n (erase name d)
    → t ≡ ticks_of n timeline + left_of n d
served_done name n run left t d timeline entry enough done h = elim (Bool-cases (name == n)) [
  | inl equal ↦
      let e : left_of n d ≡ left = rw (sym (==_eq name n equal), entry) refl in
      ground (arith, h, served_run name n run timeline, left_of-erase name n d, e)
  | inr different ↦ ground (arith, h, served_run name n run timeline, left_of-erase name n d)
]

served_more :
    (name n : String) (run left t : ℕ) (d : Dict String ℕ) (timeline : List String)
    → lookup name d ≡ some left
    → run ≤ left
    → t ≡ ticks_of n (timeline ++ replicate run name) + left_of n (insert name (left - run) d)
    → t ≡ ticks_of n timeline + left_of n d
served_more name n run left t d timeline entry enough h = elim (Bool-cases (name == n)) [
  | inl equal ↦
      let e : left_of n d ≡ left = rw (sym (==_eq name n equal), entry) refl in
      ground (arith, h, served_run name n run timeline, left_of-insert name n (left - run) d, e)
  | inr different ↦
      ground (arith, h, served_run name n run timeline, left_of-insert name n (left - run) d)
]

-- in a queue without a ready job, some job comes later
idle-late :
    (jobs : List Job) (time : ℕ) (name : String) (remaining : Dict String ℕ) (q : Queue)
    → has name remaining ≡ true
    → (admit jobs time q).ready ≡ []
    → IsLine jobs remaining [] (admit jobs time q)
    → time < last_arrival jobs
idle-late jobs time name remaining q there idle s =
    let empty : contains name (names_of (admit jobs time q).ready) ≡ false =
      subst (λ r. contains name (names_of r) ≡ false) (sym idle) refl in
    admit_late jobs time q name (s.named name there) (ground (arith, s.waits name there))

module _ (jobs : List Job) (quantum : ℕ) (positive : 0 < quantum) where
  serve_loop :
      (fuel time : ℕ) (remaining : Dict String ℕ) (q : Queue) (timeline : List String)
      → total remaining + (last_arrival jobs - time) ≤ fuel
      → IsLine jobs remaining [] q
      → IsServed remaining timeline (round_robin_loop fuel jobs quantum time remaining q timeline)
  unfolding round_robin_loop
  serve_loop fuel time [] q timeline h s = (timeline, refl, λ name named. omega arith)
  serve_loop zero time (r ∷ remaining) q timeline h s = absurd (omega arith)
  serve_loop (suc fuel) time (r ∷ remaining) q timeline h s =
      let q1 = admit jobs time q in
      let s1 = admit-IsLine jobs jobs time (r ∷ remaining) [] q (λ name m. m) s in
      elim (List-cases q1.ready) [
        | inl idle ↦
            let there : has r.0 (r ∷ remaining) ≡ true = rw (==_refl r.0) refl in
            let (result, ran, served) =
              serve_loop fuel (time + 1) (r ∷ remaining) q1 (timeline ++ "-" ∷ [])
                (omega (arith, idle-late jobs time r.0 (r ∷ remaining) q there idle s1)) s1 in
            (
              result,
              rw (round_robin_loop, idle) ran,
              λ name named.
                  served name named ∙ idle_ticks name timeline (left_of name (r ∷ remaining)) named,
            )
        | inr (job, ready, found) ↦
            let d = r ∷ remaining in
            let s2 = pop-IsLine jobs d q1 job ready found s1 in
            let there : has job.name d ≡ true =
              s2.left job.name (ground (arith, string_key.same_iff job.name job.name)) in
            elim (Option-cases (lookup job.name d)) [
              | inl missing ↦ absurd (has-missing job.name d missing there)
              | inr (left, entry) ↦
                  let run = min quantum left in
                  let after = run_ticks jobs run time (record q1 { ready = ready }) in
                  let (moved, s3) =
                    run_ticks-IsLine jobs run time d (job.name ∷ []) (record q1 { ready = ready })
                      s2 in
                  elim (Bool-cases (nat_beq (left - run) 0)) [
                    | inl done ↦
                        let (result, ran, served) =
                          serve_loop fuel after.0 (erase job.name d) after.1
                            (timeline ++ replicate run job.name)
                            (omega (arith, h, moved, total-erase job.name left d entry))
                            (erase-IsLine jobs d after.1 job.name s3) in
                        (
                          result,
                          rw (round_robin_loop, found, entry, done) ran,
                          λ name named.
                              served_done job.name name run left _ d timeline entry (omega arith)
                                ((nat_beq_iff (left - run) 0).0 done) (served name named),
                        )
                    | inr goes_on ↦
                        let still : 0 < left - run = ground (arith, nat_beq_iff (left - run) 0) in
                        let (result, ran, served) =
                          serve_loop fuel after.0 (insert job.name (left - run) d)
                            (record after.1 { ready = after.1.ready ++ job ∷ [] })
                            (timeline ++ replicate run job.name)
                            (omega (
                              arith,
                              h,
                              moved,
                              positive,
                              still,
                              total-insert job.name (left - run) left d entry,
                            ))
                            (requeue-IsLine jobs d after.1 job (left - run) s3) in
                        (
                          result,
                          rw (round_robin_loop, found, entry, goes_on) ran,
                          λ name named.
                              served_more job.name name run left _ d timeline entry (omega arith)
                                (served name named),
                        )
                  ]
            ]
      ]

-- For a positive quantum and enough fuel, one turn for each tick of the bursts, one for each job and
-- one for each tick up to the last arrival: round robin raises nothing and ends, and a name has as
-- many ticks in the timeline as the last job of the name has in its burst, and none where no job has
-- the name; a name "-" is apart, since it marks idle ticks.
pub round_robin-work :
    (fuel : ℕ) (jobs : List Job) (quantum : ℕ)
    → 0 < quantum
    → demand jobs + last_arrival jobs ≤ fuel
    → (timeline : List String) × (round_robin fuel jobs (pos quantum) ≡ ok timeline)
      × ((name : String) → name ≢ "-" → ticks_of name timeline ≡ last_burst name 0 jobs)
unfolding round_robin ticks_of
round_robin-work fuel jobs zero positive h = absurd (omega arith)
round_robin-work fuel jobs (suc n) positive h =
    let (timeline, ran, served) =
      serve_loop jobs (suc n) positive fuel 0 (bursts jobs [])
        (record { ready = []; admitted = [] }) [] (omega (arith, total-bursts jobs []))
        (bursts-IsLine jobs) in
    (timeline, ran, λ name named. served name named ∙ zero-add _ ∙ left_of-bursts name jobs [])
