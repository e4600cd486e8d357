-- ===== src/OperatingSystems/Scheduler/Turns.antt =====
-- The queue of round robin, when a job begins to run and when it has run.
use netai_devsecops_runbook.Prelude.{
  if◌then◌else◌, count-append, string_key, ◌==◌, Dict, contains, contains-append, insert, erase, ℕ,
  String, ◌≡◌, refl, subst, true, false, List, [], ◌∷◌, ◌++◌, arith,
}
use netai_devsecops_runbook.OperatingSystems.Scheduler.{Job, Queue, bursts}
use netai_devsecops_runbook.OperatingSystems.Scheduler.Admission.{
  names_of, names_of-append, has, has-insert, has-erase, times-contains, IsLine,
}

-- the job at the front begins to run
pub pop-IsLine :
    (jobs : List Job) (remaining : Dict String ℕ) (q : Queue) (job : Job) (ready : List Job)
    → q.ready ≡ job ∷ ready
    → IsLine jobs remaining [] q
    → IsLine jobs remaining (job.name ∷ []) (record q { ready = ready })
pop-IsLine jobs remaining q job ready e s =
    let t : IsLine jobs remaining [] (record q { ready = job ∷ ready }) =
      subst (λ r. IsLine jobs remaining [] (record q { ready = r })) e s in
    record {
      once = t.once;
      known = t.known;
      left = t.left;
      waits = t.waits;
      named = t.named;
      later = t.later;
    }

-- the job that ran is done
pub erase-IsLine :
    (jobs : List Job) (remaining : Dict String ℕ) (q : Queue) (name : String)
    → IsLine jobs remaining (name ∷ []) q
    → IsLine jobs (erase name remaining) [] q
erase-IsLine jobs remaining q name s =
    let absent : contains name (names_of q.ready) ≡ false =
      ground (
        arith,
        s.once name,
        times-contains name (names_of q.ready),
        string_key.same_iff name name,
      ) in
    record {
      once = λ n. ground (arith, s.once n);
      known = λ n h. s.known n (ground arith);
      left =
          λ n h. ground (arith, s.left n, has-erase name n remaining, string_key.same_iff name n);
      waits = λ n h k. ground (arith, s.waits n, has-erase name n remaining);
      named = λ n h. s.named n (ground (arith, has-erase name n remaining));
      later = λ n h k. ground (
        arith,
        s.later n,
        s.known name,
        has-erase name n remaining,
        string_key.same_iff name n,
        string_key.same_iff name name,
      );
    }

-- the job that ran waits again
pub requeue-IsLine :
    (jobs : List Job) (remaining : Dict String ℕ) (q : Queue) (job : Job) (more : ℕ)
    → IsLine jobs remaining (job.name ∷ []) q
    → IsLine jobs (insert job.name more remaining) [] (record q { ready = q.ready ++ job ∷ [] })
requeue-IsLine jobs remaining q job more s =
    let longer : names_of (q.ready ++ job ∷ []) ≡ names_of q.ready ++ job.name ∷ [] =
      names_of-append q.ready (job ∷ []) in
    let joins = λ (n : String). contains-append n (names_of q.ready) (job.name ∷ []) in
    let runs : has job.name remaining ≡ true =
      s.left job.name (ground (arith, string_key.same_iff job.name job.name)) in
    record {
      once = λ n.
          rw longer (
            ground
              (arith, s.once n, count-append (λ m. m == n) (names_of q.ready) (job.name ∷ [])));
      known = λ n h. s.known n (ground (arith, rw longer at h, joins n));
      left = λ n h.
          ground (arith, s.left n, rw longer at h, joins n, has-insert job.name n more remaining);
      waits = λ n h k.
          rw longer (ground (arith, s.waits n, joins n, has-insert job.name n more remaining));
      named = λ n h.
          s.named n
            (ground (arith, has-insert job.name n more remaining, string_key.same_iff job.name n));
      later = λ n h k. ground (arith, s.later n, has-insert job.name n more remaining);
    }

-- the ticks that a name has left
pub has-bursts :
    (name : String) (jobs : List Job) (d : Dict String ℕ)
    → has name (bursts jobs d) ≡ (if contains name (names_of jobs) then true else has name d)
unfolding bursts
has-bursts name [] d = refl
has-bursts name (job ∷ jobs) d = ground (
  arith,
  has-bursts name jobs (insert job.name job.burst d),
  has-insert job.name name job.burst d,
)

pub bursts-IsLine :
    (jobs : List Job) → IsLine jobs (bursts jobs []) [] (record { ready = []; admitted = [] })
bursts-IsLine jobs = record {
  once = λ name. omega arith;
  known = λ name h. h;
  left = λ name h. cc;
  waits = λ name h k. k;
  named = λ name h. ground (arith, has-bursts name jobs []);
  later = λ name h k. ground (arith, has-bursts name jobs []);
}
