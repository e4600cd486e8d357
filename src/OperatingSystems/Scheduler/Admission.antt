-- ===== src/OperatingSystems/Scheduler/Admission.antt =====
-- The queue of round robin: what admission keeps of it.
use netai_devsecops_runbook.Prelude.{
  ltb, if◌then◌else◌, Bool-cases, count, count-append, string_key, ◌==◌, Dict, contains, add,
  contains-append, contains-add, lookup, insert, erase, lookup-insert, lookup-erase, ℕ, ◌≤◌, String,
  ◌≡◌, refl, sym, ap, ◌∙◌, inl, inr, Bool, true, false, Option, none, some, List, [], ◌∷◌, ◌++◌,
  map, arith, append_assoc, leb, not_leb→lt, zero, suc, ◌+◌, ◌<◌, not, ◌&&◌,
}
use netai_devsecops_runbook.OperatingSystems.Scheduler.{Job, Queue, admit, run_ticks, last_arrival}

abbrev pub names_of : List Job → List String
names_of jobs = map (λ job. job.name) jobs

abbrev pub is_some : Option ℕ → Bool
is_some none = false
is_some (some v) = true

-- `name in remaining`
abbrev pub has : String → Dict String ℕ → Bool
has name d = is_some (lookup name d)

pub has-insert :
    (k j : String) (v : ℕ) (d : Dict String ℕ)
    → has j (insert k v d) ≡ (if k == j then true else has j d)
has-insert k j v d =
    rw (lookup-insert k j v d)
      (elim (Bool-cases (k == j)) [ inl h ↦ rw h refl | inr h ↦ rw h refl ])

pub has-erase :
    (k j : String) (d : Dict String ℕ) → has j (erase k d) ≡ (if k == j then false else has j d)
has-erase k j d =
    rw (lookup-erase k j d) (elim (Bool-cases (k == j)) [ inl h ↦ rw h refl | inr h ↦ rw h refl ])

pub names_of-append : (xs ys : List Job) → names_of (xs ++ ys) ≡ names_of xs ++ names_of ys
names_of-append [] ys = refl
names_of-append (x ∷ xs) ys = ap (◌∷◌ x.name) (names_of-append xs ys)

-- how often a name stands in a list
abbrev pub times : String → List String → ℕ
times name names = count (λ n. n == name) names

pub times-contains :
    (name : String) (names : List String) → contains name names ≡ ltb 0 (times name names)
times-contains name [] = refl
times-contains name (n ∷ names) = ground (arith, times-contains name names)

-- the names that wait, with `front` the one that runs
abbrev pub line : List String → Queue → List String
line front q = front ++ names_of q.ready

-- a name that waits does so once, is admitted and has ticks left; a name with ticks left is that of a
-- job, and waits if it is admitted; a job that is not admitted has its name in `remaining`
pub record IsLine (jobs : List Job) (remaining : Dict String ℕ) (front : List String) (q : Queue)
    : Type 0 where
  pub once : (name : String) → times name (line front q) ≤ 1
  pub known :
      (name : String) → contains name (line front q) ≡ true → contains name q.admitted ≡ true
  pub left : (name : String) → contains name (line front q) ≡ true → has name remaining ≡ true
  pub waits :
      (name : String)
      → has name remaining ≡ true
      → contains name q.admitted ≡ true
      → contains name (line front q) ≡ true
  pub named : (name : String) → has name remaining ≡ true → contains name (names_of jobs) ≡ true
  pub later :
      (name : String)
      → contains name (names_of jobs) ≡ true
      → contains name q.admitted ≡ false
      → has name remaining ≡ true

-- one job that is admitted
admit_one :
    (jobs : List Job) (remaining : Dict String ℕ) (front : List String) (q : Queue) (job : Job)
    → contains job.name (names_of jobs) ≡ true
    → contains job.name q.admitted ≡ false
    → IsLine jobs remaining front q
    → IsLine jobs remaining front
        (record { ready = q.ready ++ job ∷ []; admitted = add job.name q.admitted })
admit_one jobs remaining front q job is_job new s =
    let longer : line front
          (record { ready = q.ready ++ job ∷ []; admitted = add job.name q.admitted })
        ≡ line front q ++ job.name ∷ [] =
      ap (λ ns. front ++ ns) (names_of-append q.ready (job ∷ []))
      ∙ sym (append_assoc front (names_of q.ready) (job.name ∷ [])) in
    let absent : contains job.name (line front q) ≡ false = ground (arith, s.known job.name) in
    let joins = λ (name : String). contains-append name (line front q) (job.name ∷ []) in
    record {
      once = λ name. rw longer (
          ground (
            arith,
            s.once name,
            count-append (λ n. n == name) (line front q) (job.name ∷ []),
            times-contains job.name (line front q),
            string_key.same_iff job.name name,
          ));
      known = λ name h.
          ground (
            arith,
            s.known name,
            rw longer at h,
            joins name,
            contains-add job.name name q.admitted,
          );
      left = λ name h. ground (
        arith,
        s.left name,
        s.later job.name,
        rw longer at h,
        joins name,
        string_key.same_iff job.name name,
      );
      waits = λ name h k.
          rw longer
            (ground (arith, s.waits name, joins name, contains-add job.name name q.admitted));
      named = s.named;
      later = λ name h k. ground (arith, s.later name, contains-add job.name name q.admitted);
    }

pub admit-IsLine :
    (jobs some_jobs : List Job) (time : ℕ) (remaining : Dict String ℕ) (front : List String)
    (q : Queue)
    → ((name : String)
        → contains name (names_of some_jobs) ≡ true
        → contains name (names_of jobs) ≡ true)
    → IsLine jobs remaining front q
    → IsLine jobs remaining front (admit some_jobs time q)
unfolding admit
admit-IsLine jobs [] time remaining front q are_jobs s = s
admit-IsLine jobs (job ∷ some_jobs) time remaining front q are_jobs s =
    let others = λ (name : String) (h : contains name (names_of some_jobs) ≡ true).
      are_jobs name (ground arith) in
    elim (Bool-cases (leb job.arrival time && not (contains job.name q.admitted))) [
      | inr stays ↦ rw (stays, admit) (admit-IsLine jobs some_jobs time remaining front q others s)
      | inl joins ↦
          rw (joins, admit)
            (admit-IsLine jobs some_jobs time remaining front
              (record { ready = q.ready ++ job ∷ []; admitted = add job.name q.admitted }) others
              (admit_one jobs remaining front q job
                (are_jobs job.name (ground (arith, string_key.same_iff job.name job.name)))
                (ground arith) s))
    ]

admit_keeps :
    (jobs : List Job) (time : ℕ) (q : Queue) (name : String)
    → contains name q.admitted ≡ true
    → contains name (admit jobs time q).admitted ≡ true
unfolding admit
admit_keeps [] time q name h = h
admit_keeps (job ∷ jobs) time q name h =
    elim (Bool-cases (leb job.arrival time && not (contains job.name q.admitted))) [
      | inr stays ↦ rw (stays, admit) (admit_keeps jobs time q name h)
      | inl joins ↦
          rw (joins, admit)
            (admit_keeps jobs time
              (record { ready = q.ready ++ job ∷ []; admitted = add job.name q.admitted }) name
              (ground (arith, contains-add job.name name q.admitted)))
    ]

-- a job that is not admitted is one of those that come later
pub admit_late :
    (jobs : List Job) (time : ℕ) (q : Queue) (name : String)
    → contains name (names_of jobs) ≡ true
    → contains name (admit jobs time q).admitted ≡ false
    → time < last_arrival jobs
unfolding admit
admit_late [] time q name is_job late = cc
admit_late (job ∷ jobs) time q name is_job late = elim (Bool-cases (leb job.arrival time)) [
  | inr later ↦ omega (arith, not_leb→lt _ _ later)
  | inl arrived ↦ elim (Bool-cases (leb job.arrival time && not (contains job.name q.admitted))) [
    | inr stays ↦
        let rest : contains name (admit jobs time q).admitted ≡ false = rw (stays, admit) at late in
        omega (
          arith,
          admit_late jobs time q name
              (ground (arith, admit_keeps jobs time q name, string_key.same_iff job.name name))
              rest,
        )
    | inl joins ↦
        let q' : Queue = record {
          ready = q.ready ++ job ∷ [];
          admitted = add job.name q.admitted;
        } in
        let rest : contains name (admit jobs time q').admitted ≡ false =
          rw (joins, admit) at late in
        omega (
          arith,
          admit_late jobs time q' name
              (ground (arith, admit_keeps jobs time q' name, contains-add job.name name q.admitted))
              rest,
        )
  ]
]

pub run_ticks-IsLine :
    (jobs : List Job) (run time : ℕ) (remaining : Dict String ℕ) (front : List String) (q : Queue)
    → IsLine jobs remaining front q
    → ((run_ticks jobs run time q).0 ≡ time + run)
      × IsLine jobs remaining front (run_ticks jobs run time q).1
unfolding run_ticks
run_ticks-IsLine jobs zero time remaining front q s = (omega arith, s)
run_ticks-IsLine jobs (suc run) time remaining front q s =
    let (later, t) =
      run_ticks-IsLine jobs run (time + 1) remaining front (admit jobs (time + 1) q)
        (admit-IsLine jobs jobs (time + 1) remaining front q (λ name h. h) s) in
    (omega (arith, later), t)
