-- ===== src/OperatingSystems/Scheduler/Remaining.antt =====
-- The ticks that are left in round robin, name by name and in all.
use netai_devsecops_runbook.Prelude.{
  if◌then◌else◌, Bool-cases, ◌==◌, Dict, lookup, insert, erase, lookup-insert, lookup-erase, ℕ, ◌+◌,
  ◌≤◌, String, ◌≡◌, refl, ap, ◌∙◌, inl, inr, Option, none, some, List, [], ◌∷◌, arith, string_key,
}
use netai_devsecops_runbook.OperatingSystems.Scheduler.{Job, bursts}

abbrev or_zero : Option ℕ → ℕ
or_zero none = 0
or_zero (some v) = v

abbrev pub left_of : String → Dict String ℕ → ℕ
left_of name d = or_zero (lookup name d)

pub left_of-insert :
    (k j : String) (v : ℕ) (d : Dict String ℕ)
    → left_of j (insert k v d) ≡ (if k == j then v else left_of j d)
left_of-insert k j v d =
    rw (lookup-insert k j v d)
      (elim (Bool-cases (k == j)) [ inl h ↦ rw h refl | inr h ↦ rw h refl ])

pub left_of-erase :
    (k j : String) (d : Dict String ℕ) → left_of j (erase k d) ≡ (if k == j then 0 else left_of j d)
left_of-erase k j d =
    rw (lookup-erase k j d) (elim (Bool-cases (k == j)) [ inl h ↦ rw h refl | inr h ↦ rw h refl ])

-- the turns that entries may take
abbrev pub total : Dict String ℕ → ℕ
total [] = 0
total ((name, left) ∷ remaining) = left + 1 + total remaining

pub total-insert :
    (k : String) (v w : ℕ) (d : Dict String ℕ)
    → lookup k d ≡ some w
    → total (insert k v d) + w ≡ total d + v
total-insert k v w [] h = cc
total-insert k v w ((j, u) ∷ d) h = elim (Bool-cases (j == k)) [
  | inl here ↦ let e : u ≡ w = cc (rw here at h) in rw here (omega arith)
  | inr there ↦ rw there (omega (arith, total-insert k v w d (rw there at h)))
]

pub total-erase_le : (k : String) (d : Dict String ℕ) → total (erase k d) ≤ total d
total-erase_le k [] = omega arith
total-erase_le k ((j, u) ∷ d) = ground (arith, total-erase_le k d)

pub total-erase :
    (k : String) (w : ℕ) (d : Dict String ℕ)
    → lookup k d ≡ some w
    → total (erase k d) + w + 1 ≤ total d
total-erase k w [] h = cc
total-erase k w ((j, u) ∷ d) h = elim (Bool-cases (j == k)) [
  | inl here ↦ let e : u ≡ w = cc (rw here at h) in rw here (omega (arith, total-erase_le k d))
  | inr there ↦ rw there (omega (arith, total-erase k w d (rw there at h)))
]

-- the burst of the last job of a name, and `burst` where there is none
abbrev pub last_burst : String → ℕ → List Job → ℕ
last_burst name burst [] = burst
last_burst name burst (job ∷ jobs) =
    last_burst name (if job.name == name then job.burst else burst) jobs

-- one turn for each tick of a burst, and one more
abbrev pub demand : List Job → ℕ
demand [] = 0
demand (job ∷ jobs) = job.burst + 1 + demand jobs

pub left_of-bursts :
    (name : String) (jobs : List Job) (d : Dict String ℕ)
    → left_of name (bursts jobs d) ≡ last_burst name (left_of name d) jobs
unfolding bursts
left_of-bursts name [] d = refl
left_of-bursts name (job ∷ jobs) d =
    left_of-bursts name jobs (insert job.name job.burst d)
    ∙ ap (λ b. last_burst name b jobs) (left_of-insert job.name name job.burst d)

pub total-insert_le :
    (k : String) (v : ℕ) (d : Dict String ℕ) → total (insert k v d) ≤ total d + v + 1
total-insert_le k v [] = omega arith
total-insert_le k v ((j, u) ∷ d) = ground (arith, total-insert_le k v d)

pub total-bursts :
    (jobs : List Job) (d : Dict String ℕ) → total (bursts jobs d) ≤ total d + demand jobs
unfolding bursts
total-bursts [] d = omega arith
total-bursts (job ∷ jobs) d =
    omega
      (arith, total-bursts jobs (insert job.name job.burst d), total-insert_le job.name job.burst d)
