-- ===== src/Distributed/Replication/Convergence.antt =====
-- Deliveries from one log, late, repeated or out of order, in the replication model.
use netai_devsecops_runbook.Prelude.{
  ℕ, zero, suc, ℤ, ◌+◌, ◌≤◌, ◌≡◌, sym, ap, subst, ◌∙◌, some, List, [], ◌∷◌, arith, length, get_or,
  get_elem?, All, All-append, Bool-cases, nat_beq, inl, inr, add-zero, zero-add,
}
use netai_devsecops_runbook.Distributed.Replication.{
  Replica, apply, Target, leader, follower, Event, write, replicate, read, Cluster, Read, run,
  handle, apply_at,
}

-- the value after the first `index` entries of the log, over the value before all
abbrev pub value_at : ℤ → List ℤ → ℕ → ℤ
value_at initial log zero = initial
value_at initial log (suc i) = get_or log i initial

-- the replica holds the value after a prefix of the log
pub record IsPrefixOf (initial : ℤ) (log : List ℤ) (r : Replica) : Type 0 where
  pub bounded : r.applied_index ≤ length log
  pub current : r.value ≡ value_at initial log r.applied_index

-- the message carries an entry of the log, at its index counted from 1
abbrev pub Delivers : List ℤ → ℕ → ℤ → Type 0
Delivers log zero v = ⊥
Delivers log (suc i) v = get_elem? log i ≡ some v

get_elem?-get_or : (log : List ℤ) (i : ℕ) (v d : ℤ) → get_elem? log i ≡ some v → get_or log i d ≡ v
get_elem?-get_or [] i v d h = ground arith
get_elem?-get_or (x ∷ log) zero v d h = ground arith
get_elem?-get_or (x ∷ log) (suc i) v d h = get_elem?-get_or log i v d h

get_elem?-lt : (log : List ℤ) (i : ℕ) (v : ℤ) → get_elem? log i ≡ some v → suc i ≤ length log
get_elem?-lt [] i v h = ground arith
get_elem?-lt (x ∷ log) zero v h = omega arith
get_elem?-lt (x ∷ log) (suc i) v h = omega (arith, get_elem?-lt log i v h)

module _ (initial : ℤ) (log : List ℤ) where
  apply-IsPrefixOf :
      (r : Replica) (index : ℕ) (v : ℤ)
      → Delivers log index v
      → IsPrefixOf initial log r
      → IsPrefixOf initial log (apply r index v)
  unfolding apply
  apply-IsPrefixOf r zero v d h = absurd d
  apply-IsPrefixOf r (suc i) v d h = elim (Bool-cases (nat_beq (suc i) (r.applied_index + 1))) [
    | inl next ↦ rw next (record {
      bounded = get_elem?-lt log i v d;
      current = sym (get_elem?-get_or log i v initial d);
    })
    | inr other ↦ rw other h
  ]

  -- a message of the log for one of the replicas, or a read
  abbrev pub FromLog : Event → Type 0
  FromLog (write tick target index v) = Delivers log index v
  FromLog (replicate tick target index v) = Delivers log index v
  FromLog (read tick target) = Unit

  abbrev pub IsConsistentRead : Read → Type 0
  IsConsistentRead r = r.value ≡ value_at initial log r.applied_index

  pub record IsConsistent (c : Cluster) : Type 0 where
    pub at_leader : IsPrefixOf initial log c.leader
    pub at_follower : IsPrefixOf initial log c.follower
    pub at_reads : All IsConsistentRead c.reads

  apply_at-IsConsistent :
      (c : Cluster) (target : Target) (index : ℕ) (v : ℤ)
      → Delivers log index v
      → IsConsistent c
      → IsConsistent (apply_at c target index v)
  unfolding apply_at
  apply_at-IsConsistent c leader index v d h = record {
    at_leader = apply-IsPrefixOf c.leader index v d h.at_leader;
    at_follower = h.at_follower;
    at_reads = h.at_reads;
  }
  apply_at-IsConsistent c follower index v d h = record {
    at_leader = h.at_leader;
    at_follower = apply-IsPrefixOf c.follower index v d h.at_follower;
    at_reads = h.at_reads;
  }

  handle-IsConsistent :
      (c : Cluster) (e : Event) → FromLog e → IsConsistent c → IsConsistent (handle c e)
  unfolding handle
  handle-IsConsistent c (write t target i v) d h = apply_at-IsConsistent c target i v d h
  handle-IsConsistent c (replicate t target i v) d h = apply_at-IsConsistent c target i v d h
  handle-IsConsistent c (read t leader) d h = record {
    at_leader = h.at_leader;
    at_follower = h.at_follower;
    at_reads = All-append _ c.reads _ h.at_reads (h.at_leader.current, tt);
  }
  handle-IsConsistent c (read t follower) d h = record {
    at_leader = h.at_leader;
    at_follower = h.at_follower;
    at_reads = All-append _ c.reads _ h.at_reads (h.at_follower.current, tt);
  }

  -- messages of one log leave the replicas and the reads with values of its prefixes
  pub run-IsConsistent :
      (c : Cluster) (events : List Event)
      → All FromLog events
      → IsConsistent c
      → IsConsistent (run c events)
  unfolding run
  run-IsConsistent c [] d h = h
  run-IsConsistent c (e ∷ events) d h =
      run-IsConsistent (handle c e) events d.1 (handle-IsConsistent c e d.0 h)

-- the whole log from index `i + 1` on, to the follower, in order
pub redeliver : ℕ → List ℤ → List Event
redeliver i [] = []
redeliver i (v ∷ log) = replicate i follower (suc i) v ∷ redeliver (suc i) log

redeliver-applied :
    (c : Cluster) (i : ℕ) (log : List ℤ)
    → i ≤ c.follower.applied_index
    → c.follower.applied_index ≤ i + length log
    → (run c (redeliver i log)).follower.applied_index ≡ i + length log
unfolding run redeliver
redeliver-applied c i [] a b = omega arith
redeliver-applied c i (v ∷ log) a b =
    ground (arith, redeliver-applied (apply_at c follower (suc i) v) (suc i) log)

redeliver-FromLog :
    (initial : ℤ) (log rest : List ℤ) (i : ℕ)
    → ((j : ℕ) → get_elem? log (i + j) ≡ get_elem? rest j)
    → All (FromLog initial log) (redeliver i rest)
unfolding redeliver
redeliver-FromLog initial log [] i h = tt
redeliver-FromLog initial log (v ∷ rest) i h = (
  rw add-zero at (h 0),
  redeliver-FromLog initial log rest (suc i) (λ j.
      let shift : i + suc j ≡ suc i + j = omega arith in
      subst (λ n. get_elem? log n ≡ get_elem? rest j) shift (h (suc j))),
)

-- From any state that messages of the log can have left, one delivery of the whole log in order
-- brings the follower to its end, whatever part of it had arrived before.
pub redeliver_converges :
    (initial : ℤ) (log : List ℤ) (c : Cluster)
    → IsConsistent initial log c
    → ((run c (redeliver 0 log)).follower.applied_index ≡ length log)
      × ((run c (redeliver 0 log)).follower.value ≡ value_at initial log (length log))
redeliver_converges initial log c h =
    let all_applied : (run c (redeliver 0 log)).follower.applied_index ≡ length log =
      omega (arith, redeliver-applied c 0 log, h.at_follower.bounded) in
    let from_log = redeliver-FromLog initial log log 0 (λ j. rw zero-add) in
    let final = run-IsConsistent initial log c (redeliver 0 log) from_log h in
    (all_applied, final.at_follower.current ∙ ap (value_at initial log) all_applied)
