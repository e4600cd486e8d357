-- ===== src/Distributed/Replication/Order.antt =====
-- replication_model.py: which of the messages that arrive a replica applies.
use netai_devsecops_runbook.Prelude.{
  nat_beq, if◌then◌else◌, Bool-cases, ℤ, ℕ, suc, ◌+◌, ◌≤◌, ◌≡◌, refl, sym, subst, ◌∙◌, inl, inr,
  Bool, true, false, ◌&&◌, List, [], ◌∷◌, arith, All,
}
use netai_devsecops_runbook.Distributed.Replication.{
  apply, Target, leader, follower, Event, write, replicate, read, Cluster, run, handle, apply_at,
  replica_at,
}
use netai_devsecops_runbook.Distributed.Replication.Convergence.{
  FromLog, IsConsistent, run-IsConsistent,
}

abbrev is_same : Target → Target → Bool
is_same leader leader = true
is_same follower follower = true
is_same _ _ = false

-- the indices of the messages for a replica, in the order of their arrival
abbrev pub arrivals : Target → List Event → List ℕ
arrivals t [] = []
arrivals t (write tick target index v ∷ events) =
    let rest = arrivals t events in if is_same t target then index ∷ rest else rest
arrivals t (replicate tick target index v ∷ events) =
    let rest = arrivals t events in if is_same t target then index ∷ rest else rest
arrivals t (read tick target ∷ events) = arrivals t events

-- among the indices are those after `a` up to `m`, one after the other, perhaps with others between
pub data InOrder : ℕ → ℕ → List ℕ → Type 0 where
  done : {a : ℕ} {indices : List ℕ} → InOrder a a indices
  skip : {a m i : ℕ} {indices : List ℕ} → InOrder a m indices → InOrder a m (i ∷ indices)
  next : {a m : ℕ} {indices : List ℕ} → InOrder (suc a) m indices → InOrder a m (suc a ∷ indices)

advance : ℕ → List ℕ → ℕ
advance a [] = a
advance a (i ∷ indices) = advance (if nat_beq i (a + 1) then i else a) indices

advance-InOrder : (a : ℕ) (indices : List ℕ) → InOrder a (advance a indices) indices
unfolding advance
advance-InOrder a [] = done
advance-InOrder a (i ∷ indices) = elim (Bool-cases (nat_beq i (a + 1))) [
  | inl is_next ↦
      let i_is : i ≡ suc a = ground arith in
      rw is_next (
        subst (λ n. InOrder a (advance n indices) (n ∷ indices)) (sym i_is)
          (next (advance-InOrder (suc a) indices)))
  | inr other ↦ rw other (skip (advance-InOrder a indices))
]

le-advance : (a : ℕ) (indices : List ℕ) → a ≤ advance a indices
unfolding advance
le-advance a [] = omega arith
le-advance a (i ∷ indices) = ground (arith, le-advance (if nat_beq i (a + 1) then i else a) indices)

-- a replica that is further on loses nothing
InOrder-le :
    (b : ℕ) {a m : ℕ} {indices : List ℕ} → InOrder a m indices → a ≤ b → m ≤ advance b indices
unfolding advance
InOrder-le b {indices} done h = omega (arith, le-advance b indices)
InOrder-le b (skip {a} {m} {i} {indices} k) h =
    InOrder-le (if nat_beq i (b + 1) then i else b) k (ground arith)
InOrder-le b (next {a} {m} {indices} k) h =
    InOrder-le (if nat_beq (suc a) (b + 1) then suc a else b) k (ground arith)

applied : Target → Cluster → ℕ
applied t c = (replica_at c t).applied_index

apply_at-applied :
    (t target : Target) (c : Cluster) (i : ℕ) (v : ℤ)
    → applied t (apply_at c target i v)
      ≡ (if is_same t target && nat_beq i (applied t c + 1) then i else applied t c)
unfolding applied apply_at apply
apply_at-applied leader leader c i v = ground arith
apply_at-applied leader follower c i v = ground arith
apply_at-applied follower leader c i v = ground arith
apply_at-applied follower follower c i v = ground arith

read-applied :
    (t target : Target) (c : Cluster) (tick : ℕ)
    → applied t (handle c (read tick target)) ≡ applied t c
unfolding applied handle
read-applied leader target c tick = refl
read-applied follower target c tick = refl

run-applied :
    (t : Target) (c : Cluster) (events : List Event)
    → applied t (run c events) ≡ advance (applied t c) (arrivals t events)
unfolding run handle advance
run-applied t c [] = refl
run-applied t c (write tick target i v ∷ events) =
    ground (arith, run-applied t (apply_at c target i v) events, apply_at-applied t target c i v)
run-applied t c (replicate tick target i v ∷ events) =
    ground (arith, run-applied t (apply_at c target i v) events, apply_at-applied t target c i v)
run-applied t c (read tick target ∷ events) =
    run-applied t (handle c (read tick target)) events ∙ rw (read-applied t target c tick)

-- the replica has applied all of the messages that it could apply in order, and no other
pub record IsUpToDate (t : Target) (events : List Event) (c d : Cluster) : Type 0 where
  pub in_order :
      InOrder (replica_at c t).applied_index (replica_at d t).applied_index (arrivals t events)
  pub furthest :
      (m : ℕ)
      → InOrder (replica_at c t).applied_index m (arrivals t events)
      → m ≤ (replica_at d t).applied_index

run-IsUpToDate :
    (t : Target) (c : Cluster) (events : List Event) → IsUpToDate t events c (run c events)
unfolding applied
run-IsUpToDate t c events =
    let a = (replica_at c t).applied_index in
    record {
      in_order =
          subst (λ n. InOrder a n (arrivals t events)) (sym (run-applied t c events))
            (advance-InOrder a (arrivals t events));
      furthest = λ m k. omega (arith, run-applied t c events, InOrder-le a k);
    }

-- From replicas and reads that hold values of prefixes of one log, whatever messages of it arrive,
-- in whatever order and however often: the messages that arrive at a replica have among them, in
-- ascending order, all the indices from the one after its applied index before to its applied index
-- after, and no longer such run; it holds the value after that prefix of the log; and every read
-- returned an index with the value after the prefix of that length.
pub run-applies_in_order :
    (initial : ℤ) (log : List ℤ) (c : Cluster) (events : List Event)
    → All (FromLog initial log) events
    → IsConsistent initial log c
    → IsUpToDate leader events c (run c events)
      × IsUpToDate follower events c (run c events)
      × IsConsistent initial log (run c events)
run-applies_in_order initial log c events messages h = (
  run-IsUpToDate leader c events,
  run-IsUpToDate follower c events,
  run-IsConsistent initial log c events messages h,
)
