-- ===== src/Distributed/Replication.antt =====
-- learning/distributed-systems/examples/replication_model.py: a leader, a follower, their events.
pub mod Convergence
pub mod Order
use netai_devsecops_runbook.Prelude.{ℕ, ℤ, ◌+◌, List, [], ◌∷◌, ◌++◌, Bool, nat_beq, if◌then◌else◌}

-- the name of a replica is left out: nothing reads it
pub record Replica : Type 0 where
  pub value : ℤ
  pub applied_index : ℕ

unfoldable pub apply : Replica → ℕ → ℤ → Replica
apply r index value =
    if nat_beq index (r.applied_index + 1)
    then record { value = value; applied_index = index }
    else r

-- `(tick, kind, replica, index, value)`, where a read has no index and no value
pub data Target : Type 0 where
  leader follower : Target

pub data Event : Type 0 where
  write : ℕ → Target → ℕ → ℤ → Event
  replicate : ℕ → Target → ℕ → ℤ → Event
  read : ℕ → Target → Event

pub record Read : Type 0 where
  pub tick : ℕ
  pub value : ℤ
  pub applied_index : ℕ

pub record Cluster : Type 0 where
  pub leader : Replica
  pub follower : Replica
  pub reads : List Read

abbrev pub replica_at : Cluster → Target → Replica
replica_at c leader = c.leader
replica_at c follower = c.follower

apply_at : Cluster → Target → ℕ → ℤ → Cluster
apply_at c leader index value = record c { leader = apply c.leader index value }
apply_at c follower index value = record c { follower = apply c.follower index value }

unfoldable pub handle : Cluster → Event → Cluster
unfolding apply apply_at
handle c (write tick target index value) = apply_at c target index value
handle c (replicate tick target index value) = apply_at c target index value
handle c (read tick target) =
    let r = replica_at c target in
    record c {
      reads =
          c.reads ++ record { tick = tick; value = r.value; applied_index = r.applied_index } ∷ [];
    }

unfoldable pub run : Cluster → List Event → Cluster
unfolding handle
run c [] = c
run c (e ∷ events) = run (handle c e) events

unfoldable pub start : Cluster
start = record {
  leader = record { value = ℤ.pos 1; applied_index = 0 };
  follower = record { value = ℤ.pos 1; applied_index = 0 };
  reads = [];
}
