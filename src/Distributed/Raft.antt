-- ===== src/Distributed/Raft.antt =====
-- learning/distributed-systems/examples/raft_commit_model.py: the commit index of a Raft leader.
pub mod Quorum
pub mod Voters
use netai_devsecops_runbook.Prelude.{
  Dict, ℕ, suc, ◌+◌, ◌/◌, String, List, [], ◌∷◌, ◌++◌, Bool, ◌&&◌, nat_beq, leb, length, map, any,
  count, filter, sorted_set_down, if◌then◌else◌,
}

pub record Entry : Type 0 where
  pub index : ℕ
  pub term : ℕ
  pub command : String

-- the logs by the names of their nodes
abbrev pub Logs : Type 0
Logs = Dict String (List Entry)

unfoldable pub majority : Logs → ℕ
majority logs = length logs / 2 + 1

-- `any(e.index == index and e.term == current_term for e in log)`
abbrev pub stores : ℕ → ℕ → List Entry → Bool
stores current_term index log = any (λ e. nat_beq e.index index && nat_beq e.term current_term) log

unfoldable pub copies : Logs → ℕ → ℕ → ℕ
copies logs current_term index = count (λ node. stores current_term index node.1) logs

indices : Logs → List ℕ
indices [] = []
indices ((name, log) ∷ logs) = map (λ e. e.index) log ++ indices logs

-- the `for` over the candidates
first_majority : Logs → ℕ → List ℕ → ℕ
first_majority logs current_term [] = 0
first_majority logs current_term (index ∷ candidates) =
    if leb (majority logs) (copies logs current_term index)
    then index
    else first_majority logs current_term candidates

unfoldable pub committed_index : Logs → ℕ → ℕ
unfolding indices first_majority majority copies
committed_index logs current_term =
    first_majority logs current_term (sorted_set_down (indices logs))

unfoldable pub committed_prefix : List Entry → ℕ → List Entry
committed_prefix log commit_index = filter (λ e. leb e.index commit_index) log
