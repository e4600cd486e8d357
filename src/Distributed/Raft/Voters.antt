-- ===== src/Distributed/Raft/Voters.antt =====
-- raft_commit_model.py: the nodes that a set of voters names, and what they store.
use netai_devsecops_runbook.Prelude.{
  ℕ, ◌≤◌, ◌<◌, ◌≡◌, refl, inl, inr, List, [], ◌∷◌, Bool, Bool-cases, true, ◌&&◌, arith, count,
  lookup, string_key, String, none, some, Memᴰ, nat_beq,
}
use netai_devsecops_runbook.Distributed.Raft.{
  Entry, Logs, majority, stores, copies, committed_index,
}
use netai_devsecops_runbook.Distributed.Raft.Quorum.{
  count_overlap, majorities_overlap, committed_index-IsMajority,
}

-- as in any dict
abbrev pub HasUniqueNames : Logs → Type 0
HasUniqueNames [] = Unit
HasUniqueNames ((name, log) ∷ logs) = (lookup name logs ≡ none) × HasUniqueNames logs

-- the log has an entry of the index and the term
pub record HasEntry (index term : ℕ) (log : List Entry) : Type 0 where
  pub entry : Entry
  pub in_log : Memᴰ entry log
  pub at_index : entry.index ≡ index
  pub in_term : entry.term ≡ term

stores-HasEntry :
    (term index : ℕ) (log : List Entry) → stores term index log ≡ true → HasEntry index term log
stores-HasEntry term index [] h = absurd (ground arith)
stores-HasEntry term index (e ∷ log) h =
    elim (Bool-cases (nat_beq e.index index && nat_beq e.term term)) [
      | inl here ↦ record {
        entry = e;
        in_log = Memᴰ.head refl;
        at_index = ground arith;
        in_term = ground arith;
      }
      | inr not_here ↦
          let later = stores-HasEntry term index log (ground arith) in
          record {
            entry = later.entry;
            in_log = Memᴰ.tail later.in_log;
            at_index = later.at_index;
            in_term = later.in_term;
          }
    ]

-- a node of the logs whose name and log pass a test
pub record HasNode (test : String → List Entry → Bool) (logs : Logs) : Type 0 where
  pub name : String
  pub log : List Entry
  pub stored : lookup name logs ≡ some log
  pub passes : test name log ≡ true

count-HasNode :
    (test : String → List Entry → Bool) (logs : Logs)
    → HasUniqueNames logs
    → 0 < count (λ node. test node.0 node.1) logs
    → HasNode test logs
count-HasNode test [] u h = absurd (omega arith)
count-HasNode test ((name, log) ∷ logs) u h = elim (Bool-cases (test name log)) [
  | inl here ↦ record {
    name = name;
    log = log;
    stored = ground (arith, string_key.same_iff name name);
    passes = here;
  }
  | inr not_here ↦
      let later = count-HasNode test logs u.1 (ground arith) in
      record {
        name = later.name;
        log = later.log;
        stored = ground (arith, string_key.same_iff name later.name, later.stored, u.0);
        passes = later.passes;
      }
]

-- one of the voters, with its log, which has the entry
pub record HasVoter (voter : String → Bool) (index term : ℕ) (logs : Logs) : Type 0 where
  pub name : String
  pub log : List Entry
  pub votes : voter name ≡ true
  pub stored : lookup name logs ≡ some log
  pub has_entry : HasEntry index term log

copies-HasVoter :
    (voter : String → Bool) (index term : ℕ) (logs : Logs)
    → HasUniqueNames logs
    → majority logs ≤ copies logs term index
    → majority logs ≤ count (λ node. voter node.0) logs
    → HasVoter voter index term logs
unfolding copies
copies-HasVoter voter index term logs u m quorum =
    let node =
      count-HasNode (λ name log. stores term index log && voter name) logs u
        (omega (
          arith,
          majorities_overlap logs term,
          count_overlap (λ node. stores term index node.1) (λ node. voter node.0) logs,
        )) in
    record {
      name = node.name;
      log = node.log;
      votes = ground (arith, node.passes);
      stored = node.stored;
      has_entry = stores-HasEntry term index node.log (ground (arith, node.passes));
    }

-- Of the logs of nodes with distinct names, where the commit index is not 0: any set of names that
-- has a majority of the nodes, such as the voters of a later election, has a node whose log has an
-- entry of the current term at the commit index.
pub committed_index-in_every_majority :
    (voter : String → Bool) (logs : Logs) (term : ℕ)
    → HasUniqueNames logs
    → 0 < committed_index logs term
    → majority logs ≤ count (λ node. voter node.0) logs
    → HasVoter voter (committed_index logs term) term logs
committed_index-in_every_majority voter logs term u positive quorum =
    elim (committed_index-IsMajority logs term) [
      | inl zero_index ↦ absurd (omega arith)
      | inr m ↦ copies-HasVoter voter (committed_index logs term) term logs u m quorum
    ]
