-- ===== src/Distributed/Dedup.antt =====
-- learning/distributed-systems/examples/retry_dedup_model.py: debits under a request ID.
pub mod Retry
use netai_devsecops_runbook.Prelude.{
  ℕ, ℤ, ◌+◌, ◌-ℤ◌, String, List, [], ◌∷◌, Option, none, some, Dict, lookup, insert, string_key,
  ltb_ℤ, if◌then◌else◌,
}

pub record AccountService : Type 0 where
  pub balance : ℤ
  pub executions : ℕ
  pub results : Dict String ℤ

unfoldable pub new_service : AccountService
new_service = record { balance = ℤ.pos 1_000; executions = 0; results = [] }

-- a debit that is not a retry; `none` is the ValueError
execute_debit : AccountService → String → ℤ → Option ℤ × AccountService
execute_debit s request_id amount = if ltb_ℤ s.balance amount then (none, s) else (
  some (s.balance -ℤ amount),
  record {
    balance = s.balance -ℤ amount;
    executions = s.executions + 1;
    results = insert request_id (s.balance -ℤ amount) s.results;
  },
)

unfoldable pub debit : AccountService → String → ℤ → Option ℤ × AccountService
unfolding execute_debit
debit s request_id amount = elim (lookup request_id s.results) [
  | some result ↦ (some result, s)
  | none ↦ execute_debit s request_id amount
]

pub record Debit : Type 0 where
  pub request_id : String
  pub amount : ℤ

-- calls one after the other, whose callers handle the ValueError
unfoldable pub serve : AccountService → List Debit → AccountService
unfolding debit
serve s [] = s
serve s (d ∷ ds) = serve (debit s d.request_id d.amount).1 ds
