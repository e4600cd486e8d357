-- ===== src/Databases/JoinCost.antt =====
-- learning/databases-query-engines/examples/join_cost_model.py: the integer estimates of a join.
-- `hash_batches` goes through a float quotient and is left out.
use netai_devsecops_runbook.Prelude.{ℕ, ◌+◌, ◌*◌}

pub record JoinEstimate : Type 0 where
  pub outer_rows : ℕ
  pub inner_rows : ℕ
  pub build_row_bytes : ℕ
  pub memory_bytes : ℕ

abbrev pub nested_loop_comparisons : JoinEstimate → ℕ
nested_loop_comparisons j = j.outer_rows * j.inner_rows

abbrev pub hash_key_operations : JoinEstimate → ℕ
hash_key_operations j = j.outer_rows + j.inner_rows

abbrev pub hash_bytes : JoinEstimate → ℕ
hash_bytes j = j.inner_rows * j.build_row_bytes
