-- ===== src/Databases/Wal.antt =====
-- learning/databases-query-engines/examples/wal_recovery_model.py: redo of one page.
pub mod Recovery
use netai_devsecops_runbook.Prelude.{
  ℕ, ℤ, List, [], ◌∷◌, ◌&&◌, contains, nat_key, ltb, sorted_by, if◌then◌else◌,
}

pub record Page : Type 0 where
  pub value : ℤ
  pub page_lsn : ℕ

pub record WalRecord : Type 0 where
  pub txid : ℕ
  pub lsn : ℕ
  pub value : ℤ

-- the body of the loop
redo : List ℕ → Page → WalRecord → Page
redo committed result r =
    if contains r.txid committed && ltb result.page_lsn r.lsn
    then record { value = r.value; page_lsn = r.lsn }
    else result

redo_all : List ℕ → Page → List WalRecord → Page
redo_all committed result [] = result
redo_all committed result (r ∷ rs) = redo_all committed (redo committed result r) rs

unfoldable pub recover : Page → List WalRecord → List ℕ → Page
unfolding redo redo_all
recover page records committed = redo_all committed page (sorted_by (λ r. r.lsn) records)
