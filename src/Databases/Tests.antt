-- ===== src/Databases/Tests.antt =====
-- Runs of the database models on the inputs of their scripts, and their theorems at such inputs.
use netai_devsecops_runbook.Prelude.{ℕ, ◌≡◌, refl, ◌⊎◌, false, none, List, [], ◌∷◌, pos}
use netai_devsecops_runbook.Databases.Wal.{Page, WalRecord, recover}
use netai_devsecops_runbook.Databases.Wal.Recovery.{Some, Wrote, recover-is_redo}
use netai_devsecops_runbook.Databases.Mvcc.{Snapshot, visible, visible_values}
use netai_devsecops_runbook.Databases.Mvcc.Chain.{Write, version_chain, one_visible_version}

abbrev disk_page : Page
disk_page = record { value = pos 50; page_lsn = 10 }

abbrev wal : List WalRecord
wal =
    record { txid = 2; lsn = 12; value = pos 70 }
    ∷ record { txid = 1; lsn = 11; value = pos 60 }
    ∷ []

recover-wal : recover disk_page wal (1 ∷ []) ≡ record { value = pos 60; page_lsn = 11 }
unfolding recover
recover-wal = refl

recover-is_redo_example :
    (recover disk_page wal (1 ∷ []) ≡ disk_page)
    ⊎ Some (Wrote (1 ∷ []) disk_page (recover disk_page wal (1 ∷ []))) wal
recover-is_redo_example = recover-is_redo disk_page wal (1 ∷ [])

abbrev new_snapshot : Snapshot
new_snapshot = record { committed = 10 ∷ 30 ∷ []; self_xid = 40 }

aborted_version :
    visible (record { value = pos 999; creator = 50; ended = none }) new_snapshot ≡ false
unfolding visible
aborted_version = refl

abbrev row_write : ℕ → ℕ → Write
row_write xid value = record { xid = xid; value = pos value }

one_visible_version_example :
    visible_values
      (version_chain (row_write 10 100 ∷ row_write 30 80 ∷ row_write 50 9 ∷ []))
      new_snapshot
    ≡ pos 80 ∷ []
unfolding visible
one_visible_version_example =
    one_visible_version new_snapshot (row_write 10 100 ∷ []) (row_write 30 80) (row_write 50 9 ∷ [])
      (refl, tt) refl (refl, tt)
