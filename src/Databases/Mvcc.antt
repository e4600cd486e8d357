-- ===== src/Databases/Mvcc.antt =====
-- learning/databases-query-engines/examples/mvcc_model.py: which versions a snapshot sees.
pub mod Chain
use netai_devsecops_runbook.Prelude.{
  ℕ, ℤ, List, Bool, false, true, not, ◌||◌, Option, none, some, contains, nat_beq, nat_key, map,
  filter, if◌then◌else◌,
}

pub record Snapshot : Type 0 where
  pub committed : List ℕ
  pub self_xid : ℕ

pub record Version : Type 0 where
  pub value : ℤ
  pub creator : ℕ
  pub ended : Option ℕ

-- the test that both halves of `visible` make on a transaction
pub sees : Snapshot → ℕ → Bool
sees snapshot xid = nat_beq xid snapshot.self_xid || contains xid snapshot.committed

unfoldable pub visible : Version → Snapshot → Bool
unfolding sees
visible version snapshot =
    if not (sees snapshot version.creator)
    then false
    else elim version.ended [ none ↦ true | some xid ↦ not (sees snapshot xid) ]

-- `[v.value for v in versions if visible(v, snapshot)]`
unfoldable pub visible_values : List Version → Snapshot → List ℤ
unfolding visible
visible_values versions snapshot = map (λ v. v.value) (filter (λ v. visible v snapshot) versions)
