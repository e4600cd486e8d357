-- ===== src/Databases/Mvcc/Chain.antt =====
-- A chain of updates of one row, as the versions of the MVCC model.
use netai_devsecops_runbook.Prelude.{
  ℕ, ℤ, ◌≡◌, refl, true, false, Option, none, some, List, [], ◌∷◌, ◌++◌, arith, All,
}
use netai_devsecops_runbook.Databases.Mvcc.{Snapshot, Version, sees, visible_values}

-- one write: the transaction and the value that it wrote
pub record Write : Type 0 where
  pub xid : ℕ
  pub value : ℤ

abbrev first_xid : List Write → Option ℕ
first_xid [] = none
first_xid (w ∷ ws) = some w.xid

-- the versions that successive writes leave: each ends the one before it
unfoldable pub version_chain : List Write → List Version
version_chain [] = []
version_chain (w ∷ ws) =
    record { value = w.value; creator = w.xid; ended = first_xid ws } ∷ version_chain ws

abbrev Unseen : Snapshot → List Write → Type 0
Unseen snapshot ws = All (λ w. sees snapshot w.xid ≡ false) ws

abbrev Seen : Snapshot → List Write → Type 0
Seen snapshot ws = All (λ w. sees snapshot w.xid ≡ true) ws

invisible_values :
    (snapshot : Snapshot) (ws : List Write)
    → Unseen snapshot ws
    → visible_values (version_chain ws) snapshot ≡ []
unfolding visible_values version_chain
invisible_values snapshot [] h = refl
invisible_values snapshot (w ∷ ws) h = ground (arith, invisible_values snapshot ws h.1)

-- Of a chain whose older writes the snapshot sees and whose newer writes it does not see, the
-- value of the last write that is seen is visible, and no other.
pub one_visible_version :
    (snapshot : Snapshot) (older : List Write) (last : Write) (newer : List Write)
    → Seen snapshot older
    → sees snapshot last.xid ≡ true
    → Unseen snapshot newer
    → visible_values (version_chain (older ++ last ∷ newer)) snapshot ≡ last.value ∷ []
unfolding visible_values version_chain
one_visible_version snapshot [] last [] o l n = ground arith
one_visible_version snapshot [] last (w ∷ newer) o l n =
    ground (arith, invisible_values snapshot (w ∷ newer) n)
one_visible_version snapshot (w ∷ []) last newer o l n =
    ground (arith, one_visible_version snapshot [] last newer tt l n)
one_visible_version snapshot (w ∷ v ∷ older) last newer o l n =
    ground (arith, one_visible_version snapshot (v ∷ older) last newer o.1 l n)
