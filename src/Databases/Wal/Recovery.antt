-- ===== src/Databases/Wal/Recovery.antt =====
-- wal_recovery_model.py: redo recovery, and recovery after a crash on the way.
use netai_devsecops_runbook.Prelude.{
  ℕ, ◌≤◌, ◌<◌, ◌≡◌, refl, ◌∙◌, ◌⊎◌, inl, inr, true, List, [], ◌∷◌, arith, contains, nat_key, take,
  leb, insert_by, sorted_by, Bool-cases,
}
use netai_devsecops_runbook.Databases.Wal.{Page, WalRecord, redo, redo_all, recover}

-- some record of the list satisfies `P`
abbrev pub Some : (WalRecord → Type 0) → List WalRecord → Type 0
Some P [] = ⊥
Some P (r ∷ rs) = P r ⊎ Some P rs

module _ (committed : List ℕ) where
  -- the page is at least as new as the record, if the record's transaction committed
  abbrev pub Covers : Page → WalRecord → Type 0
  Covers page r = contains r.txid committed ≡ true → r.lsn ≤ page.page_lsn

  -- `result` is what the committed record `r` writes, and `r` is newer than `page`
  abbrev pub Wrote : Page → Page → WalRecord → Type 0
  Wrote page result r =
      (contains r.txid committed ≡ true)
      × (page.page_lsn < r.lsn)
      × (result ≡ record { value = r.value; page_lsn = r.lsn })

  redo-le : (page : Page) (r : WalRecord) → page.page_lsn ≤ (redo committed page r).page_lsn
  unfolding redo
  redo-le page r = ground arith

  -- a write over a page that is at least as new is a write over the older page
  Some-Wrote-le :
      (page later result : Page) (rs : List WalRecord)
      → page.page_lsn ≤ later.page_lsn
      → Some (Wrote later result) rs
      → Some (Wrote page result) rs
  Some-Wrote-le page later result [] le h = absurd h
  Some-Wrote-le page later result (r ∷ rs) le h = elim h [
    | inl w ↦ inl (w.0, omega (arith, w.1), w.2)
    | inr s ↦ inr (Some-Wrote-le page later result rs le s)
  ]

  redo_cases :
      (page : Page) (r : WalRecord)
      → (redo committed page r ≡ page) ⊎ Wrote page (redo committed page r) r
  unfolding redo
  redo_cases page r = ground arith

  redo_all_cases :
      (page : Page) (rs : List WalRecord)
      → (redo_all committed page rs ≡ page) ⊎ Some (Wrote page (redo_all committed page rs)) rs
  unfolding redo_all
  redo_all_cases page [] = inl refl
  redo_all_cases page (r ∷ rs) =
      let next = redo committed page r in
      elim (redo_all_cases next rs) [
        | inr later ↦
            inr
              (inr (Some-Wrote-le page next (redo_all committed next rs) rs (redo-le page r) later))
        | inl same ↦ elim (redo_cases page r) [
          | inl kept ↦ inl (same ∙ kept)
          | inr wrote ↦ inr (inl (wrote.0, wrote.1, same ∙ wrote.2))
        ]
      ]

  Some-insert :
      (P : WalRecord → Type 0) (r : WalRecord) (rs : List WalRecord)
      → Some P (insert_by (λ x. x.lsn) r rs)
      → P r ⊎ Some P rs
  Some-insert P r [] h = h
  Some-insert P r (s ∷ rs) h = elim (Bool-cases (leb r.lsn s.lsn)) [
    | inl le ↦ rw le at h
    | inr gt ↦
        let h' : P s ⊎ Some P (insert_by (λ x. x.lsn) r rs) = rw gt at h in
        elim h' [
          | inl here ↦ inr (inl here)
          | inr there ↦ elim (Some-insert P r rs there) [ inl p ↦ inl p | inr q ↦ inr (inr q) ]
        ]
  ]

  Some-sorted :
      (P : WalRecord → Type 0) (rs : List WalRecord)
      → Some P (sorted_by (λ x. x.lsn) rs)
      → Some P rs
  Some-sorted P [] h = h
  Some-sorted P (r ∷ rs) h = elim (Some-insert P r (sorted_by (λ x. x.lsn) rs) h) [
    | inl p ↦ inl p
    | inr q ↦ inr (Some-sorted P rs q)
  ]

-- Whatever the order of the records, the recovered page is the page on disk or what a committed,
-- newer record of the log writes.
pub recover-is_redo :
    (page : Page) (records : List WalRecord) (committed : List ℕ)
    → (recover page records committed ≡ page)
      ⊎ Some (Wrote committed page (recover page records committed)) records
unfolding recover
recover-is_redo page records committed =
    elim (redo_all_cases committed page (sorted_by (λ r. r.lsn) records)) [
      | inl same ↦ inl same
      | inr wrote ↦ inr (Some-sorted committed _ records wrote)
    ]

-- the page on disk when a recovery is cut short after `n` records
pub crashed_after : ℕ → Page → List WalRecord → List ℕ → Page
crashed_after n page records committed =
    redo_all committed page (take n (sorted_by (λ r. r.lsn) records))
