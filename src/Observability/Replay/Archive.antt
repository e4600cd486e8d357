-- ===== src/Observability/Replay/Archive.antt =====
-- replay_demo.py: the archive and its offsets.
use netai_devsecops_runbook.Prelude.{
  length, take, ℕ, suc, ◌+◌, ◌≤◌, ◌≡◌, refl, ap, List, [], ◌∷◌, ◌++◌, arith, drop, length-append,
  take-append_le, take_all, ◌∙◌, length-take, length-drop, take-append-drop, sym, subst, append-nil,
  append_assoc, add-zero,
}
use netai_devsecops_runbook.Observability.Validate.{Event}
use netai_devsecops_runbook.Observability.Replay.{ArchiveStore, drain_archive, second}

-- `list(enumerate(source))`, from an offset on
abbrev pub indexed : ℕ → List Event → List (ℕ × Event)
indexed i [] = []
indexed i (e ∷ es) = (i, e) ∷ indexed (suc i) es

pub indexed-append :
    (i : ℕ) (es fs : List Event) → indexed i (es ++ fs) ≡ indexed i es ++ indexed (i + length es) fs
indexed-append i [] fs = rw add-zero
indexed-append i (e ∷ es) fs =
    let shift : suc i + length es ≡ i + suc (length es) = omega arith in
    ap (◌∷◌ (i, e)) (rw (indexed-append (suc i) es fs, shift))

pub second-indexed : (i : ℕ) (es : List Event) → second (indexed i es) ≡ es
second-indexed i [] = refl
second-indexed i (e ∷ es) = ap (◌∷◌ e) (second-indexed (suc i) es)

-- the archive holds the source up to its cursor
pub record IsArchive (source : List Event) (a : ArchiveStore) : Type 0 where
  pub in_order : a.records ≡ indexed 0 (take a.cursor source)
  pub bounded : a.cursor ≤ length source

drain_archive-records :
    (a : ArchiveStore) (es : List Event)
    → drain_archive a es
      ≡ record { records = a.records ++ indexed a.cursor es; cursor = a.cursor + length es }
unfolding drain_archive
drain_archive-records a [] = rw (append-nil, add-zero)
drain_archive-records a (e ∷ es) =
    let after : ArchiveStore = record {
      records = a.records ++ (a.cursor, e) ∷ [];
      cursor = a.cursor + 1;
    } in
    let next : a.cursor + 1 ≡ suc a.cursor = omega arith in
    let total : suc a.cursor + length es ≡ a.cursor + suc (length es) = omega arith in
    drain_archive-records after es ∙ rw (append_assoc, next, total)

pub IsArchive-append :
    (source : List Event) (row : Event) (a : ArchiveStore)
    → IsArchive source a
    → IsArchive (source ++ row ∷ []) a
IsArchive-append source row a h = record {
  in_order = h.in_order ∙ rw (take-append_le a.cursor source (row ∷ []) h.bounded);
  bounded = omega (arith, h.bounded, length-append source (row ∷ []));
}

-- the archive that has caught up with the source
abbrev pub caught_up : List Event → ArchiveStore
caught_up source = record { records = indexed 0 source; cursor = length source }

pub drain_archive-caught_up :
    (source : List Event) (a : ArchiveStore)
    → IsArchive source a
    → drain_archive a (drop a.cursor source) ≡ caught_up source
drain_archive-caught_up source a h =
    let c = a.cursor in
    let len : 0 + length (take c source) ≡ c = omega (arith, length-take c source, h.bounded) in
    let end : c + length (drop c source) ≡ length source =
      omega (arith, length-drop c source, h.bounded) in
    let whole : indexed 0 (take c source) ++ indexed c (drop c source) ≡ indexed 0 source =
      subst (λ n. indexed 0 (take c source) ++ indexed n (drop c source) ≡ indexed 0 source) len
        (sym (indexed-append 0 (take c source) (drop c source))
          ∙ ap (indexed 0) (take-append-drop c source)) in
    drain_archive-records a (drop c source) ∙ λ i. record {
      records = (ap (λ r. r ++ indexed c (drop c source)) h.in_order ∙ whole) i;
      cursor = end i;
    }

pub IsArchive-caught_up : (source : List Event) → IsArchive source (caught_up source)
IsArchive-caught_up source = record {
  in_order = rw (take_all (length source) source (omega arith));
  bounded = omega arith;
}
