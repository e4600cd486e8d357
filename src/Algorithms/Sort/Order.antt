-- ===== src/Algorithms/Sort/Order.antt =====
-- search_sort_lab.py: merging and sorting, and the order of keys.
use netai_devsecops_runbook.Prelude.{
  leb, leb→le, not_leb→lt, Bool-cases, All, All-map, ℕ, zero, suc, ◌≤◌, inl, inr, List, [], ◌∷◌,
  arith,
}
use netai_devsecops_runbook.Algorithms.Sort.{merge_loop}

module _ {ℓ} {A : Type ℓ} where
  -- the keys ascend
  abbrev pub IsOrdered : List (ℕ × A) → Type 0
  IsOrdered [] = Unit
  IsOrdered (x ∷ xs) = All (λ y. x.0 ≤ y.0) xs × IsOrdered xs

  All-merge_loop :
      (P : ℕ × A → Type 0) (fuel : ℕ) (left right : List (ℕ × A))
      → All P left
      → All P right
      → All P (merge_loop fuel left right)
  unfolding merge_loop
  All-merge_loop P fuel [] right l r = r
  All-merge_loop P fuel (x ∷ left) [] l r = l
  All-merge_loop P zero (x ∷ left) (y ∷ right) l r = tt
  All-merge_loop P (suc fuel) (x ∷ left) (y ∷ right) l r = elim (Bool-cases (leb x.0 y.0)) [
    | inl le ↦ rw (le, merge_loop) (l.0, All-merge_loop P fuel left (y ∷ right) l.1 r)
    | inr gt ↦ rw (gt, merge_loop) (r.0, All-merge_loop P fuel (x ∷ left) right l r.1)
  ]

  below :
      (a : ℕ) (y : ℕ × A) (right : List (ℕ × A))
      → a ≤ y.0
      → All (λ z. y.0 ≤ z.0) right
      → All (λ z. a ≤ z.0) (y ∷ right)
  below a y right h up = (h, All-map (λ z k. omega arith) right up)

  pub merge_loop-IsOrdered :
      (fuel : ℕ) (left right : List (ℕ × A))
      → IsOrdered left
      → IsOrdered right
      → IsOrdered (merge_loop fuel left right)
  unfolding merge_loop
  merge_loop-IsOrdered fuel [] right l r = r
  merge_loop-IsOrdered fuel (x ∷ left) [] l r = l
  merge_loop-IsOrdered zero (x ∷ left) (y ∷ right) l r = tt
  merge_loop-IsOrdered (suc fuel) (x ∷ left) (y ∷ right) l r = elim (Bool-cases (leb x.0 y.0)) [
    | inl le ↦
        rw (le, merge_loop)
          (
            All-merge_loop _ fuel left (y ∷ right) l.0 (below x.0 y right (leb→le _ _ le) r.0),
            merge_loop-IsOrdered fuel left (y ∷ right) l.1 r,
          )
    | inr gt ↦
        rw (gt, merge_loop)
          (
            All-merge_loop _ fuel (x ∷ left) right
                (below y.0 x left (omega (arith, not_leb→lt _ _ gt)) l.0) r.0,
            merge_loop-IsOrdered fuel (x ∷ left) right l r.1,
          )
  ]
