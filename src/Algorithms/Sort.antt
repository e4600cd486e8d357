-- ===== src/Algorithms/Sort.antt =====
-- learning/algorithms/examples/search_sort_lab.py: `stable_merge` and `merge_sort`, of records
-- whose first component is a numeric key.
pub mod Stability
pub mod Order
use netai_devsecops_runbook.Prelude.{
  leb, if◌then◌else◌, length, take, drop, ℕ, zero, suc, ◌+◌, ◌/◌, Option, none, some, List, [], ◌∷◌,
}

module _ {ℓ} {A : Type ℓ} where
  -- The loop, with `left[i:]` and `right[j:]`; where one of them is at its end, what is left of the
  -- other is the tail. The fuel is the number of records.
  unfoldable pub merge_loop : ℕ → List (ℕ × A) → List (ℕ × A) → List (ℕ × A)
  merge_loop fuel [] right = right
  merge_loop fuel (x ∷ left) [] = x ∷ left
  merge_loop zero (x ∷ left) (y ∷ right) = []
  merge_loop (suc fuel) (x ∷ left) (y ∷ right) =
      let from_left = merge_loop fuel left (y ∷ right) in
      let from_right = merge_loop fuel (x ∷ left) right in
      if leb x.0 y.0 then x ∷ from_left else y ∷ from_right

  unfoldable pub stable_merge : List (ℕ × A) → List (ℕ × A) → List (ℕ × A)
  unfolding merge_loop
  stable_merge left right = merge_loop (length left + length right) left right

  merged : Option (List (ℕ × A)) → Option (List (ℕ × A)) → Option (List (ℕ × A))
  unfolding stable_merge
  merged (some left) (some right) = some (stable_merge left right)
  merged (some left) none = none
  merged none right = none

  -- `none` means that the fuel ran out
  sort_loop : ℕ → List (ℕ × A) → Option (List (ℕ × A))
  unfolding merged
  sort_loop zero records = none
  sort_loop (suc fuel) records =
      let mid = length records / 2 in
      let left = sort_loop fuel (take mid records) in
      let right = sort_loop fuel (drop mid records) in
      if leb (length records) 1 then some records else merged left right

  unfoldable pub merge_sort : List (ℕ × A) → Option (List (ℕ × A))
  unfolding sort_loop
  merge_sort records = sort_loop (length records + 1) records
