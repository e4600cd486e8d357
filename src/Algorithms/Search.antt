-- ===== src/Algorithms/Search.antt =====
-- learning/algorithms/examples/search_sort_lab.py: `binary_search` with its trace.
pub mod Found
use netai_devsecops_runbook.Prelude.{
  ltb, nat_beq, if◌then◌else◌, length, get_elem?, ℕ, zero, suc, ◌+◌, ◌-◌, ◌/◌, Option, none, some,
  List, [], ◌∷◌,
}

-- one turn of the loop: `(lo, mid, hi)`; `hi` is -1 only where the loop does not run
pub record Turn : Type 0 where
  pub lo : ℕ
  pub mid : ℕ
  pub hi : ℕ

abbrev pub turn_at : ℕ → ℕ → ℕ → Turn
turn_at lo mid hi = record { lo = lo; mid = mid; hi = hi }

-- `trace.append` before the rest of the loop
abbrev pub traced : Turn → Option (Option ℕ × List Turn) → Option (Option ℕ × List Turn)
traced turn none = none
traced turn (some (found, trace)) = some (found, turn ∷ trace)

-- The loop with `above` = hi + 1, so that the bounds are natural numbers: `lo <= hi` is
-- `lo < above`. `none` means that the fuel ran out, or that `keys[mid]` is out of range.
unfoldable pub search_loop : ℕ → List ℕ → ℕ → ℕ → ℕ → Option (Option ℕ × List Turn)
search_loop zero keys target lo above = none
search_loop (suc fuel) keys target lo above =
    let mid = (lo + (above - 1)) / 2 in
    let turn = turn_at lo mid (above - 1) in
    let right = search_loop fuel keys target (mid + 1) above in
    let left = search_loop fuel keys target lo mid in
    if ltb lo above
    then elim (get_elem? keys mid) [
      | none ↦ none
      | some key ↦
          if nat_beq key target
          then some (some mid, turn ∷ [])
          else traced turn (if ltb key target then right else left)
    ]
    else some (none, [])

unfoldable pub binary_search : List ℕ → ℕ → Option (Option ℕ × List Turn)
unfolding search_loop
binary_search keys target = search_loop (length keys + 1) keys target 0 (length keys)
