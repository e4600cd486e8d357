-- ===== src/Algorithms/Tests.antt =====
-- The algorithms on the inputs of their scripts.
use netai_devsecops_runbook.Prelude.{
  get_elem?, All, Dict, ℕ, zero, suc, ◌≤◌, String, ◌≡◌, refl, some, List, [], ◌∷◌, arith,
  string_key, ℤ, Bool, false, pos, ok, length, get_or,
}
use netai_devsecops_runbook.Algorithms.Search.{binary_search, turn_at}
use netai_devsecops_runbook.Algorithms.Search.Found.{IsAscending, IsAnswer, binary_search-IsAnswer}
use netai_devsecops_runbook.Algorithms.Sort.{merge_sort}
use netai_devsecops_runbook.Algorithms.Sort.Stability.{IsSorting, merge_sort-IsSorting}
use netai_devsecops_runbook.Algorithms.Traversal.Reachability.{IsVisit}
use netai_devsecops_runbook.Algorithms.Traversal.BreadthFirst.{bfs-IsVisit}
use netai_devsecops_runbook.Algorithms.Traversal.DepthFirst.{dfs-IsVisit}
use netai_devsecops_runbook.Algorithms.Traversal.{finished, bfs, dfs}
use netai_devsecops_runbook.Algorithms.ShortestPath.{dijkstra}
use netai_devsecops_runbook.Algorithms.Tables.Coins.{IsOptimal, min_coin_table-IsOptimal}
use netai_devsecops_runbook.Algorithms.Tables.Knapsack.{IsBestChoice, knapsack_01-IsBestChoice}
use netai_devsecops_runbook.Algorithms.Tables.{min_coin_table, greedy_coin_count, knapsack_01}

abbrev keys : List ℕ
keys = 3 ∷ 8 ∷ 12 ∷ 20 ∷ 31 ∷ 44 ∷ 57 ∷ 91 ∷ []

search_44 : binary_search keys 44 ≡ some (some 5, turn_at 0 3 7 ∷ turn_at 4 5 7 ∷ [])
unfolding binary_search
search_44 = refl

-- ascending by neighbors is ascending by positions
abbrev IsChain : List ℕ → Type 0
IsChain [] = Unit
IsChain (x ∷ xs) = All (λ y. x ≤ y) xs × IsChain xs

All-get_elem? :
    (a : ℕ) (xs : List ℕ) (j b : ℕ) → All (λ y. a ≤ y) xs → get_elem? xs j ≡ some b → a ≤ b
All-get_elem? a [] j b h e = absurd (ground arith)
All-get_elem? a (x ∷ xs) zero b (h, hs) e = ground arith
All-get_elem? a (x ∷ xs) (suc j) b (h, hs) e = All-get_elem? a xs j b hs e

IsChain-IsAscending : (xs : List ℕ) → IsChain xs → IsAscending xs
IsChain-IsAscending [] h i j a b le ea eb = absurd (ground arith)
IsChain-IsAscending (x ∷ xs) h zero zero a b le ea eb = ground arith
IsChain-IsAscending (x ∷ xs) h zero (suc j) a b le ea eb =
    ground (arith, All-get_elem? x xs j b h.0 eb)
IsChain-IsAscending (x ∷ xs) h (suc i) zero a b le ea eb = absurd (omega arith)
IsChain-IsAscending (x ∷ xs) h (suc i) (suc j) a b le ea eb =
    IsChain-IsAscending xs h.1 i j a b (omega arith) ea eb

abbrev few : List ℕ
few = 3 ∷ 8 ∷ 12 ∷ []

few-IsAscending : IsAscending few
few-IsAscending =
    IsChain-IsAscending few ((omega arith, (omega arith, tt)), ((omega arith, tt), (tt, tt)))

binary_search-IsAnswer_example : IsAnswer few 8 0 3 4 (binary_search few 8)
binary_search-IsAnswer_example = binary_search-IsAnswer few 8 few-IsAscending

abbrev records : List (ℕ × String)
records = (2, "a") ∷ (1, "b") ∷ (2, "c") ∷ (1, "d") ∷ []

sorted_records : merge_sort records ≡ some ((1, "b") ∷ (1, "d") ∷ (2, "a") ∷ (2, "c") ∷ [])
unfolding merge_sort
sorted_records = refl

merge_sort-IsSorting_example :
    (sorted : List (ℕ × String)) × (merge_sort records ≡ some sorted) × IsSorting records sorted
merge_sort-IsSorting_example = merge_sort-IsSorting records

abbrev graph : Dict String (List String)
graph = ("A", "B" ∷ "C" ∷ []) ∷ ("B", "D" ∷ []) ∷ ("C", "D" ∷ []) ∷ ("D", []) ∷ []

bfs_order : bfs 9 graph "A" ≡ finished ("A" ∷ "B" ∷ "C" ∷ "D" ∷ [])
unfolding bfs
bfs_order = refl

dfs_order : dfs 9 graph "A" ≡ finished ("A" ∷ "B" ∷ "D" ∷ "C" ∷ [])
unfolding dfs
dfs_order = refl

coins_6 : min_coin_table 6 (1 ∷ 3 ∷ 4 ∷ []) ≡ 0 ∷ 1 ∷ 2 ∷ 1 ∷ 1 ∷ 2 ∷ 2 ∷ []
unfolding min_coin_table
coins_6 = refl

greedy_6 : greedy_coin_count 6 (1 ∷ 3 ∷ 4 ∷ []) ≡ some 3
unfolding greedy_coin_count
greedy_6 = refl

knapsack_5 : knapsack_01 5 ((2, 3) ∷ (3, 4) ∷ (4, 5) ∷ []) ≡ 7
unfolding knapsack_01
knapsack_5 = refl

abbrev weighted : Dict String (List (String × ℤ))
weighted =
    ("A", ("B", pos 4) ∷ ("C", pos 1) ∷ [])
    ∷ ("B", ("D", pos 1) ∷ [])
    ∷ ("C", ("B", pos 2) ∷ ("D", pos 5) ∷ [])
    ∷ ("D", [])
    ∷ []

-- no two entries of the heap have one distance here
abbrev never : String → String → Bool
never a b = false

distances :
    dijkstra 9 never weighted "A"
    ≡ ok (("A", some 0) ∷ ("B", some 3) ∷ ("C", some 1) ∷ ("D", some 4) ∷ [])
unfolding dijkstra
distances = refl

min_coin_table-IsOptimal_example :
    (length (min_coin_table 6 (1 ∷ 3 ∷ 4 ∷ [])) ≡ 7)
    × ((v : ℕ)
        → v ≤ 6
        → IsOptimal 6 (1 ∷ 3 ∷ 4 ∷ []) v (get_or (min_coin_table 6 (1 ∷ 3 ∷ 4 ∷ [])) v 0))
min_coin_table-IsOptimal_example = min_coin_table-IsOptimal 6 (1 ∷ 3 ∷ 4 ∷ [])

knapsack_01-IsBestChoice_example :
    IsBestChoice 5 ((2, 3) ∷ (3, 4) ∷ (4, 5) ∷ []) (knapsack_01 5 ((2, 3) ∷ (3, 4) ∷ (4, 5) ∷ []))
knapsack_01-IsBestChoice_example = knapsack_01-IsBestChoice 5 ((2, 3) ∷ (3, 4) ∷ (4, 5) ∷ [])

bfs-IsVisit_example : IsVisit graph "A" (bfs 9 graph "A")
bfs-IsVisit_example = bfs-IsVisit graph "A" 9 (omega arith)

dfs-IsVisit_example : IsVisit graph "A" (dfs 9 graph "A")
dfs-IsVisit_example = dfs-IsVisit graph "A" 9 (omega arith)
