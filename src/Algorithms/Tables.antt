-- ===== src/Algorithms/Tables.antt =====
-- learning/algorithms/examples/graph_dp_lab.py: the tables of `min_coin_table` and `knapsack_01`,
-- and `greedy_coin_count`.
pub mod Pays
pub mod Coins
pub mod Choices
pub mod Knapsack
use netai_devsecops_runbook.Prelude.{
  leb, nat_beq, if◌then◌else◌, get_or, set, replicate, count, ℕ, zero, suc, ◌+◌, ◌-◌, ◌/◌, ◌%◌, min,
  max, Option, none, some, List, [], ◌∷◌, ◌++◌, sorted_by,
}

-- the inner loop over the coins, for one `value`; a coin of 0 reads `dp[value]` itself
unfoldable pub best_coin : List ℕ → List ℕ → ℕ → ℕ → ℕ
best_coin dp [] value best = best
best_coin dp (coin ∷ coins) value best =
    if leb coin value
    then best_coin dp coins value (min best (1 + get_or (dp ++ best ∷ []) (value - coin) 0))
    else best_coin dp coins value best

-- `dp[:value]` after `n` turns of the outer loop, which begins at 1; what stands after it is still
-- `amount + 1`
unfoldable pub coin_rows : ℕ → ℕ → List ℕ → List ℕ
unfolding best_coin
coin_rows amount zero coins = 0 ∷ []
coin_rows amount (suc n) coins =
    let dp = coin_rows amount n coins in dp ++ best_coin dp coins (suc n) (amount + 1) ∷ []

unfoldable pub min_coin_table : ℕ → List ℕ → List ℕ
unfolding coin_rows
min_coin_table amount coins = coin_rows amount amount coins

-- the loop of `greedy_coin_count` over the coins, which are sorted down; `none` is the
-- ZeroDivisionError
unfoldable pub greedy_loop : ℕ → ℕ → List ℕ → Option ℕ
greedy_loop count amount [] = some count
greedy_loop count amount (coin ∷ coins) =
    if nat_beq coin 0 then none else greedy_loop (count + amount / coin) (amount % coin) coins

abbrev pub reversed : List ℕ → List ℕ
reversed [] = []
reversed (coin ∷ coins) = reversed coins ++ coin ∷ []

unfoldable pub greedy_coin_count : ℕ → List ℕ → Option ℕ
unfolding greedy_loop
greedy_coin_count amount coins = greedy_loop 0 amount (reversed (sorted_by (λ coin. coin) coins))

-- one item: `dp[current]` for `current` from the capacity down to the weight, which reads entries of
-- the row before only, where the weight is not 0
unfoldable pub knapsack_row : ℕ → ℕ → List ℕ → ℕ → List ℕ
knapsack_row weight value dp zero = dp
knapsack_row weight value dp (suc n) =
    if leb weight n
    then knapsack_row weight value
        (set dp n (max (get_or dp n 0) (value + get_or dp (n - weight) 0))) n
    else dp

unfoldable pub knapsack_rows : ℕ → List (ℕ × ℕ) → List ℕ → List ℕ
unfolding knapsack_row
knapsack_rows capacity [] dp = dp
knapsack_rows capacity ((weight, value) ∷ items) dp =
    knapsack_rows capacity items (knapsack_row weight value dp (capacity + 1))

unfoldable pub knapsack_01 : ℕ → List (ℕ × ℕ) → ℕ
unfolding knapsack_rows
knapsack_01 capacity items =
    get_or (knapsack_rows capacity items (replicate (capacity + 1) 0)) capacity 0
