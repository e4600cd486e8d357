-- ===== src/Algorithms/Tables/Pays.antt =====
-- What it is to pay a value with coins.
use netai_devsecops_runbook.Prelude.{ℕ, suc, ◌+◌, ◌≤◌, ◌<◌, ◌≡◌, List, Memᴰ, arith}

-- `k` coins that are not 0 add up to `v`
pub data Pays (coins : List ℕ) : ℕ → ℕ → Type 0 where
  no_coin : Pays coins 0 0
  one_more :
      {v rest k : ℕ} (coin : ℕ)
      → Memᴰ coin coins
      → 0 < coin
      → v ≡ rest + coin
      → Pays coins rest k
      → Pays coins v (suc k)

-- coins that are not 0 pay at least one each
pub Pays-le : {coins : List ℕ} {v k : ℕ} → Pays coins v k → k ≤ v
Pays-le no_coin = omega arith
Pays-le (one_more coin m h e p) = omega (arith, Pays-le p)
