-- ===== src/Algorithms/Tables/Coins.antt =====
-- graph_dp_lab.py: the coin table, and ways to pay a value.
use netai_devsecops_runbook.Prelude.{
  length, get_or, ℕ, suc, ◌+◌, ◌-◌, ◌≤◌, ◌<◌, min, ◌≡◌, ◌⊎◌, inl, inr, List, [], ◌∷◌, Memᴰ, arith,
  dec_le, leb, leb→le, Bool-cases, get_or-append_lt, get_or-append_last, length-append, zero, refl,
  ap, subst, ◌++◌, dec_lt,
}
use netai_devsecops_runbook.Prelude.Memᴰ
use netai_devsecops_runbook.Algorithms.Tables.{best_coin, coin_rows, min_coin_table}
use netai_devsecops_runbook.Algorithms.Tables.Pays.{Pays, no_coin, one_more, Pays-le}

-- an entry of the table, with `amount + 1` for a value that cannot be paid
record IsLeast (amount : ℕ) (coins : List ℕ) (v answer : ℕ) : Type 0 where
  reached : (answer ≡ amount + 1) ⊎ Pays coins v answer
  least : (k : ℕ) → Pays coins v k → answer ≤ k
  bound : answer ≤ amount + 1

-- an entry that is the least number of coins, or `amount + 1` where no coins pay the value
pub record IsOptimal (amount : ℕ) (coins : List ℕ) (v answer : ℕ) : Type 0 where
  pub outcome : Pays coins v answer ⊎ ((answer ≡ amount + 1) × ((k : ℕ) → ¬ Pays coins v k))
  pub least : (k : ℕ) → Pays coins v k → answer ≤ k

IsLeast-IsOptimal :
    (amount : ℕ) (coins : List ℕ) (v answer : ℕ)
    → v ≤ amount
    → IsLeast amount coins v answer
    → IsOptimal amount coins v answer
IsLeast-IsOptimal amount coins v answer h l = record {
  outcome = elim l.reached [
    | inl e ↦ inr (e, λ k p. omega (arith, l.least k p, Pays-le p, e))
    | inr paid ↦ inl paid
  ];
  least = l.least;
}

module _ (amount : ℕ) (coins : List ℕ) (dp : List ℕ) (value : ℕ) (size : length dp ≡ value)
    (below : (j : ℕ) → j < value → IsLeast amount coins j (get_or dp j 0)) where
  -- what trying the coins `cs` makes of the best count so far
  record IsTried (cs : List ℕ) (best result : ℕ) : Type 0 where
    reached : (result ≡ amount + 1) ⊎ Pays coins value result
    no_worse : result ≤ best
    beats :
        (coin : ℕ)
        → Memᴰ coin cs
        → 0 < coin
        → coin ≤ value
        → result ≤ 1 + get_or dp (value - coin) 0

  candidate_reached :
      (coin best : ℕ)
      → Memᴰ coin coins
      → 0 < coin
      → coin ≤ value
      → best ≤ amount + 1
      → (best ≡ amount + 1) ⊎ Pays coins value best
      → (min best (1 + get_or dp (value - coin) 0) ≡ amount + 1)
        ⊎ Pays coins value (min best (1 + get_or dp (value - coin) 0))
  candidate_reached coin best m h fits bound so_far =
      let entry = below (value - coin) (omega arith) in
      elim (dec_le best (1 + get_or dp (value - coin) 0)) [
        | yes kept ↦
            let e : min best (1 + get_or dp (value - coin) 0) ≡ best = omega arith in rw e so_far
        | no better ↦
            let e : min best (1 + get_or dp (value - coin) 0) ≡ suc (get_or dp (value - coin) 0) =
              omega arith in
            rw e (elim entry.reached [
              | inl unpayable ↦ absurd (omega arith)
              | inr paid ↦ inr (one_more coin m h (omega arith) paid)
            ])
      ]

  -- one coin more that was tried first
  IsTried-cons :
      (coin : ℕ) (cs : List ℕ) (best next result : ℕ)
      → next ≤ best
      → (0 < coin → coin ≤ value → next ≤ 1 + get_or dp (value - coin) 0)
      → IsTried cs next result
      → IsTried (coin ∷ cs) best result
  IsTried-cons coin cs best next result le here tried = record {
    reached = tried.reached;
    no_worse = omega (arith, tried.no_worse);
    beats = λ c m h fits. elim (Memᴰ.cases_cons m) [
      | inl e ↦ rw e (
          omega
            (arith, tried.no_worse, here (subst (λ n. 0 < n) e h) (subst (λ n. n ≤ value) e fits)))
      | inr later ↦ tried.beats c later h fits
    ];
  }

  -- a coin of 0 reads the entry that is being made
  read_self : (coin best : ℕ) → coin ≡ 0 → get_or (dp ++ best ∷ []) (value - coin) 0 ≡ best
  read_self coin best e =
      let at_end : value - coin ≡ length dp = omega (arith, size) in
      rw at_end (get_or-append_last dp best 0)

  best_coin-IsTried :
      (cs : List ℕ) (best : ℕ)
      → ((coin : ℕ) → Memᴰ coin cs → Memᴰ coin coins)
      → best ≤ amount + 1
      → (best ≡ amount + 1) ⊎ Pays coins value best
      → IsTried cs best (best_coin dp cs value best)
  unfolding best_coin
  best_coin-IsTried [] best sub bound so_far = record {
    reached = so_far;
    no_worse = omega arith;
    beats = λ coin m. absurd (Memᴰ.not-nil m);
  }
  best_coin-IsTried (coin ∷ cs) best sub bound so_far = elim (Bool-cases (leb coin value)) [
    | inr larger ↦
        rw (larger, best_coin)
          (IsTried-cons coin cs best best _ (omega arith) (λ h fits. absurd (ground arith))
            (best_coin-IsTried cs best (λ c m. sub c (Memᴰ.tail m)) bound so_far))
    | inl fits ↦ elim (dec_lt 0 coin) [
      | no zero_coin ↦
          let same_best : min best (1 + get_or (dp ++ best ∷ []) (value - coin) 0) ≡ best =
            omega (arith, read_self coin best (omega arith)) in
          rw (fits, best_coin, same_best)
            (IsTried-cons coin cs best best _ (omega arith) (λ h le. absurd (zero_coin h))
              (best_coin-IsTried cs best (λ c m. sub c (Memᴰ.tail m)) bound so_far))
      | yes h ↦
          let le = leb→le coin value fits in
          let next = min best (1 + get_or dp (value - coin) 0) in
          rw
            (
              fits,
              best_coin,
              get_or-append_lt dp (best ∷ []) (value - coin) 0 (omega (arith, size)),
            )
            (IsTried-cons coin cs best next _ (omega arith) (λ _ _. omega arith)
              (best_coin-IsTried cs next (λ c m. sub c (Memᴰ.tail m)) (omega arith)
                (candidate_reached coin best (sub coin (Memᴰ.head refl)) h le bound so_far)))
    ]
  ]

  least_lem :
      {best result v : ℕ}
      → 0 < value
      → IsTried coins best result
      → (k : ℕ) → v ≡ value
      → Pays coins v k
      → result ≤ k
  least_lem h tried k e no_coin = absurd (omega arith)
  least_lem h tried k e (one_more {rest = rest} {k = k'} coin m h' sum p) =
      let at_rest : value - coin ≡ rest = omega arith in
      omega (
        arith,
        tried.beats coin m h' (omega arith),
        ap (λ i. get_or dp i 0) at_rest,
        (below rest (omega arith)).least k' p,
      )

  -- the entry that a turn of the outer loop makes
  best_coin-IsLeast :
      0 < value
      → value ≤ amount
      → IsLeast amount coins value (best_coin dp coins value (amount + 1))
  best_coin-IsLeast h fits =
      let tried = best_coin-IsTried coins (amount + 1) (λ c m. m) (omega arith) (inl refl) in
      record {
        reached = tried.reached;
        least = λ k p. least_lem h tried k refl p;
        bound = tried.no_worse;
      }

-- the rows after `n` turns
record IsTable (amount : ℕ) (coins : List ℕ) (n : ℕ) (dp : List ℕ) : Type 0 where
  size : length dp ≡ n + 1
  entries : (v : ℕ) → v ≤ n → IsLeast amount coins v (get_or dp v 0)

coin_rows-IsTable :
    (amount n : ℕ) (coins : List ℕ) → n ≤ amount → IsTable amount coins n (coin_rows amount n coins)
unfolding coin_rows
coin_rows-IsTable amount zero coins h = record {
  size = omega arith;
  entries = λ v le.
      let e : v ≡ 0 = omega arith in
      rw e (record { reached = inr no_coin; least = λ k p. omega arith; bound = omega arith });
}
coin_rows-IsTable amount (suc n) coins h =
    let dp = coin_rows amount n coins in
    let table = coin_rows-IsTable amount n coins (omega arith) in
    let made =
      best_coin-IsLeast amount coins dp (suc n) (omega (arith, table.size))
        (λ j lt. table.entries j (omega arith)) (omega arith) h in
    record {
      size =
          omega
            (arith, length-append dp (best_coin dp coins (suc n) (amount + 1) ∷ []), table.size);
      entries = λ v le. elim (dec_le v n) [
        | yes old ↦
            rw
              (get_or-append_lt dp (best_coin dp coins (suc n) (amount + 1) ∷ []) v 0
                (omega (arith, table.size)))
              (table.entries v old)
        | no new ↦
            let e : v ≡ length dp = omega (arith, table.size) in
            let e' : length dp ≡ suc n = omega (arith, table.size) in
            rw (e, get_or-append_last dp (best_coin dp coins (suc n) (amount + 1)) 0, e') made
      ];
    }

-- The table has an entry for every value up to the amount. Each is the least number of coins that add
-- up to the value, where coins of 0 do not count; or it is `amount + 1`, and then no coins do.
pub min_coin_table-IsOptimal :
    (amount : ℕ) (coins : List ℕ)
    → (length (min_coin_table amount coins) ≡ amount + 1)
      × ((v : ℕ) → v ≤ amount → IsOptimal amount coins v (get_or (min_coin_table amount coins) v 0))
unfolding min_coin_table
min_coin_table-IsOptimal amount coins =
    let table = coin_rows-IsTable amount amount coins (omega arith) in
    (table.size, λ v h. IsLeast-IsOptimal amount coins v _ h (table.entries v h))
