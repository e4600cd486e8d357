-- ===== src/Algorithms/Tables/Knapsack.antt =====
-- graph_dp_lab.py: the one-row table of the knapsack, and choices of items.
use netai_devsecops_runbook.Prelude.{
  ltb, leb, if◌then◌else◌, lt→ltb, leb→le, not_leb→lt, nat_beq_iff, Bool-cases, get_or-set,
  get_or-replicate, length, get_or, set, replicate, length-set, length-replicate, ℕ, zero, suc, ◌+◌,
  ◌-◌, ◌≤◌, ◌<◌, max, ◌≡◌, refl, sym, ◌∙◌, inl, inr, List, [], ◌∷◌, arith,
}
use netai_devsecops_runbook.Algorithms.Tables.{knapsack_row, knapsack_rows, knapsack_01}
use netai_devsecops_runbook.Algorithms.Tables.Choices.{
  Chosen, no_item, best, best_reached, best_most, rev_onto, join_choices, split_choice,
  nothing-Chosen,
}

-- the turns of the inner loop that are done: entries from `n` on are new, those below are old
row_entry : ℕ → ℕ → (ℕ → ℕ) → ℕ → ℕ
row_entry weight value old c =
    if leb weight c then max (old c) (value + old (c - weight)) else old c

-- no entry from the weight on is left
row_kept :
    (weight value : ℕ) (old : ℕ → ℕ) (dp : List ℕ) (n c : ℕ)
    → n < weight
    → ((j : ℕ) → j < suc n → get_or dp j 0 ≡ old j)
    → get_or dp c 0 ≡ (if ltb c (suc n) then row_entry weight value old c else get_or dp c 0)
unfolding row_entry
row_kept weight value old dp n c heavy below = ground (arith, below c)

-- the entry that the turn for `n` writes
row_made :
    (weight value : ℕ) (old : ℕ → ℕ) (dp : List ℕ) (n c : ℕ)
    → weight ≤ n
    → n < length dp
    → get_or dp n 0 ≡ old n
    → get_or dp (n - weight) 0 ≡ old (n - weight)
    → (if ltb c n
        then row_entry weight value old c
        else get_or (set dp n (max (get_or dp n 0) (value + get_or dp (n - weight) 0))) c 0)
      ≡ (if ltb c (suc n) then row_entry weight value old c else get_or dp c 0)
unfolding row_entry
row_made weight value old dp n c light size here there = ground (
  arith,
  get_or-set dp n c (max (get_or dp n 0) (value + get_or dp (n - weight) 0)) 0,
  nat_beq_iff n c,
)

knapsack_row_lem :
    (weight value : ℕ) (old : ℕ → ℕ) (dp : List ℕ) (n c : ℕ)
    → n ≤ length dp
    → ((j : ℕ) → j < n → get_or dp j 0 ≡ old j)
    → c < length dp
    → get_or (knapsack_row weight value dp n) c 0
      ≡ (if ltb c n then row_entry weight value old c else get_or dp c 0)
unfolding knapsack_row
knapsack_row_lem weight value old dp zero c size below h = ground arith
knapsack_row_lem weight value old dp (suc n) c size below h = elim (Bool-cases (leb weight n)) [
  | inr heavy ↦
      rw (heavy, knapsack_row) (row_kept weight value old dp n c (not_leb→lt _ _ heavy) below)
  | inl light ↦
      let new = max (get_or dp n 0) (value + get_or dp (n - weight) 0) in
      let rest =
        knapsack_row_lem weight value old (set dp n new) n c (omega (arith, length-set dp n new))
          (λ j lt. ground (arith, get_or-set dp n j new 0, below j, nat_beq_iff n j))
          (omega (arith, length-set dp n new)) in
      rw (light, knapsack_row)
        (rest
          ∙ row_made weight value old dp n c (leb→le _ _ light) (omega arith)
              (below n (omega arith)) (below (n - weight) (omega arith)))
]

-- the table after some items, the last one first
IsRow : ℕ → List (ℕ × ℕ) → List ℕ → Type 0
IsRow capacity done dp =
    (length dp ≡ capacity + 1) × ((c : ℕ) → c ≤ capacity → get_or dp c 0 ≡ best done c)

length-knapsack_row :
    (weight value : ℕ) (dp : List ℕ) (n : ℕ) → length (knapsack_row weight value dp n) ≡ length dp
unfolding knapsack_row
length-knapsack_row weight value dp zero = refl
length-knapsack_row weight value dp (suc n) = elim (Bool-cases (leb weight n)) [
  | inl light ↦
      let new = max (get_or dp n 0) (value + get_or dp (n - weight) 0) in
      rw (light, knapsack_row)
        (length-knapsack_row weight value (set dp n new) n ∙ length-set dp n new)
  | inr heavy ↦ rw (heavy, knapsack_row) refl
]

IsRow-item :
    (capacity : ℕ) (done : List (ℕ × ℕ)) (dp : List ℕ) (item : ℕ × ℕ)
    → IsRow capacity done dp
    → IsRow capacity (item ∷ done) (knapsack_row item.0 item.1 dp (capacity + 1))
unfolding IsRow row_entry
IsRow-item capacity done dp item (size, entries) = (
  length-knapsack_row item.0 item.1 dp (capacity + 1) ∙ size,
  λ c fits.
      let made =
        knapsack_row_lem item.0 item.1 (best done) dp (capacity + 1) c (omega (arith, size))
          (λ j lt. entries j (omega arith)) (omega (arith, size)) in
      made ∙ rw (lt→ltb c (capacity + 1) (omega arith)) refl,
)

knapsack_rows-IsRow :
    (capacity : ℕ) (items done : List (ℕ × ℕ)) (dp : List ℕ)
    → IsRow capacity done dp
    → IsRow capacity (rev_onto items done) (knapsack_rows capacity items dp)
unfolding knapsack_rows
knapsack_rows-IsRow capacity [] done dp h = h
knapsack_rows-IsRow capacity (item ∷ items) done dp h =
    knapsack_rows-IsRow capacity items (item ∷ done) (knapsack_row item.0 item.1 dp (capacity + 1))
      (IsRow-item capacity done dp item h)

-- a value that is the most that a choice within the capacity has
pub record IsBestChoice (capacity : ℕ) (items : List (ℕ × ℕ)) (result : ℕ) : Type 0 where
  pub weight : ℕ
  pub chosen : Chosen items weight result
  pub fits : weight ≤ capacity
  pub most : (w v : ℕ) → Chosen items w v → w ≤ capacity → v ≤ result

knapsack_01-best :
    (capacity : ℕ) (items : List (ℕ × ℕ))
    → knapsack_01 capacity items ≡ best (rev_onto items []) capacity
unfolding knapsack_01 IsRow
knapsack_01-best capacity items =
    (knapsack_rows-IsRow capacity items [] (replicate (capacity + 1) 0)
        (length-replicate (capacity + 1) 0, λ c h. get_or-replicate (capacity + 1) c 0)).1
      capacity (omega arith)

-- For any items and capacity, weights of 0 included, the result is the value of a choice that fits, with
-- each item taken once at most; and no choice that fits has more.
pub knapsack_01-IsBestChoice :
    (capacity : ℕ) (items : List (ℕ × ℕ)) → IsBestChoice capacity items (knapsack_01 capacity items)
knapsack_01-IsBestChoice capacity items =
    let (w, chosen, fits) = best_reached (rev_onto items []) capacity in
    let (w1, v1, w2, v2, picked, rest, ew, ev) = split_choice items [] w _ chosen in
    let (z, z') = nothing-Chosen rest in
    let value : v1 ≡ best (rev_onto items []) capacity = omega arith in
    record {
      weight = w1;
      chosen = rw (knapsack_01-best capacity items, sym value) picked;
      fits = omega arith;
      most = λ x v c h.
          let both = join_choices c no_item in
          rw (knapsack_01-best capacity items)
            (omega (arith, best_most capacity both (omega arith)));
    }
