-- ===== src/Algorithms/Tables/Choices.antt =====
-- Choices among the items of a knapsack, and the best value of one.
use netai_devsecops_runbook.Prelude.{
  leb, if◌then◌else◌, leb→le, Bool-cases, ℕ, ◌+◌, ◌-◌, ◌≤◌, max, ◌≡◌, refl, sym, inl, inr, List, [],
  ◌∷◌, arith, zero-add, dec_le,
}

-- a choice among items, with its weight and value
pub data Chosen : List (ℕ × ℕ) → ℕ → ℕ → Type 0 where
  no_item : Chosen [] 0 0
  leave :
      {items : List (ℕ × ℕ)} {w v : ℕ} (item : ℕ × ℕ) → Chosen items w v → Chosen (item ∷ items) w v
  pack :
      {items : List (ℕ × ℕ)} {w v w' v' : ℕ} (item : ℕ × ℕ)
      → Chosen items w v
      → w' ≡ item.0 + w
      → v' ≡ item.1 + v
      → Chosen (item ∷ items) w' v'

-- the best value within a capacity, over the items from the last to the first
abbrev pub best : List (ℕ × ℕ) → ℕ → ℕ
best [] c = 0
best (item ∷ items) c =
    if leb item.0 c then max (best items c) (item.1 + best items (c - item.0)) else best items c

-- the best value is that of a choice that fits, and no choice that fits has more
pub best_reached :
    (items : List (ℕ × ℕ)) (c : ℕ) → (w : ℕ) × Chosen items w (best items c) × (w ≤ c)
best_reached [] c = (0, no_item, omega arith)
best_reached (item ∷ items) c =
    let (w, chosen, fits) = best_reached items c in
    let (w', chosen', fits') = best_reached items (c - item.0) in
    elim (Bool-cases (leb item.0 c)) [
      | inr heavy ↦ rw heavy (w, leave item chosen, fits)
      | inl light ↦ elim (dec_le (item.1 + best items (c - item.0)) (best items c)) [
        | yes left ↦
            let e : max (best items c) (item.1 + best items (c - item.0)) ≡ best items c =
              omega arith in
            rw (light, e) (w, leave item chosen, fits)
        | no packed ↦
            let e : max (best items c) (item.1 + best items (c - item.0))
                ≡ item.1 + best items (c - item.0) =
              omega arith in
            rw (light, e)
              (item.0 + w', pack item chosen' refl refl, omega (arith, leb→le _ _ light))
      ]
    ]

pub best_most :
    {items : List (ℕ × ℕ)} {w v : ℕ} (c : ℕ) → Chosen items w v → w ≤ c → v ≤ best items c
best_most c no_item h = omega arith
best_most c (leave {items = items} item chosen) h = ground (arith, best_most c chosen)
best_most c (pack {items = items} {w = w} {v = v} item chosen ew ev) h =
    ground (arith, best_most (c - item.0) chosen)

abbrev pub rev_onto : List (ℕ × ℕ) → List (ℕ × ℕ) → List (ℕ × ℕ)
rev_onto [] done = done
rev_onto (item ∷ items) done = rev_onto items (item ∷ done)

-- a choice among items in one order is a choice in the other
pub join_choices :
    {items done : List (ℕ × ℕ)} {w v w' v' : ℕ}
    → Chosen items w v
    → Chosen done w' v'
    → Chosen (rev_onto items done) (w + w') (v + v')
join_choices no_item h = rw (zero-add _, zero-add _) h
join_choices (leave item chosen) h = join_choices chosen (leave item h)
join_choices {w' = w'} {v' = v'} (pack {w = w} {v = v} item chosen ew ev) h =
    let ew' : w + (item.0 + w') ≡ (item.0 + w) + w' = omega arith in
    let ev' : v + (item.1 + v') ≡ (item.1 + v) + v' = omega arith in
    rw (ew, ev, sym ew', sym ev') (join_choices chosen (pack item h refl refl))

split_item :
    {items done : List (ℕ × ℕ)} {w v w1 v1 w2 v2 : ℕ} (item : ℕ × ℕ)
    → Chosen items w1 v1
    → Chosen (item ∷ done) w2 v2
    → w ≡ w1 + w2
    → v ≡ v1 + v2
    → (w3 v3 w4 v4 : ℕ) × Chosen (item ∷ items) w3 v3
      × Chosen done w4 v4
      × (w ≡ w3 + w4)
      × (v ≡ v3 + v4)
split_item item chosen (leave _ last) ew ev = (_, _, _, _, leave item chosen, last, ew, ev)
split_item item chosen (pack _ last ew' ev') ew ev =
    (_, _, _, _, pack item chosen refl refl, last, omega arith, omega arith)

pub split_choice :
    (items done : List (ℕ × ℕ)) (w v : ℕ)
    → Chosen (rev_onto items done) w v
    → (w1 v1 w2 v2 : ℕ) × Chosen items w1 v1 × Chosen done w2 v2 × (w ≡ w1 + w2) × (v ≡ v1 + v2)
split_choice [] done w v h = (0, 0, w, v, no_item, h, omega arith, omega arith)
split_choice (item ∷ items) done w v h =
    let (w1, v1, w2, v2, chosen, last, ew, ev) = split_choice items (item ∷ done) w v h in
    split_item item chosen last ew ev

pub nothing-Chosen : {w v : ℕ} → Chosen [] w v → (w ≡ 0) × (v ≡ 0)
nothing-Chosen no_item = (refl, refl)
