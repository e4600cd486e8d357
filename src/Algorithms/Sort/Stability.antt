-- ===== src/Algorithms/Sort/Stability.antt =====
-- search_sort_lab.py: the end of merge sort, and the records of one key.
use netai_devsecops_runbook.Prelude.{
  leb, nat_beq, nat_beq_iff, Bool-cases, length, filter, All, All-map, ℕ, zero, suc, ◌+◌, ◌≤◌, ◌<◌,
  ◌≡◌, refl, sym, inl, inr, List, [], ◌∷◌, ◌++◌, arith, append-nil, not_leb→lt, take, drop,
  take-append-drop, filter-append, ◌/◌, ap, ◌∙◌, true, some, length-take, length-drop,
}
use netai_devsecops_runbook.Algorithms.Sort.{
  merge_loop, stable_merge, merged, sort_loop, merge_sort,
}
use netai_devsecops_runbook.Algorithms.Sort.Order.{IsOrdered, merge_loop-IsOrdered}

module _ {ℓ} {A : Type ℓ} where
  -- the records that have a key, in their order
  abbrev pub with_key : ℕ → List (ℕ × A) → List (ℕ × A)
  with_key k xs = filter (λ x. nat_beq x.0 k) xs

  no_key : (k : ℕ) (xs : List (ℕ × A)) → All (λ x. k < x.0) xs → with_key k xs ≡ []
  no_key k [] h = refl
  no_key k (x ∷ xs) (h, hs) = ground (arith, no_key k xs hs, nat_beq_iff x.0 k)

  larger :
      (x y : ℕ × A) (left : List (ℕ × A))
      → y.0 < x.0
      → All (λ z. x.0 ≤ z.0) left
      → All (λ z. y.0 < z.0) (x ∷ left)
  larger x y left h up = (h, All-map (λ z k. omega arith) left up)

  with_key-cons :
      (k : ℕ) (x : ℕ × A) (zs left ks : List (ℕ × A))
      → with_key k zs ≡ with_key k left ++ ks
      → with_key k (x ∷ zs) ≡ with_key k (x ∷ left) ++ ks
  with_key-cons k x zs left ks h = elim (Bool-cases (nat_beq x.0 k)) [
    | inl hit ↦ rw hit (ap (◌∷◌ x) h)
    | inr miss ↦ rw miss h
  ]

  with_key-skip :
      (k : ℕ) (y : ℕ × A) (zs xs right : List (ℕ × A))
      → All (λ x. y.0 < x.0) xs
      → with_key k zs ≡ with_key k xs ++ with_key k right
      → with_key k (y ∷ zs) ≡ with_key k xs ++ with_key k (y ∷ right)
  with_key-skip k y zs xs right up h = elim (Bool-cases (nat_beq y.0 k)) [
    | inl hit ↦
        let absent =
          no_key k xs (All-map (λ x b. omega (arith, (nat_beq_iff y.0 k).0 hit)) xs up) in
        rw (hit, absent) (ap (◌∷◌ y) (h ∙ ap (λ l. l ++ with_key k right) absent))
    | inr miss ↦ rw miss h
  ]

  with_key-merge_loop :
      (k fuel : ℕ) (left right : List (ℕ × A))
      → length left + length right ≤ fuel
      → IsOrdered left
      → with_key k (merge_loop fuel left right) ≡ with_key k left ++ with_key k right
  unfolding merge_loop
  with_key-merge_loop k fuel [] right h l = refl
  with_key-merge_loop k fuel (x ∷ left) [] h l = sym (append-nil _)
  with_key-merge_loop k zero (x ∷ left) (y ∷ right) h l = absurd (omega arith)
  with_key-merge_loop k (suc fuel) (x ∷ left) (y ∷ right) h l = elim (Bool-cases (leb x.0 y.0)) [
    | inl le ↦
        rw (le, merge_loop)
          (with_key-cons k x (merge_loop fuel left (y ∷ right)) left (with_key k (y ∷ right))
            (with_key-merge_loop k fuel left (y ∷ right) (omega arith) l.1))
    | inr gt ↦
        rw (gt, merge_loop)
          (with_key-skip k y (merge_loop fuel (x ∷ left) right) (x ∷ left) right
            (larger x y left (not_leb→lt _ _ gt) l.0)
            (with_key-merge_loop k fuel (x ∷ left) right (omega arith) l))
  ]

  with_key_halves :
      (k n : ℕ) (xs : List (ℕ × A))
      → with_key k (take n xs) ++ with_key k (drop n xs) ≡ with_key k xs
  with_key_halves k n xs =
      sym (filter-append (λ x. nat_beq x.0 k) (take n xs) (drop n xs))
      ∙ ap (with_key k) (take-append-drop n xs)

  -- what sorting gives
  pub record IsSorting (records sorted : List (ℕ × A)) : Type ℓ where
    pub ordered : IsOrdered sorted
    pub stable : (k : ℕ) → with_key k sorted ≡ with_key k records

  merge-IsSorting :
      (records : List (ℕ × A)) (mid : ℕ) (left right : List (ℕ × A))
      → IsSorting (take mid records) left
      → IsSorting (drop mid records) right
      → IsSorting records (stable_merge left right)
  unfolding stable_merge
  merge-IsSorting records mid left right l r = record {
    ordered = merge_loop-IsOrdered (length left + length right) left right l.ordered r.ordered;
    stable = λ k.
        with_key-merge_loop k (length left + length right) left right (omega arith) l.ordered
        ∙ ap (λ m. m ++ with_key k right) (l.stable k)
        ∙ ap (◌++◌ (with_key k (take mid records))) (r.stable k)
        ∙ with_key_halves k mid records;
  }

  short-IsOrdered : (xs : List (ℕ × A)) → leb (length xs) 1 ≡ true → IsOrdered xs
  short-IsOrdered [] h = tt
  short-IsOrdered (x ∷ []) h = (tt, tt)
  short-IsOrdered (x ∷ y ∷ xs) h = absurd (ground arith)

  sort_loop-IsSorting :
      (fuel : ℕ) (records : List (ℕ × A))
      → length records < fuel
      → (sorted : List (ℕ × A)) × (sort_loop fuel records ≡ some sorted) × IsSorting records sorted
  unfolding sort_loop
  sort_loop-IsSorting zero records h = absurd (omega arith)
  sort_loop-IsSorting (suc fuel) records h = elim (Bool-cases (leb (length records) 1)) [
    | inl short ↦ (
      records,
      rw (short, sort_loop) refl,
      record { ordered = short-IsOrdered records short; stable = λ k. refl },
    )
    | inr long ↦
        let mid = length records / 2 in
        let (left, l, is_left) =
          sort_loop-IsSorting fuel (take mid records)
            (omega (arith, length-take mid records, not_leb→lt _ _ long)) in
        let (right, r, is_right) =
          sort_loop-IsSorting fuel (drop mid records)
            (omega (arith, length-drop mid records, not_leb→lt _ _ long)) in
        (
          stable_merge left right,
          rw (long, sort_loop, l, r, merged) refl,
          merge-IsSorting records mid left right is_left is_right,
        )
  ]

  -- Merge sort ends. Its result is in the order of the keys, and has for each key the records that
  -- have the key, as often and in the order in which they stand in the input.
  pub merge_sort-IsSorting :
      (records : List (ℕ × A))
      → (sorted : List (ℕ × A)) × (merge_sort records ≡ some sorted) × IsSorting records sorted
  unfolding merge_sort
  merge_sort-IsSorting records = sort_loop-IsSorting (length records + 1) records (omega arith)
