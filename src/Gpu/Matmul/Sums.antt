-- ===== src/Gpu/Matmul/Sums.antt =====
-- Sums over ranges: split, and cut where the terms are 0.
use netai_devsecops_runbook.Prelude.{
  ℕ, zero, suc, ◌+◌, ◌-◌, ◌≤◌, ◌<◌, ◌≡◌, refl, sym, ap, ◌∙◌, arith, add-zero, zero-add,
}
use netai_devsecops_runbook.Gpu.Matmul.{sum_range}

pub sum_range-append :
    (f : ℕ → ℕ) (i m n : ℕ) → sum_range f i (m + n) ≡ sum_range f i m + sum_range f (i + m) n
sum_range-append f i zero n = rw (zero-add n, add-zero i) (omega arith)
sum_range-append f i (suc m) n =
    let e : suc m + n ≡ suc (m + n) = omega arith in
    let e' : i + suc m ≡ i + 1 + m = omega arith in
    rw (e, e') (omega (arith, sum_range-append f (i + 1) m n))

sum_range_zero : (f : ℕ → ℕ) (i n : ℕ) → ((k : ℕ) → i ≤ k → f k ≡ 0) → sum_range f i n ≡ 0
sum_range_zero f i zero h = refl
sum_range_zero f i (suc n) h =
    omega (arith, h i (omega arith), sum_range_zero f (i + 1) n (λ k le. h k (omega arith)))

pub sum_range-eq :
    (f g : ℕ → ℕ) (i j n : ℕ)
    → ((k : ℕ) → k < n → f (i + k) ≡ g (j + k))
    → sum_range f i n ≡ sum_range g j n
sum_range-eq f g i j zero h = refl
sum_range-eq f g i j (suc n) h =
    let first = h 0 (omega arith) in
    omega (
      arith,
      rw (add-zero i, add-zero j) at first,
      sum_range-eq f g (i + 1) (j + 1) n
          (λ k lt. ap f (omega arith) ∙ h (k + 1) (omega arith) ∙ ap g (omega arith)),
    )

-- the terms from `limit` on are 0: a tile and what follows it make up the sum to the limit
pub sum_range_tile :
    (f : ℕ → ℕ) (limit base size : ℕ)
    → ((k : ℕ) → limit ≤ k → f k ≡ 0)
    → base ≤ limit
    → sum_range f base size + sum_range f (base + size) (limit - (base + size))
      ≡ sum_range f base (limit - base)
sum_range_tile f limit base size zero_from h =
    let whole = size + (limit - (base + size)) in
    let e : whole ≡ (limit - base) + (whole - (limit - base)) = omega arith in
    let past : base + (limit - base) ≡ limit = omega arith in
    sym (sum_range-append f base size (limit - (base + size)))
    ∙ ap (sum_range f base) e
    ∙ sum_range-append f base (limit - base) (whole - (limit - base))
    ∙ rw (past, sum_range_zero f limit (whole - (limit - base)) zero_from) (omega arith)
