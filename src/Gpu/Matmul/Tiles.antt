-- ===== src/Gpu/Matmul/Tiles.antt =====
-- What the phases of one output tile accumulate.
use netai_devsecops_runbook.Prelude.{
  ltb, if◌then◌else◌, ltb→lt, not_ltb→le, Bool-cases, length, get_or, ℕ, zero, suc, ◌+◌, ◌-◌, ◌*◌,
  ◌<◌, ◌≡◌, ap, ◌∙◌, inl, inr, [], arith, zero-add, lt→ltb, refl, ◌&&◌,
}
use netai_devsecops_runbook.Gpu.Matmul.{
  Matrix, entry, sum_range, tile, accumulate, bases, phase, accumulated,
}
use netai_devsecops_runbook.Gpu.Matmul.Grids.{entry-grid}
use netai_devsecops_runbook.Gpu.Matmul.Sums.{sum_range-eq, sum_range_tile}

entry-tile :
    (m : Matrix) (rows cols tile_size row_base col_base ty tx : ℕ)
    → ty < tile_size
    → tx < tile_size
    → entry (tile m rows cols tile_size row_base col_base) ty tx ≡ (
        if ltb (row_base + ty) rows && ltb (col_base + tx) cols
        then entry m (row_base + ty) (col_base + tx)
        else 0)
unfolding tile
entry-tile m rows cols tile_size row_base col_base ty tx hy hx =
    entry-grid
      (λ y x.
        if ltb (row_base + y) rows && ltb (col_base + x) cols
        then entry m (row_base + y) (col_base + x)
        else 0)
      tile_size tile_size ty tx hy hx

module _ (a b : Matrix) (tile_size : ℕ) where
  -- `a[row][k] * b[k][col]`, and 0 from `inner` on
  abbrev pub term : ℕ → ℕ → ℕ → ℕ
  term row col k = if ltb k (length b) then entry a row k * entry b k col else 0

  -- `tile_a[ty][kk] * tile_b[kk][tx]` of a phase
  tile_term :
      (row_base col_base k_base ty tx kk : ℕ)
      → ty < tile_size
      → tx < tile_size
      → kk < tile_size
      → row_base + ty < length a
      → col_base + tx < length (get_or b 0 [])
      → entry (tile a (length a) (length b) tile_size row_base k_base) ty kk
          * entry (tile b (length b) (length (get_or b 0 [])) tile_size k_base col_base) kk tx
        ≡ term (row_base + ty) (col_base + tx) (k_base + kk)
  tile_term row_base col_base k_base ty tx kk hy hx hk in_rows in_cols =
      rw
        (
          entry-tile a (length a) (length b) tile_size row_base k_base ty kk hy hk,
          entry-tile b (length b) (length (get_or b 0 [])) tile_size k_base col_base kk tx hk hx,
          lt→ltb _ _ in_rows,
          lt→ltb _ _ in_cols,
        )
        (elim (Bool-cases (ltb (k_base + kk) (length b))) [
          | inl within ↦ rw within refl
          | inr beyond ↦ rw beyond refl
        ])

  entry-accumulate :
      (accum : Matrix) (row_base col_base k_base ty tx : ℕ)
      → ty < tile_size
      → tx < tile_size
      → row_base + ty < length a
      → col_base + tx < length (get_or b 0 [])
      → entry
          (accumulate tile_size accum
            (phase a b tile_size row_base col_base k_base).tile_a
            (phase a b tile_size row_base col_base k_base).tile_b)
          ty
          tx
        ≡ entry accum ty tx + sum_range (term (row_base + ty) (col_base + tx)) k_base tile_size
  unfolding accumulate phase
  entry-accumulate accum row_base col_base k_base ty tx hy hx in_rows in_cols =
      entry-grid _ tile_size tile_size ty tx hy hx
      ∙ ap (λ n. entry accum ty tx + n)
          (sum_range-eq _ (term (row_base + ty) (col_base + tx)) 0 k_base tile_size (λ kk hk.
            rw (zero-add kk)
              (tile_term row_base col_base k_base ty tx kk hy hx hk in_rows in_cols)))

  -- all phases from `k_base` on
  pub entry-accumulated_from :
      (fuel : ℕ) (accum : Matrix) (row_base col_base k_base ty tx : ℕ)
      → 0 < tile_size
      → length b - k_base < fuel
      → ty < tile_size
      → tx < tile_size
      → row_base + ty < length a
      → col_base + tx < length (get_or b 0 [])
      → entry
          (accumulated a b tile_size row_base col_base
            (bases fuel k_base (length b) tile_size)
            accum)
          ty
          tx
        ≡ entry accum ty tx
          + sum_range (term (row_base + ty) (col_base + tx)) k_base (length b - k_base)
  unfolding accumulated bases
  entry-accumulated_from zero accum row_base col_base k_base ty tx h fuel hy hx in_rows in_cols =
      absurd (omega arith)
  entry-accumulated_from (suc fuel) accum row_base col_base k_base ty tx h enough hy hx in_rows
        in_cols =
      elim (Bool-cases (ltb k_base (length b))) [
        | inr done ↦
            let e : length b - k_base ≡ 0 = omega (arith, not_ltb→le _ _ done) in
            rw (done, bases, accumulated, e) (omega arith)
        | inl more ↦
            let p = phase a b tile_size row_base col_base k_base in
            rw (more, bases, accumulated)
              (entry-accumulated_from fuel (accumulate tile_size accum p.tile_a p.tile_b) row_base
                  col_base (k_base + tile_size) ty tx h (omega (arith, ltb→lt _ _ more)) hy hx
                  in_rows in_cols
                ∙ omega (
                  arith,
                  entry-accumulate accum row_base col_base k_base ty tx hy hx in_rows in_cols,
                  sum_range_tile (term (row_base + ty) (col_base + tx)) (length b) k_base tile_size
                      (λ k le. ground arith) (omega (arith, ltb→lt _ _ more)),
                ))
      ]
