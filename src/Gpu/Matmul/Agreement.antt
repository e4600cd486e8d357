-- ===== src/Gpu/Matmul/Agreement.antt =====
-- tiled_matmul_model.py: tiled and reference multiplication.
use netai_devsecops_runbook.Prelude.{
  ltb, leb, if◌then◌else◌, ltb→lt, Bool-cases, length, get_or, ℕ, zero, suc, ◌+◌, ◌-◌, ◌<◌, ◌≡◌, ap,
  ◌∙◌, inl, inr, Bool, ◌&&◌, List, [], arith, zero-add, nat_beq, all, sym, true, some, ◌∷◌, lt→ltb,
  ◌*◌, refl,
}
use netai_devsecops_runbook.Gpu.Matmul.{
  Matrix, zeros, entry, sum_range, bases, reference_matmul, accumulated, store_tile, tile_row,
  tile_rows, tiled_matmul,
}
use netai_devsecops_runbook.Gpu.Matmul.Grids.{grid, entry-grid, grid-eq, zeros-grid}
use netai_devsecops_runbook.Gpu.Matmul.Sums.{sum_range-eq}
use netai_devsecops_runbook.Gpu.Matmul.Tiles.{term, entry-accumulated_from}

module _ (a b : Matrix) (tile_size : ℕ) (positive : 0 < tile_size) where
  abbrev rows : ℕ
  rows = length a

  abbrev inner : ℕ
  inner = length b

  abbrev cols : ℕ
  cols = length (get_or b 0 [])

  abbrev k_bases : List ℕ
  k_bases = bases (inner + 1) 0 inner tile_size

  -- an entry of the product
  abbrev product : ℕ → ℕ → ℕ
  product row col = sum_range (term a b tile_size row col) 0 inner

  -- the accumulated tile
  abbrev tile_sum : ℕ → ℕ → Matrix
  tile_sum row_base col_base =
      accumulated a b tile_size row_base col_base k_bases (zeros tile_size tile_size)

  entry-tile_sum :
      (row_base col_base ty tx : ℕ)
      → ty < tile_size
      → tx < tile_size
      → row_base + ty < rows
      → col_base + tx < cols
      → entry (tile_sum row_base col_base) ty tx ≡ product (row_base + ty) (col_base + tx)
  entry-tile_sum row_base col_base ty tx hy hx in_rows in_cols =
      let blank : entry (zeros tile_size tile_size) ty tx ≡ 0 =
        ap (λ m. entry m ty tx) (zeros-grid tile_size tile_size)
        ∙ entry-grid (λ _ _. 0) tile_size tile_size ty tx hy hx in
      entry-accumulated_from a b tile_size (inner + 1) (zeros tile_size tile_size) row_base col_base
        0 ty tx positive (omega arith) hy hx in_rows in_cols
      ∙ rw blank (
          zero-add _
          ∙ ap (sum_range (term a b tile_size (row_base + ty) (col_base + tx)) 0) (omega arith))

  -- in the tile from two bases
  abbrev in_tile : ℕ → ℕ → Bool
  in_tile base i = leb base i && ltb i (base + tile_size)

  store_tile-grid :
      (row_base col_base : ℕ) (f : ℕ → ℕ → ℕ)
      → store_tile a b tile_size row_base col_base (tile_sum row_base col_base) (grid f rows cols)
        ≡ grid
            (λ row col.
              if in_tile row_base row && in_tile col_base col then product row col else f row col)
            rows
            cols
  unfolding store_tile
  store_tile-grid row_base col_base f = grid-eq _ _ rows cols (λ row col hr hc.
      elim (Bool-cases (in_tile row_base row && in_tile col_base col)) [
        | inr outside ↦ rw outside (entry-grid f rows cols row col hr hc)
        | inl within ↦
            let row_in : row_base + (row - row_base) ≡ row = ground arith in
            let col_in : col_base + (col - col_base) ≡ col = ground arith in
            rw within (
              entry-tile_sum row_base col_base (row - row_base) (col - col_base) (ground arith)
                (ground arith) (omega arith) (omega arith)
              ∙ ap (λ i. product i (col_base + (col - col_base))) row_in
              ∙ ap (product row) col_in)
      ])

  -- the output tiles of one row of tiles, from a column on
  tile_row-grid :
      (fuel row_base col_base : ℕ) (f : ℕ → ℕ → ℕ)
      → cols - col_base < fuel
      → tile_row a b tile_size row_base
          (bases fuel col_base cols tile_size)
          k_bases
          (grid f rows cols)
        ≡ grid
            (λ row col.
              if in_tile row_base row && leb col_base col then product row col else f row col)
            rows
            cols
  unfolding tile_row bases
  tile_row-grid zero row_base col_base f h = absurd (omega arith)
  tile_row-grid (suc fuel) row_base col_base f h = elim (Bool-cases (ltb col_base cols)) [
    | inr done ↦ rw (done, tile_row, bases) (grid-eq _ _ rows cols (λ row col hr hc. ground arith))
    | inl more ↦
        rw (more, tile_row, bases, store_tile-grid row_base col_base f)
          (tile_row-grid fuel row_base (col_base + tile_size) _ (omega (arith, ltb→lt _ _ more))
            ∙ grid-eq _ _ rows cols (λ row col hr hc. ground arith))
  ]

  -- all output tiles, from a row on
  tile_rows-grid :
      (fuel row_base : ℕ) (f : ℕ → ℕ → ℕ)
      → rows - row_base < fuel
      → tile_rows a b tile_size
          (bases fuel row_base rows tile_size)
          (bases (cols + 1) 0 cols tile_size)
          k_bases
          (grid f rows cols)
        ≡ grid (λ row col. if leb row_base row then product row col else f row col) rows cols
  unfolding tile_rows bases
  tile_rows-grid zero row_base f h = absurd (omega arith)
  tile_rows-grid (suc fuel) row_base f h = elim (Bool-cases (ltb row_base rows)) [
    | inr done ↦ rw (done, tile_rows, bases) (grid-eq _ _ rows cols (λ row col hr hc. ground arith))
    | inl more ↦
        rw (more, tile_rows, bases, tile_row-grid (cols + 1) row_base 0 f (omega arith))
          (tile_rows-grid fuel (row_base + tile_size) _ (omega (arith, ltb→lt _ _ more))
            ∙ grid-eq _ _ rows cols (λ row col hr hc. ground arith))
  ]

-- For a nonempty b, a positive tile size, rows of a as long as b and rows of b as long as its
-- first: the tiled multiplication gives the matrix that the reference multiplication returns, and
-- the reference multiplication does return one.
pub tiled_matmul-reference :
    (a : Matrix) (first : List ℕ) (rest : Matrix) (tile_size : ℕ)
    → 0 < tile_size
    → all (λ row. nat_beq (length row) (suc (length rest))) a ≡ true
    → all (λ row. nat_beq (length row) (length first)) rest ≡ true
    → reference_matmul a (first ∷ rest) ≡ some (tiled_matmul a (first ∷ rest) tile_size).0
unfolding reference_matmul tiled_matmul
tiled_matmul-reference a first rest tile_size positive fits rectangular =
    let b = first ∷ rest in
    rw fits (
      ap some (
        sym (
          ap
            (tile_rows a b tile_size (bases (length a + 1) 0 (length a) tile_size)
              (bases (length first + 1) 0 (length first) tile_size)
              (bases (suc (length rest) + 1) 0 (suc (length rest)) tile_size))
            (zeros-grid (length a) (length first))
          ∙ tile_rows-grid a b tile_size positive (length a + 1) 0 (λ _ _. 0) (omega arith)
          ∙ grid-eq _ _ (length a) (length first) (λ row col hr hc.
            let at_start : leb 0 row ≡ true = ground arith in
            rw at_start (
              sum_range-eq (term a b tile_size row col) (λ k. entry a row k * entry b k col) 0 0
                (length b)
                (λ k h. let e : 0 + k ≡ k = zero-add k in rw (e, lt→ltb k (length b) h) refl))))))
