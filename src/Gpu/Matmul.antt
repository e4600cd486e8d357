-- ===== src/Gpu/Matmul.antt =====
-- learning/gpu-programming/examples/tiled_matmul_model.py: multiplication of matrices of integers,
-- in one pass and by tiles. Entries are natural numbers.
pub mod Grids
pub mod Sums
pub mod Tiles
pub mod Agreement
use netai_devsecops_runbook.Prelude.{
  ltb, if◌then◌else◌, length, get_or, replicate, ℕ, zero, suc, ◌+◌, ◌*◌, ◌&&◌, List, [], ◌∷◌, ◌++◌,
  map, leb, ◌-◌, nat_beq, all, Option, none, some,
}

abbrev pub Matrix : Type 0
Matrix = List (List ℕ)

unfoldable pub zeros : ℕ → ℕ → Matrix
zeros rows cols = replicate rows (replicate cols 0)

-- `m[row][col]`, 0 out of bounds, where the code does not read
abbrev pub entry : Matrix → ℕ → ℕ → ℕ
entry m row col = get_or (get_or m row []) col 0

-- `range(n)`, mapped
abbrev pub tabulate {ℓ} : {A : Type ℓ} → (ℕ → A) → ℕ → ℕ → List A
tabulate f i zero = []
tabulate f i (suc n) = f i ∷ tabulate f (i + 1) n

-- `sum(f(k) for k in range(i, i + n))`
abbrev pub sum_range : (ℕ → ℕ) → ℕ → ℕ → ℕ
sum_range f i zero = 0
sum_range f i (suc n) = f i + sum_range f (i + 1) n

-- `none` is the AssertionError, or the IndexError where `b` has no row
unfoldable pub reference_matmul : Matrix → Matrix → Option Matrix
reference_matmul a [] = none
reference_matmul a (first ∷ b) =
    let inner = suc (length b) in
    if all (λ row. nat_beq (length row) inner) a
    then some (
        tabulate
          (λ row.
            tabulate (λ col. sum_range (λ k. entry a row k * entry (first ∷ b) k col) 0 inner) 0
              (length first))
          0 (length a))
    else none

-- `tile_a` or `tile_b` from the bases of row and column: the entry, or 0 out of bounds
unfoldable pub tile : Matrix → ℕ → ℕ → ℕ → ℕ → ℕ → Matrix
tile m rows cols tile_size row_base col_base =
    tabulate
      (λ ty.
        tabulate
          (λ tx.
            if ltb (row_base + ty) rows && ltb (col_base + tx) cols
            then entry m (row_base + ty) (col_base + tx)
            else 0)
          0 tile_size)
      0 tile_size

-- `accum += tile_a * tile_b`
unfoldable pub accumulate : ℕ → Matrix → Matrix → Matrix → Matrix
accumulate tile_size accum tile_a tile_b =
    tabulate
      (λ ty.
        tabulate
          (λ tx.
            entry accum ty tx
            + sum_range (λ kk. entry tile_a ty kk * entry tile_b kk tx) 0 tile_size)
          0 tile_size)
      0 tile_size

-- the bases `range(0, n, tile_size)`, on fuel
unfoldable pub bases : ℕ → ℕ → ℕ → ℕ → List ℕ
bases zero base n tile_size = []
bases (suc fuel) base n tile_size =
    let rest = bases fuel (base + tile_size) n tile_size in if ltb base n then base ∷ rest else []

pub record Phase : Type 0 where
  pub row_base : ℕ
  pub col_base : ℕ
  pub k_base : ℕ
  pub tile_a : Matrix
  pub tile_b : Matrix

module _ (a b : Matrix) (tile_size : ℕ) where
  -- `rows`, `inner` and `cols`
  abbrev pub rows : ℕ
  rows = length a

  abbrev pub inner : ℕ
  inner = length b

  abbrev pub cols : ℕ
  cols = length (get_or b 0 [])

  unfoldable pub phase : ℕ → ℕ → ℕ → Phase
  unfolding tile
  phase row_base col_base k_base = record {
    row_base = row_base;
    col_base = col_base;
    k_base = k_base;
    tile_a = tile a rows inner tile_size row_base k_base;
    tile_b = tile b inner cols tile_size k_base col_base;
  }

  -- the loop over `k_base`
  unfoldable pub accumulated : ℕ → ℕ → List ℕ → Matrix → Matrix
  unfolding phase accumulate
  accumulated row_base col_base [] accum = accum
  accumulated row_base col_base (k_base ∷ k_bases) accum =
      let p = phase row_base col_base k_base in
      accumulated row_base col_base k_bases (accumulate tile_size accum p.tile_a p.tile_b)

  unfoldable pub tile_phases : ℕ → List ℕ → List ℕ → List Phase
  unfolding phase
  tile_phases row_base [] k_bases = []
  tile_phases row_base (col_base ∷ col_bases) k_bases =
      map (phase row_base col_base) k_bases ++ tile_phases row_base col_bases k_bases

  unfoldable pub all_phases : List ℕ → List ℕ → List ℕ → List Phase
  unfolding tile_phases
  all_phases [] col_bases k_bases = []
  all_phases (row_base ∷ row_bases) col_bases k_bases =
      tile_phases row_base col_bases k_bases ++ all_phases row_bases col_bases k_bases

  -- the stores of one output tile
  unfoldable pub store_tile : ℕ → ℕ → Matrix → Matrix → Matrix
  store_tile row_base col_base accum result =
      tabulate
        (λ row.
          tabulate
            (λ col.
              if leb row_base row
                && ltb row (row_base + tile_size)
                && (leb col_base col && ltb col (col_base + tile_size))
              then entry accum (row - row_base) (col - col_base)
              else entry result row col)
            0 cols)
        0 rows

  unfoldable pub tile_row : ℕ → List ℕ → List ℕ → Matrix → Matrix
  unfolding accumulated store_tile
  tile_row row_base [] k_bases result = result
  tile_row row_base (col_base ∷ col_bases) k_bases result = tile_row row_base col_bases k_bases (
      store_tile row_base col_base
        (accumulated row_base col_base k_bases (zeros tile_size tile_size)) result)

  unfoldable pub tile_rows : List ℕ → List ℕ → List ℕ → Matrix → Matrix
  unfolding tile_row
  tile_rows [] col_bases k_bases result = result
  tile_rows (row_base ∷ row_bases) col_bases k_bases result =
      tile_rows row_bases col_bases k_bases (tile_row row_base col_bases k_bases result)

  -- the result and the trace, for a `tile_size` that is not 0 and a `b` that has a row
  unfoldable pub tiled_matmul : Matrix × List Phase
  unfolding bases tile_rows all_phases zeros
  tiled_matmul =
      let row_bases = bases (rows + 1) 0 rows tile_size in
      let col_bases = bases (cols + 1) 0 cols tile_size in
      let k_bases = bases (inner + 1) 0 inner tile_size in
      (
        tile_rows row_bases col_bases k_bases (zeros rows cols),
        all_phases row_bases col_bases k_bases,
      )
