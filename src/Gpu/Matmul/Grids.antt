-- ===== src/Gpu/Matmul/Grids.antt =====
-- Matrices given by a function of row and column.
use netai_devsecops_runbook.Prelude.{
  get_or, replicate, ℕ, zero, suc, ◌+◌, ◌≤◌, ◌<◌, ◌≡◌, refl, ap, ◌∙◌, [], ◌∷◌, arith, zero-add,
}
use netai_devsecops_runbook.Gpu.Matmul.{Matrix, zeros, entry, tabulate}

abbrev pub grid : (ℕ → ℕ → ℕ) → ℕ → ℕ → Matrix
grid f rows cols = tabulate (λ row. tabulate (λ col. f row col) 0 cols) 0 rows

get_or-tabulate {ℓ} :
    {A : Type ℓ} (f : ℕ → A) (i n k : ℕ) (d : A) → k < n → get_or (tabulate f i n) k d ≡ f (i + k)
get_or-tabulate f i zero k d h = absurd (omega arith)
get_or-tabulate f i (suc n) zero d h = ap f (omega arith)
get_or-tabulate f i (suc n) (suc k) d h =
    get_or-tabulate f (i + 1) n k d (omega arith) ∙ ap f (omega arith)

pub entry-grid :
    (f : ℕ → ℕ → ℕ) (rows cols row col : ℕ)
    → row < rows
    → col < cols
    → entry (grid f rows cols) row col ≡ f row col
entry-grid f rows cols row col h k =
    ap (λ r. get_or r col 0) (get_or-tabulate (λ r. tabulate (λ c. f r c) 0 cols) 0 rows row [] h)
    ∙ get_or-tabulate (λ c. f (0 + row) c) 0 cols col 0 k
    ∙ rw (zero-add row, zero-add col) refl

tabulate-eq {ℓ} :
    {A : Type ℓ} (f g : ℕ → A) (i n : ℕ)
    → ((k : ℕ) → i ≤ k → k < i + n → f k ≡ g k)
    → tabulate f i n ≡ tabulate g i n
tabulate-eq f g i zero h = refl
tabulate-eq f g i (suc n) h =
    rw (h i (omega arith) (omega arith))
      (ap (◌∷◌ (g i)) (tabulate-eq f g (i + 1) n (λ k lo hi. h k (omega arith) (omega arith))))

pub grid-eq :
    (f g : ℕ → ℕ → ℕ) (rows cols : ℕ)
    → ((row col : ℕ) → row < rows → col < cols → f row col ≡ g row col)
    → grid f rows cols ≡ grid g rows cols
grid-eq f g rows cols h =
    tabulate-eq (λ row. tabulate (λ col. f row col) 0 cols)
      (λ row. tabulate (λ col. g row col) 0 cols) 0 rows
      (λ row lo hi.
        tabulate-eq (λ col. f row col) (λ col. g row col) 0 cols
          (λ col lo' hi'. h row col (omega arith) (omega arith)))

replicate-tabulate {ℓ} : {A : Type ℓ} (a : A) (i n : ℕ) → replicate n a ≡ tabulate (λ _. a) i n
replicate-tabulate a i zero = refl
replicate-tabulate a i (suc n) = ap (◌∷◌ a) (replicate-tabulate a (i + 1) n)

pub zeros-grid : (rows cols : ℕ) → zeros rows cols ≡ grid (λ _ _. 0) rows cols
unfolding zeros
zeros-grid rows cols =
    ap (replicate rows) (replicate-tabulate 0 0 cols)
    ∙ replicate-tabulate (tabulate (λ _. 0) 0 cols) 0 rows
