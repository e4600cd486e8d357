-- ===== src/ComputerArchitecture/MemoryOrder/Buffering.antt =====
-- memory_order_model.py: store buffering under the program order of both threads.
use netai_devsecops_runbook.Prelude.{
  ltb, ltb→lt, Bool-cases, Option-cases, ℕ, ◌<◌, ◌≡◌, refl, sym, ◌∙◌, ◌⊎◌, inl, inr, true, some,
  List, [], ◌∷◌, arith, dec_lt,
}
use netai_devsecops_runbook.ComputerArchitecture.MemoryOrder.{
  Event, store_x, load_y, store_y, load_x, initial, run_seq_cst_store_buffering, position,
  preserves_program_order, program_order,
}
use netai_devsecops_runbook.ComputerArchitecture.MemoryOrder.Cells.{
  read_something, read_after, IsCell-x, IsCell-y,
}

-- a pair that is kept has both its events, in their order
kept_pair :
    (order : List Event) (before after : Event) (pairs : List (Event × Event))
    → preserves_program_order order ((before, after) ∷ pairs) ≡ some true
    → ((i : ℕ) × (j : ℕ) × (position order 0 before ≡ some i)
        × (position order 0 after ≡ some j)
        × (i < j))
      × (preserves_program_order order pairs ≡ some true)
unfolding preserves_program_order
kept_pair order before after pairs h = elim (Option-cases (position order 0 before)) [
  | inl missing ↦ cc (rw (missing, preserves_program_order) at h)
  | inr (i, p) ↦ elim (Option-cases (position order 0 after)) [
    | inl missing ↦ cc (rw (p, missing, preserves_program_order) at h)
    | inr (j, q) ↦ elim (Bool-cases (ltb i j)) [
      | inl less ↦ ((i, j, p, q, ltb→lt i j less), rw (p, q, less, preserves_program_order) at h)
      | inr more ↦ cc (rw (p, q, more, preserves_program_order) at h)
    ]
  ]
]

-- Of every sequence of the four events, with repetitions or without, in which `position` finds the
-- program order of both threads kept: the run returns both reads, and one of them is 1.
pub run_seq_cst_store_buffering-reads :
    (order : List Event)
    → preserves_program_order order program_order ≡ some true
    → (r1 : ℕ) × (r2 : ℕ) × (run_seq_cst_store_buffering order ≡ some (r1, r2))
      × ((r1 ≡ 1) ⊎ (r2 ≡ 1))
unfolding run_seq_cst_store_buffering program_order
run_seq_cst_store_buffering-reads order h =
    let ((a, b, sx, ly, first), rest) = kept_pair order store_x load_y ((store_y, load_x) ∷ []) h in
    let ((c, d, sy, lx, second), _) = kept_pair order store_y load_x [] rest in
    let (r1, e1) =
      read_something store_y load_y (λ m. m.y) (λ m. m.r1) IsCell-y order 0 b initial ly in
    let (r2, e2) =
      read_something store_x load_x (λ m. m.x) (λ m. m.r2) IsCell-x order 0 d initial lx in
    (
      r1,
      r2,
      rw (e1, e2) refl,
      elim (dec_lt c b) [
        | yes early ↦
            let one =
              read_after store_y load_y (λ m. m.y) (λ m. m.r1) IsCell-y order 0 c b initial sy ly
                early in
            inl (cc (sym e1 ∙ one))
        | no late ↦
            let one =
              read_after store_x load_x (λ m. m.x) (λ m. m.r2) IsCell-x order 0 a d initial sx lx
                (omega arith) in
            inr (cc (sym e2 ∙ one))
      ],
    )
