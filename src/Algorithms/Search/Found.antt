-- ===== src/Algorithms/Search/Found.antt =====
-- search_sort_lab.py: the end and the answer of binary search.
use netai_devsecops_runbook.Prelude.{
  ltb, nat_beq, ltb→lt, Bool-cases, length, get_elem?, ℕ, zero, suc, ◌+◌, ◌-◌, ◌/◌, ◌≤◌, ◌<◌, ◌≡◌,
  refl, ◌≢◌, inl, inr, Option, none, some, List, [], ◌∷◌, arith, dec_lt, dec_le, nat_beq_iff, sym,
}
use netai_devsecops_runbook.Algorithms.Search.{Turn, traced, search_loop, binary_search}

-- the keys ascend, by their positions
abbrev pub IsAscending : List ℕ → Type 0
IsAscending keys =
    (i j a b : ℕ) → i ≤ j → get_elem? keys i ≡ some a → get_elem? keys j ≡ some b → a ≤ b

-- the answer to a search in the positions from `lo` below `above`, in at most `turns` turns
pub data IsAnswer (keys : List ℕ) (target lo above turns : ℕ)
    : Option (Option ℕ × List Turn) → Type 0 where
  found :
      {i : ℕ} {trace : List Turn}
      → lo ≤ i
      → i < above
      → get_elem? keys i ≡ some target
      → length trace ≤ turns
      → IsAnswer keys target lo above turns (some (some i, trace))
  missing :
      {trace : List Turn}
      → ((i : ℕ) → lo ≤ i → i < above → get_elem? keys i ≢ some target)
      → length trace ≤ turns
      → IsAnswer keys target lo above turns (some (none, trace))

in_bounds : (keys : List ℕ) (i : ℕ) → i < length keys → (a : ℕ) × (get_elem? keys i ≡ some a)
in_bounds [] i h = absurd (omega arith)
in_bounds (x ∷ keys) zero h = (x, refl)
in_bounds (x ∷ keys) (suc i) h = in_bounds keys i (omega arith)

-- a turn whose key is too small, or too large
to_right :
    (keys : List ℕ) (target lo mid above turns key : ℕ) (turn : Turn)
    {o : Option (Option ℕ × List Turn)}
    → IsAscending keys
    → lo ≤ mid
    → get_elem? keys mid ≡ some key
    → key < target
    → IsAnswer keys target (mid + 1) above turns o
    → IsAnswer keys target lo above (suc turns) (traced turn o)
to_right keys target lo mid above turns key turn up h e small (found a b c d) =
    found (omega arith) b c (omega arith)
to_right keys target lo mid above turns key turn up h e small (missing a d) =
    missing
      (λ i low high here. elim (dec_le i mid) [
        | yes below ↦ absurd (omega (arith, up i mid target key below here e))
        | no beyond ↦ a i (omega arith) high here
      ])
      (omega arith)

to_left :
    (keys : List ℕ) (target lo mid above turns key : ℕ) (turn : Turn)
    {o : Option (Option ℕ × List Turn)}
    → IsAscending keys
    → mid < above
    → get_elem? keys mid ≡ some key
    → target < key
    → IsAnswer keys target lo mid turns o
    → IsAnswer keys target lo above (suc turns) (traced turn o)
to_left keys target lo mid above turns key turn up h e large (found a b c d) =
    found a (omega arith) c (omega arith)
to_left keys target lo mid above turns key turn up h e large (missing a d) =
    missing
      (λ i low high here. elim (dec_lt i mid) [
        | yes below ↦ a i low below here
        | no beyond ↦ absurd (omega (arith, up mid i key target (omega arith) e here))
      ])
      (omega arith)

search_loop-IsAnswer :
    (fuel : ℕ) (keys : List ℕ) (target lo above : ℕ)
    → IsAscending keys
    → above ≤ length keys
    → above - lo < fuel
    → IsAnswer keys target lo above fuel (search_loop fuel keys target lo above)
unfolding search_loop
search_loop-IsAnswer zero keys target lo above up bound h = absurd (omega arith)
search_loop-IsAnswer (suc fuel) keys target lo above up bound h =
    let mid = (lo + (above - 1)) / 2 in
    elim (Bool-cases (ltb lo above)) [
      | inr closed ↦
          rw (closed, search_loop) (missing (λ i low high. absurd (ground arith)) (omega arith))
      | inl runs ↦
          let lo<above = ltb→lt lo above runs in
          let (key, here) = in_bounds keys mid (omega arith) in
          elim (Bool-cases (nat_beq key target)) [
            | inl hit ↦
                rw (runs, here, hit, search_loop)
                  (found (omega arith) (omega arith)
                    (rw (sym ((nat_beq_iff key target).0 hit)) here) (omega arith))
            | inr miss ↦ elim (Bool-cases (ltb key target)) [
              | inl small ↦
                  rw (runs, here, miss, small, search_loop)
                    (to_right keys target lo mid above fuel key _ up (omega arith) here
                      (ltb→lt _ _ small)
                      (search_loop-IsAnswer fuel keys target (mid + 1) above up bound
                        (omega arith)))
              | inr large ↦
                  rw (runs, here, miss, large, search_loop)
                    (to_left keys target lo mid above fuel key _ up (omega arith) here
                      (ground arith)
                      (search_loop-IsAnswer fuel keys target lo mid up (omega arith) (omega arith)))
            ]
          ]
    ]

-- On ascending keys the search ends, with the position of a key that is the target, or with None
-- where no key is; its trace has at most one turn more than there are keys.
pub binary_search-IsAnswer :
    (keys : List ℕ) (target : ℕ)
    → IsAscending keys
    → IsAnswer keys target 0 (length keys) (length keys + 1) (binary_search keys target)
unfolding binary_search
binary_search-IsAnswer keys target up =
    search_loop-IsAnswer (length keys + 1) keys target 0 (length keys) up (omega arith)
      (omega arith)
