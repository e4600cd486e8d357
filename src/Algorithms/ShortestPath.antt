-- ===== src/Algorithms/ShortestPath.antt =====
-- learning/algorithms/examples/graph_dp_lab.py: `dijkstra`. `less` orders the nodes where two
-- entries of the heap have one distance.
use netai_devsecops_runbook.Prelude.{
  ltb, nat_beq, if◌then◌else◌, any, pos_part, ltb_ℤ, ℤ, Dict, lookup, insert, Key, ◌>>=◌, Result, ℕ,
  zero, suc, ◌+◌, Bool, true, false, ◌&&◌, ◌||◌, Option, none, some, List, [], ◌∷◌, ◌++◌, map, pos,
  ok, err,
}

pub data PathError {ℓ} (Node : Type ℓ) : Type ℓ where
  value_error out_of_fuel : PathError Node
  key_error : Node → PathError Node

-- `candidate < dist[neighbor]`, where `none` is infinity
abbrev pub is_shorter : ℕ → Option ℕ → Bool
is_shorter candidate none = true
is_shorter candidate (some distance) = ltb candidate distance

-- `distance != dist[node]`
abbrev pub is_current : ℕ → Option (Option ℕ) → Bool
is_current distance none = false
is_current distance (some none) = false
is_current distance (some (some known)) = nat_beq known distance

module _ {ℓ} {Node : Type ℓ} ⦃e : Key Node⦄ where
  -- `any(weight < 0 ...)` over the edges of all nodes
  abbrev pub has_negative : Dict Node (List (Node × ℤ)) → Bool
  has_negative graph = any (λ entry. any (λ edge. ltb_ℤ edge.1 (pos 0)) entry.1) graph

  -- `heappop`: the least entry, and the heap without it
  abbrev pub pop_least :
      (Node → Node → Bool) → ℕ × Node → List (ℕ × Node) → (ℕ × Node) × List (ℕ × Node)
  pop_least less best [] = (best, [])
  pop_least less best (other ∷ heap) =
      if ltb other.0 best.0 || (nat_beq other.0 best.0 && less other.1 best.1)
      then (let (least, rest) = pop_least less other heap in (least, best ∷ rest))
      else (let (least, rest) = pop_least less best heap in (least, other ∷ rest))

  -- the loop over the edges of one node
  unfoldable pub relax :
      ℕ
      → List (Node × ℤ)
      → Dict Node (Option ℕ) × List (ℕ × Node)
      → Result (PathError Node) (Dict Node (Option ℕ) × List (ℕ × Node))
  relax distance [] s = ok s
  relax distance ((neighbor, weight) ∷ edges) (dist, heap) =
      let candidate = distance + pos_part weight in
      let shorter =
        relax distance edges
          (insert neighbor (some candidate) dist, heap ++ (candidate, neighbor) ∷ []) in
      let kept = relax distance edges (dist, heap) in
      elim (lookup neighbor dist) [
        | none ↦ err (key_error neighbor)
        | some known ↦ if is_shorter candidate known then shorter else kept
      ]

  dijkstra_loop :
      ℕ
      → (Node → Node → Bool)
      → Dict Node (List (Node × ℤ))
      → Dict Node (Option ℕ)
      → List (ℕ × Node)
      → Result (PathError Node) (Dict Node (Option ℕ))
  unfolding relax
  dijkstra_loop fuel less graph dist [] = ok dist
  dijkstra_loop zero less graph dist (entry ∷ heap) = err out_of_fuel
  dijkstra_loop (suc fuel) less graph dist (entry ∷ heap) =
      let ((distance, node), rest) = pop_least less entry heap in
      let skipped = dijkstra_loop fuel less graph dist rest in
      if is_current distance (lookup node dist)
      then elim (lookup node graph) [
        | none ↦ err (key_error node)
        | some edges ↦
            relax distance edges (dist, rest) >>= λ s. dijkstra_loop fuel less graph s.0 s.1
      ]
      else skipped

  unfoldable pub dijkstra :
      ℕ
      → (Node → Node → Bool)
      → Dict Node (List (Node × ℤ))
      → Node
      → Result (PathError Node) (Dict Node (Option ℕ))
  unfolding dijkstra_loop
  dijkstra fuel less graph source =
      if has_negative graph
      then err value_error
      else dijkstra_loop fuel less graph
          (insert source (some 0) (map (λ entry. (entry.0, none)) graph)) ((0, source) ∷ [])
