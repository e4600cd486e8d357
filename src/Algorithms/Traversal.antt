-- ===== src/Algorithms/Traversal.antt =====
-- learning/algorithms/examples/graph_dp_lab.py: `bfs` and `dfs`.
pub mod Reachability
pub mod DepthFirst
pub mod BreadthFirst
use netai_devsecops_runbook.Prelude.{
  if◌then◌else◌, Dict, contains, add, lookup, Key, ℕ, zero, suc, not, none, some, List, [], ◌∷◌,
  ◌++◌,
}

-- what a run gives: the order, a KeyError, or no end within the fuel
pub data Walk {ℓ} (Node : Type ℓ) : Type ℓ where
  finished : List Node → Walk Node
  key_error : Node → Walk Node
  out_of_fuel : Walk Node

-- the dict of a graph, from a node to its neighbors; a missing key is a KeyError, here `none`
module _ {ℓ} {Node : Type ℓ} ⦃e : Key Node⦄ where
  -- `visited` and the queue (its front first), over the neighbors of one node
  abbrev pub visit_all : List Node → List Node → List Node → List Node × List Node
  visit_all [] visited queue = (visited, queue)
  visit_all (neighbor ∷ neighbors) visited queue =
      if not (contains neighbor visited)
      then visit_all neighbors (add neighbor visited) (queue ++ neighbor ∷ [])
      else visit_all neighbors visited queue

  -- the loop on fuel
  bfs_loop : ℕ → Dict Node (List Node) → List Node → List Node → List Node → Walk Node
  bfs_loop fuel graph [] visited order = finished order
  bfs_loop zero graph (node ∷ queue) visited order = out_of_fuel
  bfs_loop (suc fuel) graph (node ∷ queue) visited order = elim (lookup node graph) [
    | none ↦ key_error node
    | some neighbors ↦
        let (visited', queue') = visit_all neighbors visited queue in
        bfs_loop fuel graph queue' visited' (order ++ node ∷ [])
  ]

  unfoldable pub bfs : ℕ → Dict Node (List Node) → Node → Walk Node
  unfolding bfs_loop
  bfs fuel graph start = bfs_loop fuel graph (start ∷ []) (start ∷ []) []

  -- the stack, its top first: `extend(reversed(xs))` puts `xs` on top
  dfs_loop : ℕ → Dict Node (List Node) → List Node → List Node → List Node → Walk Node
  dfs_loop fuel graph [] visited order = finished order
  dfs_loop zero graph (node ∷ stack) visited order = out_of_fuel
  dfs_loop (suc fuel) graph (node ∷ stack) visited order =
      let skipped = dfs_loop fuel graph stack visited order in
      if contains node visited then skipped else elim (lookup node graph) [
        | none ↦ key_error node
        | some neighbors ↦
            dfs_loop fuel graph (neighbors ++ stack) (add node visited) (order ++ node ∷ [])
      ]

  unfoldable pub dfs : ℕ → Dict Node (List Node) → Node → Walk Node
  unfolding dfs_loop
  dfs fuel graph start = dfs_loop fuel graph (start ∷ []) [] []
