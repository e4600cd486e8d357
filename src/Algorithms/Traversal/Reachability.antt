-- ===== src/Algorithms/Traversal/Reachability.antt =====
-- What a traversal of a graph is to visit, and when it ends.
use netai_devsecops_runbook.Prelude.{
  if◌then◌else◌, Bool-cases, length, ◌==◌, Dict, contains, contains-append, lookup, Key, ℕ, ◌+◌,
  ◌≤◌, ◌≡◌, refl, ◌≢◌, inl, inr, true, false, none, some, List, [], ◌∷◌, ◌++◌, arith, ◌⊎◌, add,
}
use netai_devsecops_runbook.Algorithms.Traversal.{Walk, finished, key_error}

module _ {ℓ} {Node : Type ℓ} ⦃e : Key Node⦄ where
  abbrev pub IsDistinct : List Node → Type 0
  IsDistinct [] = Unit
  IsDistinct (x ∷ xs) = (contains x xs ≡ false) × IsDistinct xs

  pub IsDistinct-append :
      (xs : List Node) (x : Node)
      → IsDistinct xs
      → contains x xs ≡ false
      → IsDistinct (xs ++ x ∷ [])
  IsDistinct-append [] x d h = (refl, tt)
  IsDistinct-append (y ∷ xs) x (new, d) h = (
    ground (arith, contains-append y xs (x ∷ []), e.same_iff y x, e.same_iff x y),
    IsDistinct-append xs x d (ground arith),
  )

  pub contains_cases :
      (n : Node) (xs ys : List Node)
      → contains n (xs ++ ys) ≡ true
      → (contains n xs ≡ true) ⊎ (contains n ys ≡ true)
  contains_cases n xs ys h = ground (arith, contains-append n xs ys)

  pub contains_first :
      (n x : Node) (xs : List Node) → contains n (x ∷ xs) ≡ true → (x ≡ n) ⊎ (contains n xs ≡ true)
  contains_first n x xs h = ground (arith, e.same_iff x n)

  pub add_new : (x : Node) (xs : List Node) → contains x xs ≡ false → add x xs ≡ xs ++ x ∷ []
  add_new x xs h = rw h refl

  pub contains_last :
      (n x : Node) (xs : List Node)
      → contains n (xs ++ x ∷ []) ≡ true
      → (contains n xs ≡ true) ⊎ (x ≡ n)
  contains_last n x xs h = ground (arith, contains-append n xs (x ∷ []), e.same_iff x n)

  -- a sum over the entries whose key is not in `visited`
  abbrev pub weight : (List Node → ℕ) → List Node → Dict Node (List Node) → ℕ
  weight f visited [] = 0
  weight f visited ((node, neighbors) ∷ graph) =
      let rest = weight f visited graph in
      if contains node visited then rest else f neighbors + rest

  weight-le :
      (f : List Node → ℕ) (visited : List Node) (node : Node) (graph : Dict Node (List Node))
      → weight f (visited ++ node ∷ []) graph ≤ weight f visited graph
  weight-le f visited node [] = omega arith
  weight-le f visited node ((k, neighbors) ∷ graph) =
      ground (arith, contains-append k visited (node ∷ []), weight-le f visited node graph)

  -- a key that is visited now gives up its share
  pub weight-visit :
      (f : List Node → ℕ) (visited : List Node) (node : Node) (neighbors : List Node)
      (graph : Dict Node (List Node))
      → lookup node graph ≡ some neighbors
      → contains node visited ≡ false
      → weight f (visited ++ node ∷ []) graph + f neighbors ≤ weight f visited graph
  weight-visit f visited node neighbors [] h new = cc
  weight-visit f visited node neighbors ((k, ns) ∷ graph) h new = elim (Bool-cases (k == node)) [
    | inl here ↦
        let k_node : k ≡ node = (e.same_iff k node).0 here in
        let shares : ns ≡ neighbors = cc (rw here at h) in
        let in_k : contains k (visited ++ node ∷ []) ≡ true =
          ground (arith, contains-append k visited (node ∷ []), e.same_iff node k) in
        let new_k : contains k visited ≡ false = rw k_node new in
        rw (in_k, new_k, shares) (omega (arith, weight-le f visited node graph))
    | inr there ↦ ground (
      arith,
      contains-append k visited (node ∷ []),
      e.same_iff node k,
      e.same_iff k node,
      weight-visit f visited node neighbors graph (rw there at h) new,
    )
  ]

  -- no key is visited yet
  pub weight_one : (graph : Dict Node (List Node)) → weight (λ neighbors. 1) [] graph ≡ length graph
  weight_one [] = refl
  weight_one ((k, ns) ∷ graph) = omega (arith, weight_one graph)

module _ {ℓ} {Node : Type ℓ} ⦃e : Key Node⦄ (graph : Dict Node (List Node)) (origin : Node) where
  pub data Reaches : Node → Type ℓ where
    begins : Reaches origin
    follows :
        {node next : Node} {neighbors : List Node}
        → Reaches node
        → lookup node graph ≡ some neighbors
        → contains next neighbors ≡ true
        → Reaches next

  -- a traversal visits every node that can be reached, each once and no other; or it meets one that
  -- is no key
  pub data IsVisit : Walk Node → Type ℓ where
    visits :
        {order : List Node}
        → IsDistinct order
        → ((node : Node) → contains node order ≡ true → Reaches node)
        → ((node : Node) → Reaches node → contains node order ≡ true)
        → ((node : Node) → Reaches node → lookup node graph ≢ none)
        → IsVisit (finished order)
    misses : {node : Node} → Reaches node → lookup node graph ≡ none → IsVisit (key_error node)

  -- the neighbors of the nodes of `order` are in `seen`
  abbrev pub AreFollowed : List Node → List Node → Type ℓ
  AreFollowed order seen =
      (node : Node)
      → contains node order ≡ true
      → (neighbors : List Node) × (lookup node graph ≡ some neighbors)
        × ((next : Node) → contains next neighbors ≡ true → contains next seen ≡ true)

  -- with nothing left to follow, the order is a visit
  pub AreFollowed-IsVisit :
      (order : List Node)
      → IsDistinct order
      → ((node : Node) → contains node order ≡ true → Reaches node)
      → contains origin order ≡ true
      → AreFollowed order order
      → IsVisit (finished order)
  AreFollowed-IsVisit order distinct sound first followed =
      visits distinct sound complete
        (λ node r none_there. let (neighbors, found, _) = followed node (complete node r) in cc)
    where
      complete : (node : Node) → Reaches node → contains node order ≡ true
      complete node begins = first
      complete next (follows {node = previous} {neighbors = neighbors} r found h) =
          let (neighbors', found', all_in) = followed previous (complete previous r) in
          let shared : neighbors' ≡ neighbors = cc in all_in next (rw shared h)
