-- ===== src/Algorithms/Traversal/DepthFirst.antt =====
-- graph_dp_lab.py: the loop of `dfs`, its end and the nodes that it visits.
use netai_devsecops_runbook.Prelude.{
  Bool-cases, Option-cases, length, length-append, Dict, contains, contains-append, lookup, Key, ℕ,
  zero, suc, ◌+◌, ◌≤◌, ◌≡◌, inl, inr, true, false, some, List, [], ◌∷◌, ◌++◌, arith, subst,
  append-nil,
}
use netai_devsecops_runbook.Algorithms.Traversal.{dfs_loop, dfs}
use netai_devsecops_runbook.Algorithms.Traversal.Reachability.{
  IsDistinct, IsDistinct-append, weight, weight-visit, Reaches, begins, follows, IsVisit, misses,
  AreFollowed, add_new, AreFollowed-IsVisit, contains_cases, contains_last,
}

module _ {ℓ} {Node : Type ℓ} ⦃e : Key Node⦄ (graph : Dict Node (List Node)) (origin : Node) where
  -- the loop, on a stack and the order, which has the visited nodes
  record IsSearch (fuel : ℕ) (stack order : List Node) : Type ℓ where
    enough : length stack + weight length order graph ≤ fuel
    distinct : IsDistinct order
    sound : (node : Node) → contains node order ≡ true → Reaches graph origin node
    waiting : (node : Node) → contains node stack ≡ true → Reaches graph origin node
    first : contains origin (order ++ stack) ≡ true
    followed : AreFollowed graph origin order (order ++ stack)

  skip :
      (fuel : ℕ) (node : Node) (stack order : List Node)
      → contains node order ≡ true
      → IsSearch (suc fuel) (node ∷ stack) order
      → IsSearch fuel stack order
  skip fuel node stack order old s = record {
    enough = omega (arith, s.enough);
    distinct = s.distinct;
    sound = s.sound;
    waiting = λ n h. s.waiting n (ground arith);
    first = kept origin s.first;
    followed = λ n h.
        let (neighbors, found, all_in) = s.followed n h in
        (neighbors, found, λ next m. kept next (all_in next m));
  }
    where
      kept :
          (n : Node)
          → contains n (order ++ node ∷ stack) ≡ true
          → contains n (order ++ stack) ≡ true
      kept n h = ground (
        arith,
        contains-append n order (node ∷ stack),
        contains-append n order stack,
        e.same_iff node n,
      )

  visit :
      (fuel : ℕ) (node : Node) (neighbors stack order : List Node)
      → contains node order ≡ false
      → lookup node graph ≡ some neighbors
      → IsSearch (suc fuel) (node ∷ stack) order
      → IsSearch fuel (neighbors ++ stack) (order ++ node ∷ [])
  visit fuel node neighbors stack order new found s =
      let reached : Reaches graph origin node =
        s.waiting node (ground (arith, e.same_iff node node)) in
      record {
        enough = omega (
          arith,
          s.enough,
          length-append neighbors stack,
          weight-visit length order node neighbors graph found new,
        );
        distinct = IsDistinct-append order node s.distinct new;
        sound = λ n h. elim (contains_last n node order h) [
          | inl old ↦ s.sound n old
          | inr here ↦ subst (Reaches graph origin) here reached
        ];
        waiting = λ n h. elim (contains_cases n neighbors stack h) [
          | inl next ↦ follows reached found next
          | inr below ↦ s.waiting n (ground arith)
        ];
        first = moved origin s.first;
        followed = λ n h. elim (contains_last n node order h) [
          | inl old ↦
              let (ns, there, all_in) = s.followed n old in
              (ns, there, λ next m. moved next (all_in next m))
          | inr here ↦ (
            neighbors,
            subst (λ k. lookup k graph ≡ some neighbors) here found,
            λ next m. ground (
              arith,
              contains-append next (order ++ node ∷ []) (neighbors ++ stack),
              contains-append next neighbors stack,
            ),
          )
        ];
      }
    where
      moved :
          (n : Node)
          → contains n (order ++ node ∷ stack) ≡ true
          → contains n ((order ++ node ∷ []) ++ (neighbors ++ stack)) ≡ true
      moved n h = ground (
        arith,
        contains-append n order (node ∷ stack),
        contains-append n (order ++ node ∷ []) (neighbors ++ stack),
        contains-append n order (node ∷ []),
        contains-append n neighbors stack,
      )

  dfs_loop-IsVisit :
      (fuel : ℕ) (stack order : List Node)
      → IsSearch fuel stack order
      → IsVisit graph origin (dfs_loop fuel graph stack order order)
  unfolding dfs_loop
  dfs_loop-IsVisit fuel [] order s =
      AreFollowed-IsVisit graph origin order s.distinct s.sound (rw (append-nil order) at s.first)
        (rw (append-nil order) at s.followed)
  dfs_loop-IsVisit zero (node ∷ stack) order s = absurd (omega (arith, s.enough))
  dfs_loop-IsVisit (suc fuel) (node ∷ stack) order s = elim (Bool-cases (contains node order)) [
    | inl old ↦
        rw (old, dfs_loop) (dfs_loop-IsVisit fuel stack order (skip fuel node stack order old s))
    | inr new ↦ elim (Option-cases (lookup node graph)) [
      | inl none_there ↦
          rw (new, none_there, dfs_loop)
            (misses (s.waiting node (ground (arith, e.same_iff node node))) none_there)
      | inr (neighbors, found) ↦
          rw (new, found, dfs_loop, add_new node order new)
            (dfs_loop-IsVisit fuel (neighbors ++ stack) (order ++ node ∷ [])
              (visit fuel node neighbors stack order new found s))
    ]
  ]

  -- With as much fuel as there are neighbors in the graph and one more, `dfs` ends: its order has each
  -- node that can be reached once, and no other, and each of these is a key of the graph; or it
  -- raises the KeyError of a node that can be reached and is no key.
  pub dfs-IsVisit :
      (fuel : ℕ) → weight length [] graph + 1 ≤ fuel → IsVisit graph origin (dfs fuel graph origin)
  unfolding dfs
  dfs-IsVisit fuel h = dfs_loop-IsVisit fuel (origin ∷ []) [] (record {
    enough = omega (arith, h);
    distinct = tt;
    sound = λ node m. cc;
    waiting =
        λ node m. subst (Reaches graph origin) (ground (arith, e.same_iff origin node)) begins;
    first = ground (arith, e.same_iff origin origin);
    followed = λ node m. cc;
  })
