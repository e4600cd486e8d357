-- ===== src/Algorithms/Traversal/BreadthFirst.antt =====
-- graph_dp_lab.py: the loop of `bfs`, its end and the nodes that it visits.
use netai_devsecops_runbook.Prelude.{
  Bool-cases, Option-cases, length, Dict, contains, contains-append, lookup, Key, ℕ, zero, suc, ◌<◌,
  ◌≡◌, refl, sym, subst, ◌⊎◌, inl, inr, true, false, some, List, [], ◌∷◌, ◌++◌, arith, append-nil,
  append_assoc,
}
use netai_devsecops_runbook.Algorithms.Traversal.{visit_all, bfs_loop, bfs}
use netai_devsecops_runbook.Algorithms.Traversal.Reachability.{
  IsDistinct, IsDistinct-append, weight, weight-visit, weight_one, Reaches, begins, follows,
  IsVisit, misses, AreFollowed, AreFollowed-IsVisit, contains_cases, contains_last, contains_first,
}

module _ {ℓ} {Node : Type ℓ} ⦃e : Key Node⦄ where
  IsDistinct-before :
      (xs : List Node) (y : Node) (ys : List Node)
      → IsDistinct (xs ++ y ∷ ys)
      → contains y xs ≡ false
  IsDistinct-before [] y ys d = refl
  IsDistinct-before (x ∷ xs) y ys (new, d) = ground (
    arith,
    contains-append x xs (y ∷ ys),
    IsDistinct-before xs y ys d,
    e.same_iff x y,
    e.same_iff y x,
  )

  -- what the turn over the neighbors of a node makes of the visited nodes and the queue
  record IsExtended (neighbors done queue : List Node) (after : List Node × List Node)
      : Type ℓ where
    split : after.0 ≡ done ++ after.1
    distinct : IsDistinct after.0
    kept : (n : Node) → contains n (done ++ queue) ≡ true → contains n after.0 ≡ true
    fresh :
        (n : Node)
        → contains n after.0 ≡ true
        → (contains n (done ++ queue) ≡ true) ⊎ (contains n neighbors ≡ true)
    covered : (n : Node) → contains n neighbors ≡ true → contains n after.0 ≡ true

  visit_all-IsExtended :
      (neighbors done queue : List Node)
      → IsDistinct (done ++ queue)
      → IsExtended neighbors done queue (visit_all neighbors (done ++ queue) queue)
  visit_all-IsExtended [] done queue d = record {
    split = refl;
    distinct = d;
    kept = λ n h. h;
    fresh = λ n h. inl h;
    covered = λ n h. cc;
  }
  visit_all-IsExtended (x ∷ neighbors) done queue d =
      elim (Bool-cases (contains x (done ++ queue))) [
        | inl old ↦
            let s = visit_all-IsExtended neighbors done queue d in
            rw old (record {
              split = s.split;
              distinct = s.distinct;
              kept = s.kept;
              fresh = λ n h. elim (s.fresh n h) [ inl m ↦ inl m | inr m ↦ inr (ground arith) ];
              covered = λ n h. elim (contains_first n x neighbors h) [
                | inl here ↦ rw (sym here) (s.kept x old)
                | inr later ↦ s.covered n later
              ];
            })
        | inr new ↦
            let d' : IsDistinct (done ++ (queue ++ x ∷ [])) =
              rw (sym (append_assoc done queue (x ∷ [])))
                (IsDistinct-append (done ++ queue) x d new) in
            let s = visit_all-IsExtended neighbors done (queue ++ x ∷ []) d' in
            let there : contains x (done ++ (queue ++ x ∷ [])) ≡ true = ground (
              arith,
              contains-append x done (queue ++ x ∷ []),
              contains-append x queue (x ∷ []),
              e.same_iff x x,
            ) in
            rw (new, append_assoc done queue (x ∷ []))
              (record {
                split = s.split;
                distinct = s.distinct;
                kept = λ n h. s.kept n (
                    ground (
                      arith,
                      contains-append n done queue,
                      contains-append n done (queue ++ x ∷ []),
                      contains-append n queue (x ∷ []),
                    ));
                fresh = λ n h. elim (s.fresh n h) [
                  | inl m ↦ elim (contains_cases n done (queue ++ x ∷ []) m) [
                    | inl m' ↦ inl (ground (arith, contains-append n done queue))
                    | inr m' ↦ elim (contains_last n x queue m') [
                      | inl waiting ↦ inl (ground (arith, contains-append n done queue))
                      | inr here ↦ inr (ground (arith, e.same_iff x n))
                    ]
                  ]
                  | inr m ↦ inr (ground arith)
                ];
                covered = λ n h. elim (contains_first n x neighbors h) [
                  | inl here ↦ rw (sym here) (s.kept x there)
                  | inr later ↦ s.covered n later
                ];
              })
      ]

module _ {ℓ} {Node : Type ℓ} ⦃e : Key Node⦄ (graph : Dict Node (List Node)) (origin : Node) where
  abbrev one : List Node → ℕ
  one neighbors = 1

  -- the loop: the visited nodes are the order and, after it, the queue
  record IsSearch (fuel : ℕ) (queue order : List Node) : Type ℓ where
    enough : weight one order graph < fuel
    distinct : IsDistinct (order ++ queue)
    sound : (node : Node) → contains node (order ++ queue) ≡ true → Reaches graph origin node
    first : contains origin (order ++ queue) ≡ true
    followed : AreFollowed graph origin order (order ++ queue)

  abbrev turn : List Node → Node → List Node → List Node → List Node × List Node
  turn neighbors node queue order = visit_all neighbors (order ++ node ∷ queue) queue

  visit :
      (fuel : ℕ) (node : Node) (neighbors queue order : List Node)
      → lookup node graph ≡ some neighbors
      → IsSearch (suc fuel) (node ∷ queue) order
      → ((turn neighbors node queue order).0
          ≡ (order ++ node ∷ []) ++ (turn neighbors node queue order).1)
        × IsSearch fuel (turn neighbors node queue order).1 (order ++ node ∷ [])
  visit fuel node neighbors queue order found s =
      let regroup : (order ++ node ∷ []) ++ queue ≡ order ++ node ∷ queue =
        append_assoc order (node ∷ []) queue in
      let new : contains node order ≡ false = IsDistinct-before order node queue s.distinct in
      let reached : Reaches graph origin node =
        s.sound node
          (ground (arith, contains-append node order (node ∷ queue), e.same_iff node node)) in
      let x : IsExtended neighbors (order ++ node ∷ []) queue (turn neighbors node queue order) =
        subst (λ v. IsExtended neighbors (order ++ node ∷ []) queue (visit_all neighbors v queue))
          regroup
          (visit_all-IsExtended neighbors (order ++ node ∷ []) queue (rw regroup s.distinct)) in
      (
        x.split,
        record {
          enough = omega (arith, s.enough, weight-visit one order node neighbors graph found new);
          distinct = rw (sym x.split) x.distinct;
          sound = λ n h. elim (x.fresh n (rw x.split h)) [
            | inl old ↦ s.sound n (rw regroup at old)
            | inr next ↦ follows reached found next
          ];
          first = rw (sym x.split) (x.kept origin (rw regroup s.first));
          followed = λ n h. elim (contains_last n node order h) [
            | inl old ↦
                let (ns, there, all_in) = s.followed n old in
                (ns, there, λ next m. rw (sym x.split) (x.kept next (rw regroup (all_in next m))))
            | inr here ↦ (
              neighbors,
              subst (λ k. lookup k graph ≡ some neighbors) here found,
              λ next m. rw (sym x.split) (x.covered next m),
            )
          ];
        },
      )

  bfs_loop-IsVisit :
      (fuel : ℕ) (queue order : List Node)
      → IsSearch fuel queue order
      → IsVisit graph origin (bfs_loop fuel graph queue (order ++ queue) order)
  unfolding bfs_loop
  bfs_loop-IsVisit fuel [] order s =
      AreFollowed-IsVisit graph origin order (rw (append-nil order) at s.distinct)
        (rw (append-nil order) at s.sound) (rw (append-nil order) at s.first)
        (rw (append-nil order) at s.followed)
  bfs_loop-IsVisit zero (node ∷ queue) order s = absurd (omega (arith, s.enough))
  bfs_loop-IsVisit (suc fuel) (node ∷ queue) order s = elim (Option-cases (lookup node graph)) [
    | inl none_there ↦
        rw (none_there, bfs_loop)
          (misses
            (s.sound node
              (ground (arith, contains-append node order (node ∷ queue), e.same_iff node node)))
            none_there)
    | inr (neighbors, found) ↦
        let (split, t) = visit fuel node neighbors queue order found s in
        rw (found, bfs_loop, split)
          (bfs_loop-IsVisit fuel (turn neighbors node queue order).1 (order ++ node ∷ []) t)
  ]

  -- With more fuel than the graph has keys, `bfs` ends: its order has each node that can be reached
  -- once, and no other, and each of these is a key of the graph; or it raises the KeyError of a node
  -- that can be reached and is no key.
  pub bfs-IsVisit : (fuel : ℕ) → length graph < fuel → IsVisit graph origin (bfs fuel graph origin)
  unfolding bfs
  bfs-IsVisit fuel h = bfs_loop-IsVisit fuel (origin ∷ []) [] (record {
    enough = omega (arith, h, weight_one graph);
    distinct = (refl, tt);
    sound = λ node m. subst (Reaches graph origin) (ground (arith, e.same_iff origin node)) begins;
    first = ground (arith, e.same_iff origin origin);
    followed = λ node m. cc;
  })
