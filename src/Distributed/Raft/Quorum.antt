-- ===== src/Distributed/Raft/Quorum.antt =====
-- raft_commit_model.py: the commit index, and the majorities that store it.
use netai_devsecops_runbook.Prelude.{
  ℕ, ◌+◌, ◌≤◌, ◌<◌, ◌≡◌, refl, ◌∙◌, ◌⊎◌, inl, inr, List, [], ◌∷◌, Bool, true, ◌&&◌, arith, length,
  map, count, All, contains, contains-append, nat_key, sorted_set_down, sorted_set_down-IsDown,
  contains-sorted_set_down, IsDown, dec_le,
}
use netai_devsecops_runbook.Distributed.Raft.{
  Entry, Logs, majority, stores, copies, indices, first_majority, committed_index,
}

module _ {ℓ} {A : Type ℓ} (p q : A → Bool) where
  pub count_overlap :
      (xs : List A) → count p xs + count q xs ≤ length xs + count (λ x. p x && q x) xs
  count_overlap [] = omega arith
  count_overlap (x ∷ xs) = ground (arith, count_overlap xs)

stores-contains :
    (term j : ℕ) (log : List Entry)
    → stores term j log ≡ true
    → contains j (map (λ e. e.index) log) ≡ true
stores-contains term j [] h = ground arith
stores-contains term j (e ∷ log) h = ground (arith, stores-contains term j log)

copies-contains :
    (term j : ℕ) (logs : Logs) → 0 < copies logs term j → contains j (indices logs) ≡ true
unfolding copies indices
copies-contains term j [] h = absurd (omega arith)
copies-contains term j ((name, log) ∷ logs) h = ground (
  arith,
  contains-append j (map (λ e. e.index) log) (indices logs),
  stores-contains term j log,
  copies-contains term j logs,
)

contains-le : (j i : ℕ) (xs : List ℕ) → All (λ y. y < i) xs → contains j xs ≡ true → j < i
contains-le j i [] h c = ground arith
contains-le j i (x ∷ xs) h c = ground (arith, contains-le j i xs h.1)

module _ (logs : Logs) (term : ℕ) where
  majority_pos : 0 < majority logs
  unfolding majority
  majority_pos = omega arith

  -- two majorities of the same nodes share a node
  pub majorities_overlap : length logs < majority logs + majority logs
  unfolding majority
  majorities_overlap = omega arith

  first_majority_lem :
      (candidates : List ℕ)
      → (first_majority logs term candidates ≡ 0)
        ⊎ (majority logs ≤ copies logs term (first_majority logs term candidates))
  unfolding first_majority
  first_majority_lem [] = inl refl
  first_majority_lem (i ∷ candidates) = ground (arith, first_majority_lem candidates)

  first_majority-largest :
      (candidates : List ℕ) (j : ℕ)
      → IsDown candidates
      → contains j candidates ≡ true
      → majority logs ≤ copies logs term j
      → j ≤ first_majority logs term candidates
  unfolding first_majority
  first_majority-largest [] j d c m = ground arith
  first_majority-largest (i ∷ candidates) j d c m =
      ground (arith, first_majority-largest candidates j d.1, contains-le j i candidates d.0)

  pub committed_index-IsMajority :
      (committed_index logs term ≡ 0)
      ⊎ (majority logs ≤ copies logs term (committed_index logs term))
  unfolding committed_index
  committed_index-IsMajority = first_majority_lem (sorted_set_down (indices logs))

  majority-le-committed_index :
      (j : ℕ) → majority logs ≤ copies logs term j → j ≤ committed_index logs term
  unfolding committed_index
  majority-le-committed_index j m =
      first_majority-largest (sorted_set_down (indices logs)) j
        (sorted_set_down-IsDown (indices logs))
        (contains-sorted_set_down j (indices logs)
          ∙ copies-contains term j logs (omega (arith, majority_pos)))
        m

  -- The commit index is 0 or stored in the current term by a majority, and an index that is larger
  -- is stored in the current term by fewer than a majority.
  pub committed_index-largest :
      (j : ℕ)
      → ((committed_index logs term ≡ 0)
          ⊎ (majority logs ≤ copies logs term (committed_index logs term)))
        × ((j ≤ committed_index logs term) ⊎ (copies logs term j < majority logs))
  committed_index-largest j = (
    committed_index-IsMajority,
    elim (dec_le (majority logs) (copies logs term j)) [
      | yes m ↦ inl (majority-le-committed_index j m)
      | no few ↦ inr (omega arith)
    ],
  )
