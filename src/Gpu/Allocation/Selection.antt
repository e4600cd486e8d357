-- ===== src/Gpu/Allocation/Selection.antt =====
-- allocation_model.py: `itertools.permutations` and the devices that a selection takes.
use netai_devsecops_runbook.Prelude.{
  length, All, All-append, ℕ, zero, suc, ◌≡◌, refl, ap, List, [], ◌∷◌, ◌++◌, map, Perm, perm_middle,
  filter, Bool, Bool-cases, inl, inr, subst, append_assoc,
}
use netai_devsecops_runbook.Prelude.Perm
use netai_devsecops_runbook.Gpu.Allocation.{picks, prefixed, permutations}

All-mapped :
    {A B : Type 0} {P : A → Type 0} (Q : B → Type 0) (f : A → B) (xs : List A)
    → ((x : A) → P x → Q (f x))
    → All P xs
    → All Q (map f xs)
All-mapped Q f [] h k = tt
All-mapped Q f (x ∷ xs) h (k, ks) = (h x k, All-mapped Q f xs h ks)

module _ {A : Type 0} where
  -- the chosen elements are among `xs`, each of them at a place of its own
  abbrev pub IsTaken : List A → List A → Type 0
  IsTaken xs chosen = (others : List A) × Perm (chosen ++ others) xs

  pub IsTaken-trans : (xs ys zs : List A) → IsTaken ys xs → IsTaken zs ys → IsTaken zs xs
  IsTaken-trans xs ys zs (left, p) (out, q) = (
    left ++ out,
    subst (λ l. Perm l zs) (append_assoc xs left out) (Perm.trans (Perm.append_right out p) q),
  )

  pub filter-IsTaken : (p : A → Bool) (xs : List A) → IsTaken xs (filter p xs)
  filter-IsTaken p [] = ([], Perm.nil)
  filter-IsTaken p (x ∷ xs) =
      let (others, q) = filter-IsTaken p xs in
      elim (Bool-cases (p x)) [
        | inl in_it ↦ rw in_it (others, Perm.cons x q)
        | inr out ↦ rw out (x ∷ others, Perm.trans (perm_middle _ _) (Perm.cons x q))
      ]

  IsTaken-cons :
      (x : A) (xs ys chosen : List A)
      → Perm (x ∷ ys) xs
      → IsTaken ys chosen
      → IsTaken xs (x ∷ chosen)
  IsTaken-cons x xs ys chosen p (others, q) = (others, Perm.trans (Perm.cons x q) p)

  -- one element and those that are left of the list
  IsPick : List A → A × List A → Type 0
  IsPick xs p = Perm (p.0 ∷ p.1) xs

  picks-IsPick : (xs : List A) → All (IsPick xs) (picks xs)
  unfolding IsPick
  picks-IsPick [] = tt
  picks-IsPick (x ∷ xs) = (
    Perm.refl (x ∷ xs),
    All-mapped (IsPick (x ∷ xs)) (λ p. (p.0, x ∷ p.1)) (picks xs)
        (λ p h. Perm.trans (Perm.swap x p.0 p.1) (Perm.cons x h)) (picks-IsPick xs),
  )

  -- a selection of a size
  abbrev pub IsSelection : List A → ℕ → List A → Type 0
  IsSelection xs n chosen = IsTaken xs chosen × (length chosen ≡ n)

  prefixed-IsSelection :
      (xs : List A) (n : ℕ) (rest_of : List A → List (List A)) (ps : List (A × List A))
      → ((ys : List A) → All (IsSelection ys n) (rest_of ys))
      → All (IsPick xs) ps
      → All (IsSelection xs (suc n)) (prefixed rest_of ps)
  unfolding IsPick
  prefixed-IsSelection xs n rest_of [] h k = tt
  prefixed-IsSelection xs n rest_of (p ∷ ps) h (q, k) =
      All-append _ (map (◌∷◌ p.0) (rest_of p.1)) (prefixed rest_of ps)
        (All-mapped (IsSelection xs (suc n)) (◌∷◌ p.0) (rest_of p.1)
          (λ chosen (taken, size). (IsTaken-cons p.0 xs p.1 chosen q taken, ap suc size)) (h p.1))
        (prefixed-IsSelection xs n rest_of ps h k)

  pub permutations-IsSelection : (n : ℕ) (xs : List A) → All (IsSelection xs n) (permutations n xs)
  unfolding permutations
  permutations-IsSelection zero xs = (((xs, Perm.refl xs), refl), tt)
  permutations-IsSelection (suc n) xs =
      prefixed-IsSelection xs n (permutations n) (picks xs) (permutations-IsSelection n)
        (picks-IsPick xs)

module _ {A : Type 0} (P : A → Type 0) where
  All-picks : (xs : List A) → All P xs → All (λ p. P p.0 × All P p.1) (picks xs)
  All-picks [] h = tt
  All-picks (x ∷ xs) (h, hs) = (
    (h, hs),
    All-mapped _ (λ p. (p.0, x ∷ p.1)) (picks xs) (λ p (q, qs). (q, (h, qs))) (All-picks xs hs),
  )

  All-prefixed :
      (rest_of : List A → List (List A)) (ps : List (A × List A))
      → ((xs : List A) → All P xs → All (All P) (rest_of xs))
      → All (λ p. P p.0 × All P p.1) ps
      → All (All P) (prefixed rest_of ps)
  All-prefixed rest_of [] h k = tt
  All-prefixed rest_of (p ∷ ps) h ((q, qs), k) =
      All-append _ (map (◌∷◌ p.0) (rest_of p.1)) (prefixed rest_of ps)
        (All-mapped (All P) (◌∷◌ p.0) (rest_of p.1) (λ xs hs. (q, hs)) (h p.1 qs))
        (All-prefixed rest_of ps h k)

  pub All-permutations : (n : ℕ) (xs : List A) → All P xs → All (All P) (permutations n xs)
  unfolding permutations
  All-permutations zero xs h = (tt, tt)
  All-permutations (suc n) xs h =
      All-prefixed (permutations n) (picks xs) (All-permutations n) (All-picks xs h)
