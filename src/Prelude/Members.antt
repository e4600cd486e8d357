-- ===== src/Prelude/Members.antt =====
-- Membership as data, and reading a list after a write.
use mathlib.Core.Path.{◌≡◌, refl}
use mathlib.Core.Logic.{◌⊎◌, ◌↔◌, ⊎_elim}
use mathlib.Core.List.{List, [], ◌∷◌, ◌++◌, Memᴰ}
use mathlib.Core.List.Memᴰ
use mathlib.Core.Bool.{true, ◌&&◌}
use Prim.Native.Nat.{ℕ, zero, suc, ◌<◌}
use native.Mathlib.Omega.{arith}
use netai_devsecops_runbook.Prelude.Tests.{nat_beq, ltb, if◌then◌else◌}
use netai_devsecops_runbook.Prelude.Lists.{length, get_or, set, replicate}
use netai_devsecops_runbook.Prelude.Maps.{Key, contains}

module _ {ℓ} {A : Type ℓ} where
  pub Memᴰ-cons : (a x : A) (xs : List A) → Memᴰ a (x ∷ xs) ↔ ((a ≡ x) ⊎ Memᴰ a xs)
  Memᴰ-cons a x xs = (Memᴰ.cases_cons, ⊎_elim Memᴰ.head Memᴰ.tail)

  pub Memᴰ-append : (a : A) (xs ys : List A) → Memᴰ a (xs ++ ys) ↔ (Memᴰ a xs ⊎ Memᴰ a ys)
  Memᴰ-append a xs ys = (Memᴰ.append_cases xs, ⊎_elim (Memᴰ.append_left _) (Memᴰ.append_right xs))

  pub get_or-append_lt :
      (xs ys : List A) (i : ℕ) (d : A) → i < length xs → get_or (xs ++ ys) i d ≡ get_or xs i d
  get_or-append_lt [] ys i d h = absurd (omega arith)
  get_or-append_lt (x ∷ xs) ys zero d h = refl
  get_or-append_lt (x ∷ xs) ys (suc i) d h = get_or-append_lt xs ys i d (omega arith)

  pub get_or-append_last : (xs : List A) (a d : A) → get_or (xs ++ a ∷ []) (length xs) d ≡ a
  get_or-append_last [] a d = refl
  get_or-append_last (x ∷ xs) a d = get_or-append_last xs a d

  pub get_or-set :
      (xs : List A) (i j : ℕ) (v d : A)
      → get_or (set xs i v) j d ≡ (if nat_beq i j && ltb i (length xs) then v else get_or xs j d)
  get_or-set [] i j v d = ground arith
  get_or-set (x ∷ xs) zero zero v d = ground arith
  get_or-set (x ∷ xs) zero (suc j) v d = ground arith
  get_or-set (x ∷ xs) (suc i) zero v d = ground arith
  get_or-set (x ∷ xs) (suc i) (suc j) v d = ground (arith, get_or-set xs i j v d)

  pub get_or-replicate : (n i : ℕ) (a : A) → get_or (replicate n a) i a ≡ a
  get_or-replicate zero i a = refl
  get_or-replicate (suc n) zero a = refl
  get_or-replicate (suc n) (suc i) a = get_or-replicate n i a

-- the test for membership is right
pub contains_iff {ℓ} :
    {K : Type ℓ} ⦃e : Key K⦄ (k : K) (s : List K) → (contains k s ≡ true) ↔ Memᴰ k s
contains_iff ⦃e⦄ k [] = (λ h. absurd (ground arith), λ m. absurd (Memᴰ.not-nil m))
contains_iff ⦃e⦄ k (j ∷ s) = ground (arith, e.same_iff j k, contains_iff k s, Memᴰ-cons k j s)
