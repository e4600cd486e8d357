-- ===== src/Prelude/Maps.antt =====
-- Python's `dict` and `set` over any type of keys with a Boolean equality. A dict is an
-- association list in order of insertion; a new value for a key that is present keeps its place.
use Prim.Native.Nat.{ℕ}
use Prim.Native.String.{String}
use mathlib.Core.Path.{◌≡◌, refl}
use mathlib.Core.Logic.{◌↔◌, ◌≢◌}
use mathlib.Core.Bool.{Bool, true, false, ◌&&◌}
use mathlib.Core.List.{List, [], ◌∷◌, ◌++◌}
use mathlib.Core.Option.{Option, none, some}
use native.Mathlib.Omega.{arith}
use text.Mathlib.Text.{◌==◌ as str_eq}
use text.Mathlib.TextEquality.{eq_iff}
use netai_devsecops_runbook.Prelude.Tests.{nat_beq, nat_beq_iff, if◌then◌else◌}

-- what a type of keys needs: a test for equality that is right
pub record Key {ℓ} (A : Type ℓ) : Type ℓ where
  pub same : A → A → Bool
  pub same_iff : (x y : A) → (same x y ≡ true) ↔ (x ≡ y)

instance abbrev pub string_key : Key String
string_key = record { same = str_eq; same_iff = eq_iff }

instance abbrev pub nat_key : Key ℕ
nat_key = record { same = nat_beq; same_iff = nat_beq_iff }

infix 50 ◌==◌
abbrev pub ◌==◌ {ℓ} : {A : Type ℓ} ⦃e : Key A⦄ → A → A → Bool
◌==◌ ⦃e⦄ = e.same

abbrev pub Dict {ℓ κ} : Type ℓ → Type κ → Type (ℓ ⊔ κ)
Dict K V = List (K × V)

module _ {ℓ} {K : Type ℓ} ⦃e : Key K⦄ where
  pub ==_refl : (a : K) → (a == a) ≡ true
  ==_refl a = (e.same_iff a a).1 refl

  pub ==_ne : (a b : K) → a ≢ b → (a == b) ≡ false
  ==_ne a b h = ground (arith, e.same_iff a b)

  pub ==_eq : (a b : K) → (a == b) ≡ true → a ≡ b
  ==_eq a b = (e.same_iff a b).0

  -- `k in s`
  abbrev pub contains : K → List K → Bool
  contains k [] = false
  contains k (j ∷ s) = if j == k then true else contains k s

  -- `s.add(k)`
  abbrev pub add : K → List K → List K
  add k s = if contains k s then s else s ++ k ∷ []

  pub contains-append :
      (k : K) (s t : List K) → contains k (s ++ t) ≡ (if contains k s then true else contains k t)
  contains-append k [] t = refl
  contains-append k (j ∷ s) t = ground (arith, contains-append k s t)

  pub contains-add :
      (k j : K) (s : List K) → contains j (add k s) ≡ (if k == j then true else contains j s)
  contains-add k j s = ground (arith, e.same_iff k j, contains-append j s (k ∷ []))

module _ {ℓ κ} {K : Type ℓ} {V : Type κ} ⦃e : Key K⦄ where
  -- `d.get(k)`
  abbrev pub lookup : K → Dict K V → Option V
  lookup k [] = none
  lookup k ((j, v) ∷ d) = if j == k then some v else lookup k d

  -- `d[k] = v`
  abbrev pub insert : K → V → Dict K V → Dict K V
  insert k v [] = (k, v) ∷ []
  insert k v ((j, w) ∷ d) = if j == k then (k, v) ∷ d else (j, w) ∷ insert k v d

  -- `del d[k]`
  abbrev pub erase : K → Dict K V → Dict K V
  erase k [] = []
  erase k ((j, w) ∷ d) = if j == k then erase k d else (j, w) ∷ erase k d

  pub lookup-insert :
      (k j : K) (v : V) (d : Dict K V)
      → lookup j (insert k v d) ≡ (if k == j then some v else lookup j d)
  lookup-insert k j v [] = refl
  lookup-insert k j v ((i, w) ∷ d) =
      ground (arith, e.same_iff k j, e.same_iff i k, e.same_iff i j, lookup-insert k j v d)

  pub lookup-erase :
      (k j : K) (d : Dict K V) → lookup j (erase k d) ≡ (if k == j then none else lookup j d)
  lookup-erase k j [] = ground arith
  lookup-erase k j ((i, w) ∷ d) =
      ground (arith, e.same_iff k j, e.same_iff i k, e.same_iff i j, lookup-erase k j d)

-- texts and paths as keys
abbrev pub list_beq {ℓ} : {A : Type ℓ} ⦃e : Key A⦄ → List A → List A → Bool
list_beq [] [] = true
list_beq [] (y ∷ ys) = false
list_beq (x ∷ xs) [] = false
list_beq (x ∷ xs) (y ∷ ys) = x == y && list_beq xs ys

pub list_beq_iff {ℓ} :
    {A : Type ℓ} ⦃e : Key A⦄ (xs ys : List A) → (list_beq xs ys ≡ true) ↔ (xs ≡ ys)
list_beq_iff [] [] = (λ h. refl, λ h. refl)
list_beq_iff [] (y ∷ ys) = (λ h. cc, λ h. cc)
list_beq_iff (x ∷ xs) [] = (λ h. cc, λ h. cc)
list_beq_iff ⦃e⦄ (x ∷ xs) (y ∷ ys) = ground (arith, e.same_iff x y, list_beq_iff xs ys)

instance abbrev pub list_key {ℓ} : {A : Type ℓ} ⦃e : Key A⦄ → Key (List A)
list_key = record { same = list_beq; same_iff = list_beq_iff }
