-- ===== src/Prelude/Sorting.antt =====
-- Python's `sorted`: stably by a numeric key, and on a set of numbers in either direction.
use Prim.Native.Nat.{ℕ, ◌≤◌, ◌<◌}
use mathlib.Core.Logic.{inl, inr}
use mathlib.Core.Path.{◌≡◌, refl}
use mathlib.Core.Bool.{Bool}
use mathlib.Core.List.{List, [], ◌∷◌}
use native.Mathlib.Omega.{arith}
use netai_devsecops_runbook.Prelude.Tests.{
  ltb, leb, ltb→lt, leb→le, not_leb→lt, if◌then◌else◌, Bool-cases,
}
use netai_devsecops_runbook.Prelude.Lists.{All, All-map, count}
use netai_devsecops_runbook.Prelude.Maps.{contains, nat_key}

module _ {ℓ} {A : Type ℓ} (key : A → ℕ) where
  abbrev pub insert_by : A → List A → List A
  insert_by x [] = x ∷ []
  insert_by x (y ∷ ys) = if leb (key x) (key y) then x ∷ y ∷ ys else y ∷ insert_by x ys

  -- `sorted(xs, key=key)`
  abbrev pub sorted_by : List A → List A
  sorted_by [] = []
  sorted_by (x ∷ xs) = insert_by x (sorted_by xs)

  pub count-insert_by :
      (p : A → Bool) (x : A) (xs : List A) → count p (insert_by x xs) ≡ count p (x ∷ xs)
  count-insert_by p x [] = refl
  count-insert_by p x (y ∷ ys) = ground (arith, count-insert_by p x ys)

  -- sorting keeps how often a test holds
  pub count-sorted_by : (p : A → Bool) (xs : List A) → count p (sorted_by xs) ≡ count p xs
  count-sorted_by p [] = refl
  count-sorted_by p (x ∷ xs) =
      ground (arith, count-insert_by p x (sorted_by xs), count-sorted_by p xs)

  abbrev pub IsSortedBy : List A → Type 0
  IsSortedBy [] = Unit
  IsSortedBy (x ∷ xs) = All (λ y. key x ≤ key y) xs × IsSortedBy xs

  pub All-insert_by {κ} :
      (P : A → Type κ) (x : A) (xs : List A) → P x → All P xs → All P (insert_by x xs)
  All-insert_by P x [] h hs = (h, tt)
  All-insert_by P x (y ∷ ys) h hs = elim (Bool-cases (leb (key x) (key y))) [
    | inl le ↦ rw le (h, hs)
    | inr gt ↦ rw gt (hs.0, All-insert_by P x ys h hs.1)
  ]

  -- what holds of all elements holds of all after sorting
  pub All-sorted_by {κ} : (P : A → Type κ) (xs : List A) → All P xs → All P (sorted_by xs)
  All-sorted_by P [] h = tt
  All-sorted_by P (x ∷ xs) h = All-insert_by P x (sorted_by xs) h.0 (All-sorted_by P xs h.1)

  insert_by-IsSortedBy : (x : A) (xs : List A) → IsSortedBy xs → IsSortedBy (insert_by x xs)
  insert_by-IsSortedBy x [] h = (tt, tt)
  insert_by-IsSortedBy x (y ∷ ys) h = elim (Bool-cases (leb (key x) (key y))) [
    | inl le ↦ rw le ((leb→le _ _ le, All-map (λ z below. omega (arith, leb→le _ _ le)) ys h.0), h)
    | inr gt ↦ rw gt (
      All-insert_by (λ z. key y ≤ key z) x ys (omega (arith, not_leb→lt _ _ gt)) h.0,
      insert_by-IsSortedBy x ys h.1,
    )
  ]

  pub sorted_by-IsSortedBy : (xs : List A) → IsSortedBy (sorted_by xs)
  sorted_by-IsSortedBy [] = tt
  sorted_by-IsSortedBy (x ∷ xs) = insert_by-IsSortedBy x (sorted_by xs) (sorted_by-IsSortedBy xs)

-- `sorted(s)` of a set of numbers that is given by a list, ascending
abbrev pub insert_up : ℕ → List ℕ → List ℕ
insert_up x [] = x ∷ []
insert_up x (y ∷ ys) =
    if ltb x y then x ∷ y ∷ ys else if ltb y x then y ∷ insert_up x ys else y ∷ ys

abbrev pub sorted_set : List ℕ → List ℕ
sorted_set [] = []
sorted_set (x ∷ xs) = insert_up x (sorted_set xs)

-- `sorted(s, reverse=True)`
abbrev pub insert_down : ℕ → List ℕ → List ℕ
insert_down x [] = x ∷ []
insert_down x (y ∷ ys) =
    if ltb y x then x ∷ y ∷ ys else if ltb x y then y ∷ insert_down x ys else y ∷ ys

abbrev pub sorted_set_down : List ℕ → List ℕ
sorted_set_down [] = []
sorted_set_down (x ∷ xs) = insert_down x (sorted_set_down xs)

pub contains-insert_up : (a x : ℕ) (xs : List ℕ) → contains a (insert_up x xs) ≡ contains a (x ∷ xs)
contains-insert_up a x [] = refl
contains-insert_up a x (y ∷ ys) = ground (arith, contains-insert_up a x ys)

pub contains-sorted_set : (a : ℕ) (xs : List ℕ) → contains a (sorted_set xs) ≡ contains a xs
contains-sorted_set a [] = refl
contains-sorted_set a (x ∷ xs) =
    ground (arith, contains-insert_up a x (sorted_set xs), contains-sorted_set a xs)

pub contains-insert_down :
    (a x : ℕ) (xs : List ℕ) → contains a (insert_down x xs) ≡ contains a (x ∷ xs)
contains-insert_down a x [] = refl
contains-insert_down a x (y ∷ ys) = ground (arith, contains-insert_down a x ys)

pub contains-sorted_set_down :
    (a : ℕ) (xs : List ℕ) → contains a (sorted_set_down xs) ≡ contains a xs
contains-sorted_set_down a [] = refl
contains-sorted_set_down a (x ∷ xs) =
    ground (arith, contains-insert_down a x (sorted_set_down xs), contains-sorted_set_down a xs)

-- strictly ascending, strictly descending
abbrev pub IsUp : List ℕ → Type 0
IsUp [] = Unit
IsUp (x ∷ xs) = All (λ y. x < y) xs × IsUp xs

abbrev pub IsDown : List ℕ → Type 0
IsDown [] = Unit
IsDown (x ∷ xs) = All (λ y. y < x) xs × IsDown xs

All-insert_up : (P : ℕ → Type 0) (x : ℕ) (xs : List ℕ) → P x → All P xs → All P (insert_up x xs)
All-insert_up P x [] h hs = (h, tt)
All-insert_up P x (y ∷ ys) h hs = elim (Bool-cases (ltb x y)) [
  | inl lt ↦ rw lt (h, hs)
  | inr ge ↦ rw ge (elim (Bool-cases (ltb y x)) [
    | inl gt ↦ rw gt (hs.0, All-insert_up P x ys h hs.1)
    | inr eq ↦ rw eq hs
  ])
]

All-insert_down : (P : ℕ → Type 0) (x : ℕ) (xs : List ℕ) → P x → All P xs → All P (insert_down x xs)
All-insert_down P x [] h hs = (h, tt)
All-insert_down P x (y ∷ ys) h hs = elim (Bool-cases (ltb y x)) [
  | inl lt ↦ rw lt (h, hs)
  | inr ge ↦ rw ge (elim (Bool-cases (ltb x y)) [
    | inl gt ↦ rw gt (hs.0, All-insert_down P x ys h hs.1)
    | inr eq ↦ rw eq hs
  ])
]

insert_up-IsUp : (x : ℕ) (xs : List ℕ) → IsUp xs → IsUp (insert_up x xs)
insert_up-IsUp x [] h = (tt, tt)
insert_up-IsUp x (y ∷ ys) h = elim (Bool-cases (ltb x y)) [
  | inl lt ↦ rw lt ((ltb→lt x y lt, All-map (λ z below. omega (arith, ltb→lt x y lt)) ys h.0), h)
  | inr ge ↦ rw ge (elim (Bool-cases (ltb y x)) [
    | inl gt ↦ rw gt (All-insert_up (λ z. y < z) x ys (ltb→lt y x gt) h.0, insert_up-IsUp x ys h.1)
    | inr eq ↦ rw eq h
  ])
]

insert_down-IsDown : (x : ℕ) (xs : List ℕ) → IsDown xs → IsDown (insert_down x xs)
insert_down-IsDown x [] h = (tt, tt)
insert_down-IsDown x (y ∷ ys) h = elim (Bool-cases (ltb y x)) [
  | inl lt ↦ rw lt ((ltb→lt y x lt, All-map (λ z below. omega (arith, ltb→lt y x lt)) ys h.0), h)
  | inr ge ↦ rw ge (elim (Bool-cases (ltb x y)) [
    | inl gt ↦
        rw gt (All-insert_down (λ z. z < y) x ys (ltb→lt x y gt) h.0, insert_down-IsDown x ys h.1)
    | inr eq ↦ rw eq h
  ])
]

pub sorted_set-IsUp : (xs : List ℕ) → IsUp (sorted_set xs)
sorted_set-IsUp [] = tt
sorted_set-IsUp (x ∷ xs) = insert_up-IsUp x (sorted_set xs) (sorted_set-IsUp xs)

pub sorted_set_down-IsDown : (xs : List ℕ) → IsDown (sorted_set_down xs)
sorted_set_down-IsDown [] = tt
sorted_set_down-IsDown (x ∷ xs) =
    insert_down-IsDown x (sorted_set_down xs) (sorted_set_down-IsDown xs)
