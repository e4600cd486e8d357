-- ===== src/ComputerArchitecture/MemoryOrder/Cells.antt =====
-- memory_order_model.py: what an event that loads a variable reads.
use netai_devsecops_runbook.Prelude.{
  Bool-cases, Option-cases, ℕ, ◌+◌, ◌≤◌, ◌<◌, ◌≡◌, refl, ap, ◌∙◌, ◌≢◌, ◌⊎◌, inl, inr, true, false,
  Option, none, some, List, [], ◌∷◌, arith,
}
use netai_devsecops_runbook.ComputerArchitecture.MemoryOrder.{
  Event, store_x, load_y, store_y, load_x, Execution, execute, execute_all, same_event_as, position,
}

position-nil : (event : Event) (i j : ℕ) → position [] i event ≢ some j
unfolding position
position-nil event i j h = cc

-- an event that stands nowhere
position-none :
    (other event : Event) (order : List Event) (i : ℕ)
    → position (other ∷ order) i event ≡ none
    → (position order (i + 1) event ≡ none) × (same_event_as other event ≡ false)
unfolding position
position-none other event order i h = elim (Option-cases (position order (i + 1) event)) [
  | inr (k, later) ↦ cc (rw (later, position) at h)
  | inl nowhere ↦ elim (Bool-cases (same_event_as other event)) [
    | inl here ↦ cc (rw (nowhere, here, position) at h)
    | inr there ↦ (nowhere, there)
  ]
]

-- the position of an event: in the rest, or here
position-cons :
    (other event : Event) (order : List Event) (i j : ℕ)
    → position (other ∷ order) i event ≡ some j
    → (position order (i + 1) event ≡ some j)
      ⊎ ((position order (i + 1) event ≡ none) × (same_event_as other event ≡ true) × (i ≡ j))
unfolding position
position-cons other event order i j h = elim (Option-cases (position order (i + 1) event)) [
  | inr (k, later) ↦ inl (later ∙ rw (later, position) at h)
  | inl nowhere ↦ elim (Bool-cases (same_event_as other event)) [
    | inl here ↦
        let e : some i ≡ some j = rw (nowhere, here, position) at h in inr (nowhere, here, cc)
    | inr there ↦ cc (rw (nowhere, there, position) at h)
  ]
]

position_le :
    (event : Event) (order : List Event) (i j : ℕ) → position order i event ≡ some j → i ≤ j
position_le event [] i j h = absurd (position-nil event i j h)
position_le event (other ∷ order) i j h = elim (position-cons other event order i j h) [
  | inl later ↦ omega (arith, position_le event order (i + 1) j later)
  | inr (_, _, e) ↦ omega (arith, e)
]

-- a variable, the event that stores 1 into it and the event that loads it
pub record IsCell (store load : Event) (value : Execution → ℕ) (read : Execution → Option ℕ)
    : Type 0 where
  stored :
      (event : Event) (m : Execution)
      → same_event_as event store ≡ true
      → value (execute event m) ≡ 1
  stays : (event : Event) (m : Execution) → value m ≡ 1 → value (execute event m) ≡ 1
  loads :
      (event : Event) (m : Execution)
      → same_event_as event load ≡ true
      → read (execute event m) ≡ some (value m)
  others :
      (event : Event) (m : Execution)
      → same_event_as event load ≡ false
      → read (execute event m) ≡ read m

module _ (store load : Event) (value : Execution → ℕ) (read : Execution → Option ℕ)
    (cell : IsCell store load value read) where
  unread :
      (order : List Event) (i : ℕ) (m : Execution)
      → position order i load ≡ none
      → read (execute_all order m) ≡ read m
  unfolding execute_all
  unread [] i m h = refl
  unread (event ∷ order) i m h =
      let (nowhere, there) = position-none event load order i h in
      unread order (i + 1) (execute event m) nowhere ∙ cell.others event m there

  read_stored :
      (order : List Event) (i j : ℕ) (m : Execution)
      → value m ≡ 1
      → position order i load ≡ some j
      → read (execute_all order m) ≡ some 1
  unfolding execute_all
  read_stored [] i j m one h = absurd (position-nil load i j h)
  read_stored (event ∷ order) i j m one h = elim (position-cons event load order i j h) [
    | inl later ↦ read_stored order (i + 1) j (execute event m) (cell.stays event m one) later
    | inr (nowhere, here, _) ↦
        unread order (i + 1) (execute event m) nowhere ∙ cell.loads event m here ∙ ap some one
  ]

  pub read_after :
      (order : List Event) (i a b : ℕ) (m : Execution)
      → position order i store ≡ some a
      → position order i load ≡ some b
      → a < b
      → read (execute_all order m) ≡ some 1
  unfolding execute_all
  read_after [] i a b m h k lt = absurd (position-nil load i b k)
  read_after (event ∷ order) i a b m h k lt = elim (position-cons event store order i a h) [
    | inl later ↦ elim (position-cons event load order i b k) [
      | inl later' ↦ read_after order (i + 1) a b (execute event m) later later' lt
      | inr (_, _, e) ↦ absurd (omega (arith, e, position_le store order (i + 1) a later))
    ]
    | inr (_, here, e) ↦ elim (position-cons event load order i b k) [
      | inl later' ↦ read_stored order (i + 1) b (execute event m) (cell.stored event m here) later'
      | inr (_, _, e') ↦ absurd (omega (arith, e, e'))
    ]
  ]

  -- a load that is there reads something
  pub read_something :
      (order : List Event) (i j : ℕ) (m : Execution)
      → position order i load ≡ some j
      → (v : ℕ) × (read (execute_all order m) ≡ some v)
  unfolding execute_all
  read_something [] i j m h = absurd (position-nil load i j h)
  read_something (event ∷ order) i j m h = elim (position-cons event load order i j h) [
    | inl later ↦ read_something order (i + 1) j (execute event m) later
    | inr (nowhere, here, _) ↦
        (value m, unread order (i + 1) (execute event m) nowhere ∙ cell.loads event m here)
  ]

stored_x :
    (event : Event) (m : Execution) → same_event_as event store_x ≡ true → (execute event m).x ≡ 1
unfolding execute
stored_x store_x m h = refl
stored_x load_y m h = cc
stored_x store_y m h = cc
stored_x load_x m h = cc

stays_x : (event : Event) (m : Execution) → m.x ≡ 1 → (execute event m).x ≡ 1
unfolding execute
stays_x store_x m h = refl
stays_x load_y m h = h
stays_x store_y m h = h
stays_x load_x m h = h

loads_x :
    (event : Event) (m : Execution)
    → same_event_as event load_x ≡ true
    → (execute event m).r2 ≡ some m.x
unfolding execute
loads_x store_x m h = cc
loads_x load_y m h = cc
loads_x store_y m h = cc
loads_x load_x m h = refl

others_x :
    (event : Event) (m : Execution)
    → same_event_as event load_x ≡ false
    → (execute event m).r2 ≡ m.r2
unfolding execute
others_x store_x m h = refl
others_x load_y m h = refl
others_x store_y m h = refl
others_x load_x m h = cc

pub IsCell-x : IsCell store_x load_x (λ m. m.x) (λ m. m.r2)
IsCell-x = record { stored = stored_x; stays = stays_x; loads = loads_x; others = others_x }

stored_y :
    (event : Event) (m : Execution) → same_event_as event store_y ≡ true → (execute event m).y ≡ 1
unfolding execute
stored_y store_x m h = cc
stored_y load_y m h = cc
stored_y store_y m h = refl
stored_y load_x m h = cc

stays_y : (event : Event) (m : Execution) → m.y ≡ 1 → (execute event m).y ≡ 1
unfolding execute
stays_y store_x m h = h
stays_y load_y m h = h
stays_y store_y m h = refl
stays_y load_x m h = h

loads_y :
    (event : Event) (m : Execution)
    → same_event_as event load_y ≡ true
    → (execute event m).r1 ≡ some m.y
unfolding execute
loads_y store_x m h = cc
loads_y load_y m h = refl
loads_y store_y m h = cc
loads_y load_x m h = cc

others_y :
    (event : Event) (m : Execution)
    → same_event_as event load_y ≡ false
    → (execute event m).r1 ≡ m.r1
unfolding execute
others_y store_x m h = refl
others_y load_y m h = cc
others_y store_y m h = refl
others_y load_x m h = refl

pub IsCell-y : IsCell store_y load_y (λ m. m.y) (λ m. m.r1)
IsCell-y = record { stored = stored_y; stays = stays_y; loads = loads_y; others = others_y }
