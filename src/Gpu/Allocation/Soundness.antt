-- ===== src/Gpu/Allocation/Soundness.antt =====
-- allocation_model.py: the devices of an allocation.
use netai_devsecops_runbook.Prelude.{
  Bool-cases, length, All, ◌≡◌, refl, inl, inr, true, some, List, [], ◌∷◌, map, arith, Option-cases,
  filter, ◌==◌, Dict, ==_eq, contains, String, sym, subst, ◌∙◌, false, string_key, leb,
  if◌then◌else◌, lookup, insert, ◌≤◌, Option, none, lookup-insert,
}
use netai_devsecops_runbook.Gpu.Allocation.Selection.{
  IsTaken, IsTaken-trans, filter-IsTaken, IsSelection, permutations-IsSelection, All-permutations,
}
use netai_devsecops_runbook.Gpu.Allocation.{
  permutations, Device, Request, permutations, fits, first_fit, assigned, is_available, try_nodes,
  allocate,
}

some_inj : {A : Type 0} {a b : A} → some a ≡ some b → a ≡ b
some_inj h = cc

first_fit_lem :
    (Q : List Device → Type 0) (requests : List Request) (choices : List (List Device))
    (selected : List Device)
    → All Q choices
    → first_fit requests choices ≡ some selected
    → Q selected × (fits requests selected ≡ true)
unfolding first_fit
first_fit_lem Q requests [] selected h e = cc
first_fit_lem Q requests (choice ∷ others) selected (q, qs) e =
    elim (Bool-cases (fits requests choice)) [
      | inl fit ↦
          (let taken : first_fit requests (choice ∷ others) ≡ some choice =
              rw (first_fit, fit) refl in
            subst (λ l. Q l × (fits requests l ≡ true)) (some_inj (sym taken ∙ e)) (q, fit))
      | inr bad ↦
          (let passed : first_fit requests (choice ∷ others) ≡ first_fit requests others =
              rw (first_fit, bad) refl in
            first_fit_lem Q requests others selected qs (sym passed ∙ e))
    ]

-- a device of a node that is not reserved
abbrev pub IsFree : String → List String → Device → Type 0
IsFree node reserved d = (d.node ≡ node) × (contains d.name reserved ≡ false)

is_available-IsFree :
    (node : String) (reserved : List String) (d : Device)
    → is_available node reserved d ≡ true
    → IsFree node reserved d
is_available-IsFree node reserved d h = elim (Bool-cases (d.node == node)) [
  | inl here ↦ (==_eq d.node node here, ground arith)
  | inr away ↦ absurd (ground arith)
]

All-available :
    (node : String) (reserved : List String) (devices : List Device)
    → All (IsFree node reserved) (filter (is_available node reserved) devices)
All-available node reserved [] = tt
All-available node reserved (d ∷ devices) = elim (Bool-cases (is_available node reserved d)) [
  | inl free ↦
      rw free (is_available-IsFree node reserved d free, All-available node reserved devices)
  | inr taken ↦ rw taken (All-available node reserved devices)
]

-- as many devices as requests, each with the memory that its request asks for
abbrev pub Suits : List Request → List Device → Type 0
Suits [] [] = Unit
Suits [] (d ∷ selected) = ⊥
Suits (r ∷ requests) [] = ⊥
Suits (r ∷ requests) (d ∷ selected) = (r.min_memory_gib ≤ d.memory_gib) × Suits requests selected

fits-Suits :
    (requests : List Request) (selected : List Device)
    → length selected ≡ length requests
    → fits requests selected ≡ true
    → Suits requests selected
unfolding fits
fits-Suits [] [] l h = tt
fits-Suits [] (d ∷ selected) l h = omega arith
fits-Suits (r ∷ requests) [] l h = omega arith
fits-Suits (r ∷ requests) (d ∷ selected) l h =
    let at_least : leb r.min_memory_gib d.memory_gib ≡ true = ground arith in
    (ground arith, fits-Suits requests selected (omega arith) (ground arith))

-- the device of the last request of a name
abbrev pub device_of : String → List Request → List Device → Option Device
device_of name [] selected = none
device_of name (r ∷ requests) [] = none
device_of name (r ∷ requests) (d ∷ selected) = elim (device_of name requests selected) [
  | some later ↦ some later
  | none ↦ if r.name == name then some d else none
]

or_else : Option Device → Option Device → Option Device
or_else (some d) before = some d
or_else none before = before

or_else-none : (found : Option Device) → or_else found none ≡ found
unfolding or_else
or_else-none (some d) = refl
or_else-none none = refl

lookup-assigned :
    (name : String) (requests : List Request) (selected : List Device) (d : Dict String Device)
    → lookup name (assigned requests selected d)
      ≡ or_else (device_of name requests selected) (lookup name d)
unfolding assigned or_else
lookup-assigned name [] selected d = refl
lookup-assigned name (r ∷ requests) [] d = refl
lookup-assigned name (r ∷ requests) (x ∷ selected) d =
    lookup-assigned name requests selected (insert r.name x d)
    ∙ rw (lookup-insert r.name name x d) (elim (Option-cases (device_of name requests selected)) [
      | inl nothing ↦ rw nothing (ground arith)
      | inr (later, found) ↦ rw found refl
    ])

-- what an allocation is made of
pub record IsAllocation (devices : List Device) (requests : List Request) (reserved : List String)
    (result : String × Dict String Device) : Type 0 where
  pub selected : List Device
  pub taken : IsTaken devices selected
  pub free : All (IsFree result.0 reserved) selected
  pub suited : Suits requests selected
  pub named : (name : String) → lookup name result.1 ≡ device_of name requests selected

chosen-IsAllocation :
    (devices : List Device) (requests : List Request) (reserved : List String) (node : String)
    (selected : List Device)
    → let available = filter (is_available node reserved) devices in
      first_fit requests (permutations (length requests) available) ≡ some selected
      → IsAllocation devices requests reserved (node, assigned requests selected [])
chosen-IsAllocation devices requests reserved node selected found =
    let available = filter (is_available node reserved) devices in
    let choices = permutations (length requests) available in
    let ((taken, size), fit) =
      first_fit_lem (IsSelection available (length requests)) requests choices selected
        (permutations-IsSelection (length requests) available) found in
    let (free, _) =
      first_fit_lem (All (IsFree node reserved)) requests choices selected
        (All-permutations (IsFree node reserved) (length requests) available
          (All-available node reserved devices))
        found in
    record {
      selected = selected;
      taken =
          IsTaken-trans selected available devices taken
            (filter-IsTaken (is_available node reserved) devices);
      free = free;
      suited = fits-Suits requests selected size fit;
      named = λ name. lookup-assigned name requests selected [] ∙ or_else-none _;
    }

try_nodes-IsAllocation :
    (devices : List Device) (requests : List Request) (reserved nodes : List String)
    (result : String × Dict String Device)
    → try_nodes devices requests reserved nodes ≡ some result
    → IsAllocation devices requests reserved result
unfolding try_nodes
try_nodes-IsAllocation devices requests reserved [] result e = cc
try_nodes-IsAllocation devices requests reserved (node ∷ nodes) result e =
    let available = filter (is_available node reserved) devices in
    elim (Option-cases (first_fit requests (permutations (length requests) available))) [
      | inl nothing_fits ↦
          let passed : try_nodes devices requests reserved (node ∷ nodes)
              ≡ try_nodes devices requests reserved nodes =
            rw (try_nodes, nothing_fits) refl in
          try_nodes-IsAllocation devices requests reserved nodes result (sym passed ∙ e)
      | inr (selected, found) ↦
          let taken : try_nodes devices requests reserved (node ∷ nodes)
              ≡ some (node, assigned requests selected []) =
            rw (try_nodes, found) refl in
          subst (IsAllocation devices requests reserved) (some_inj (sym taken ∙ e))
            (chosen-IsAllocation devices requests reserved node selected found)
    ]

-- In whatever order the nodes are tried, an allocation that is returned takes one device for each
-- request from the devices given, and none of them twice. All are of the node that is returned and
-- none is reserved; each has at least the memory that its request asks for; and the name of a
-- request has the device of the last request of that name.
pub allocate-IsAllocation :
    (sorted_nodes : List String → List String) (devices : List Device) (requests : List Request)
    (reserved : List String) (result : String × Dict String Device)
    → allocate sorted_nodes devices requests reserved ≡ some result
    → IsAllocation devices requests reserved result
unfolding allocate
allocate-IsAllocation sorted_nodes devices requests reserved result e =
    try_nodes-IsAllocation devices requests reserved
      (sorted_nodes (map (λ device. device.node) devices)) result e
