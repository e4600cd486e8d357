-- ===== src/Gpu/Allocation.antt =====
-- learning/gpu-operator-dra/examples/allocation_model.py: devices of one node for all requests.
pub mod Selection
pub mod Soundness
use netai_devsecops_runbook.Prelude.{
  leb, if◌then◌else◌, length, filter, ◌==◌, Dict, contains, insert, ℕ, zero, suc, String, Bool,
  true, false, not, ◌&&◌, Option, none, some, List, [], ◌∷◌, ◌++◌, map, string_key,
}

pub record Device : Type 0 where
  pub node : String
  pub name : String
  pub memory_gib : ℕ

pub record Request : Type 0 where
  pub name : String
  pub min_memory_gib : ℕ

module _ {A : Type 0} where
  -- each element with the elements around it
  abbrev pub picks : List A → List (A × List A)
  picks [] = []
  picks (x ∷ xs) = (x, xs) ∷ map (λ p. (p.0, x ∷ p.1)) (picks xs)

  abbrev pub prefixed : (List A → List (List A)) → List (A × List A) → List (List A)
  prefixed rest_of [] = []
  prefixed rest_of (p ∷ ps) = map (◌∷◌ p.0) (rest_of p.1) ++ prefixed rest_of ps

  -- `permutations(xs, n)`
  unfoldable pub permutations : ℕ → List A → List (List A)
  permutations zero xs = [] ∷ []
  permutations (suc n) xs = prefixed (permutations n) (picks xs)

-- `all(... for request, device in zip(requests, selected))`
unfoldable pub fits : List Request → List Device → Bool
fits [] selected = true
fits (r ∷ requests) [] = true
fits (r ∷ requests) (d ∷ selected) =
    if leb r.min_memory_gib d.memory_gib then fits requests selected else false

-- the inner loop: the first selection that fits
unfoldable pub first_fit : List Request → List (List Device) → Option (List Device)
unfolding fits
first_fit requests [] = none
first_fit requests (selected ∷ others) =
    if fits requests selected then some selected else first_fit requests others

-- `dict(zip(names, selected))`
unfoldable pub assigned : List Request → List Device → Dict String Device → Dict String Device
assigned [] selected assignments = assignments
assigned (r ∷ requests) [] assignments = assignments
assigned (r ∷ requests) (d ∷ selected) assignments =
    assigned requests selected (insert r.name d assignments)

abbrev pub is_available : String → List String → Device → Bool
is_available node reserved device = device.node == node && not (contains device.name reserved)

-- the outer loop over the nodes
unfoldable pub try_nodes :
    List Device → List Request → List String → List String → Option (String × Dict String Device)
unfolding first_fit permutations assigned
try_nodes devices requests reserved [] = none
try_nodes devices requests reserved (node ∷ nodes) =
    let available = filter (is_available node reserved) devices in
    elim (first_fit requests (permutations (length requests) available)) [
      | none ↦ try_nodes devices requests reserved nodes
      | some selected ↦ some (node, assigned requests selected [])
    ]

-- `sorted_nodes` is `sorted` on a set of texts, given by a list
unfoldable pub allocate :
    (List String → List String)
    → List Device
    → List Request
    → List String
    → Option (String × Dict String Device)
unfolding try_nodes
allocate sorted_nodes devices requests reserved =
    try_nodes devices requests reserved (sorted_nodes (map (λ device. device.node) devices))
