-- ===== src/Lakehouse/Warehouse.antt =====
-- learning/apache-iceberg/examples/iceberg_local_lab.py, `main`: what happens to the warehouse before
-- the lab runs. A path is resolved and absolute, the names from the root on.
use netai_devsecops_runbook.Prelude.{
  if◌then◌else◌, ◌==◌, Dict, contains, lookup, insert, Key, ◌>>=◌, Result, String, ◌≡◌, refl, ◌↔◌,
  Bool, true, false, not, ◌&&◌, none, some, List, [], ◌∷◌, ◌++◌, ok, err, string_key, arith,
}
pub mod Guard

abbrev pub Location : Type 0
Location = List String

abbrev pub same_location : Location → Location → Bool
same_location [] [] = true
same_location [] (b ∷ q) = false
same_location (a ∷ p) [] = false
same_location (a ∷ p) (b ∷ q) = a == b && same_location p q

pub same_location_iff : (p q : Location) → (same_location p q ≡ true) ↔ (p ≡ q)
same_location_iff [] [] = (λ h. refl, λ h. refl)
same_location_iff [] (b ∷ q) = (λ h. cc, λ h. cc)
same_location_iff (a ∷ p) [] = (λ h. cc, λ h. cc)
same_location_iff (a ∷ p) (b ∷ q) = ground (arith, string_key.same_iff a b, same_location_iff p q)

instance abbrev pub location_key : Key Location
location_key = record { same = same_location; same_iff = same_location_iff }

-- what stands at a path
pub data Node : Type 0 where
  file directory : Node

abbrev pub FileSystem : Type 0
FileSystem = Dict Location Node

-- `p` is a folder on the way to `q`, or `q` itself
abbrev pub leads_to : Location → Location → Bool
leads_to [] q = true
leads_to (a ∷ p) [] = false
leads_to (a ∷ p) (b ∷ q) = a == b && leads_to p q

-- `next(warehouse.iterdir(), None) is not None`
abbrev pub has_entries : Location → FileSystem → Bool
has_entries p [] = false
has_entries p ((q, node) ∷ fs) = if leads_to p q && not (p == q) then true else has_entries p fs

-- `shutil.rmtree(p)`
abbrev pub rmtree : Location → FileSystem → FileSystem
rmtree p [] = []
rmtree p ((q, node) ∷ fs) = if leads_to p q then rmtree p fs else (q, node) ∷ rmtree p fs

-- what ends `main` before the lab: the three SystemExit, and the OSError of `mkdir`
pub data Refused : Type 0 where
  unsafe_path not_directory no_marker mkdir_failed : Refused

-- `mkdir(parents=True, exist_ok=True)`, with the folders of `done` made
abbrev pub mkdir : Location → Location → FileSystem → Result Refused FileSystem
mkdir done [] fs = ok fs
mkdir done (name ∷ rest) fs =
    let p = done ++ name ∷ [] in
    elim (lookup p fs) [
      | none ↦ mkdir p rest (insert p directory fs)
      | some node ↦ elim node [ file ↦ err mkdir_failed | directory ↦ mkdir p rest fs ]
    ]

-- `touch()`
abbrev pub touch : Location → FileSystem → FileSystem
touch p fs = elim (lookup p fs) [ none ↦ insert p file fs | some node ↦ fs ]

abbrev pub marker_name : String
marker_name = ".netai-iceberg-local-lab"

abbrev pub marker_of : Location → Location
marker_of warehouse = warehouse ++ marker_name ∷ []

-- the guards of a warehouse that exists
unfoldable pub guard_warehouse : Location → FileSystem → Result Refused FileSystem
guard_warehouse warehouse fs = elim (lookup warehouse fs) [
  | none ↦ ok fs
  | some node ↦ elim node [
    | file ↦ err not_directory
    | directory ↦ elim (lookup (marker_of warehouse) fs) [
      | some marker ↦ elim marker [
        | file ↦ ok fs
        | directory ↦ if has_entries warehouse fs then err no_marker else ok fs
      ]
      | none ↦ if has_entries warehouse fs then err no_marker else ok fs
    ]
  ]
]

-- `if warehouse.exists() and not args.keep`
unfoldable pub clear_warehouse : Bool → Location → FileSystem → FileSystem
clear_warehouse keep warehouse fs = elim (lookup warehouse fs) [
  | none ↦ fs
  | some node ↦ if keep then fs else rmtree warehouse fs
]

-- `main` up to the call of `build_spark`
unfoldable pub prepare_warehouse :
    (keep : Bool) (home cwd warehouse : Location) → FileSystem → Result Refused FileSystem
unfolding guard_warehouse clear_warehouse
prepare_warehouse keep home cwd warehouse fs =
    if contains warehouse ([] ∷ home ∷ cwd ∷ [])
    then err unsafe_path
    else guard_warehouse warehouse fs >>= λ guarded.
        mkdir [] warehouse (clear_warehouse keep warehouse guarded) >>= λ made.
        ok (touch (marker_of warehouse) made)
