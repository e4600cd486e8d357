-- ===== src/Lakehouse/Warehouse/Guard.antt =====
-- iceberg_local_lab.py: what the preparation of the warehouse keeps and removes.
use netai_devsecops_runbook.Prelude.{
  if◌then◌else◌, Option-cases, lookup, insert, lookup-insert, ok_inj, String, ◌≡◌, refl, ◌∙◌, inl,
  inr, Bool, true, none, some, [], ◌∷◌, ◌++◌, arith, ok, ==_refl, sym, ◌≢◌, append-nil,
  append_assoc, Bool-cases, contains, bind_ok, ◌⊎◌, false, not, ◌||◌, subst,
}
use netai_devsecops_runbook.Lakehouse.Warehouse.{
  Location, Node, file, directory, FileSystem, location_key, leads_to, has_entries, rmtree, mkdir,
  touch, marker_of, guard_warehouse, clear_warehouse, prepare_warehouse,
}

lookup-rmtree :
    (w p : Location) (fs : FileSystem)
    → lookup p (rmtree w fs) ≡ (if leads_to w p then none else lookup p fs)
lookup-rmtree w p [] = ground arith
lookup-rmtree w p ((q, node) ∷ fs) = ground (arith, lookup-rmtree w p fs, location_key.same_iff q p)

-- what stands in one state stands in the other
abbrev pub Keeps : (Location → Bool) → FileSystem → FileSystem → Type 0
Keeps is before after =
    (p : Location) (node : Node)
    → is p ≡ true
    → lookup p before ≡ some node
    → lookup p after ≡ some node

insert-Keeps :
    (p : Location) (node : Node) (fs : FileSystem)
    → lookup p fs ≡ none
    → Keeps (λ q. true) fs (insert p node fs)
insert-Keeps p node fs new q old is there =
    lookup-insert p q node fs ∙ ground (arith, location_key.same_iff p q)

-- one folder on the way
mkdir-step :
    (done : Location) (name : String) (rest : Location) (fs after : FileSystem)
    → mkdir done (name ∷ rest) fs ≡ ok after
    → (next : FileSystem) × (mkdir (done ++ name ∷ []) rest next ≡ ok after)
      × (lookup (done ++ name ∷ []) next ≡ some directory)
      × Keeps (λ q. true) fs next
mkdir-step done name rest fs after h =
    let p = done ++ name ∷ [] in
    elim (Option-cases (lookup p fs)) [
      | inl new ↦ (
        insert p directory fs,
        rw (new, mkdir) at h,
        lookup-insert p p directory fs ∙ rw (==_refl p) refl,
        insert-Keeps p directory fs new,
      )
      | inr (directory, e) ↦ (fs, rw (e, mkdir) at h, e, λ q node is there. there)
      | inr (file, e) ↦ cc (rw (e, mkdir) at h)
    ]

mkdir-Keeps :
    (done rest : Location) (fs after : FileSystem)
    → mkdir done rest fs ≡ ok after
    → Keeps (λ q. true) fs after
mkdir-Keeps done [] fs after h q node is there = rw (sym (ok_inj h)) there
mkdir-Keeps done (name ∷ rest) fs after h q node is there =
    let (next, made, _, kept) = mkdir-step done name rest fs after h in
    mkdir-Keeps (done ++ name ∷ []) rest next after made q node refl (kept q node refl there)

mkdir-directory :
    (done rest : Location) (fs after : FileSystem)
    → lookup done fs ≡ some directory
    → mkdir done rest fs ≡ ok after
    → lookup (done ++ rest) after ≡ some directory
mkdir-directory done [] fs after e h = rw (append-nil done, sym (ok_inj h)) e
mkdir-directory done (name ∷ rest) fs after e h =
    let (next, made, is_directory, _) = mkdir-step done name rest fs after h in
    rw (sym (append_assoc done (name ∷ []) rest))
      (mkdir-directory (done ++ name ∷ []) rest next after is_directory made)

touch-Keeps : (p : Location) (fs : FileSystem) → Keeps (λ q. true) fs (touch p fs)
touch-Keeps p fs q node is there = elim (Option-cases (lookup p fs)) [
  | inl new ↦ rw (new, touch) (insert-Keeps p file fs new q node refl there)
  | inr (old, e) ↦ rw (e, touch) there
]

touch_there : (p : Location) (fs : FileSystem) → lookup p (touch p fs) ≢ none
touch_there p fs missing = elim (Option-cases (lookup p fs)) [
  | inl new ↦
      let there : lookup p (insert p file fs) ≡ some file =
        lookup-insert p p file fs ∙ rw (==_refl p) refl in
      cc (rw (new, touch, there) at missing)
  | inr (old, e) ↦ cc (rw (e, touch, e) at missing)
]

-- the lab may use a warehouse that does not exist, is marked as the lab's, or is empty
abbrev pub IsOwned : Location → FileSystem → Type 0
IsOwned warehouse fs =
    (lookup warehouse fs ≡ none)
    ⊎ ((lookup warehouse fs ≡ some directory)
        × ((lookup (marker_of warehouse) fs ≡ some file) ⊎ (has_entries warehouse fs ≡ false)))

guard_warehouse-IsOwned :
    (warehouse : Location) (fs guarded : FileSystem)
    → guard_warehouse warehouse fs ≡ ok guarded
    → (guarded ≡ fs) × IsOwned warehouse fs
unfolding guard_warehouse
guard_warehouse-IsOwned warehouse fs guarded h = elim (Option-cases (lookup warehouse fs)) [
  | inl missing ↦ (sym (ok_inj (rw (missing, guard_warehouse) at h)), inl missing)
  | inr (file, e) ↦ cc (rw (e, guard_warehouse) at h)
  | inr (directory, e) ↦ elim (Option-cases (lookup (marker_of warehouse) fs)) [
    | inr (file, m) ↦ (sym (ok_inj (rw (e, m, guard_warehouse) at h)), inr (e, inl m))
    | inr (directory, m) ↦ elim (Bool-cases (has_entries warehouse fs)) [
      | inl some_there ↦ cc (rw (e, m, some_there, guard_warehouse) at h)
      | inr empty ↦ (sym (ok_inj (rw (e, m, empty, guard_warehouse) at h)), inr (e, inr empty))
    ]
    | inl m ↦ elim (Bool-cases (has_entries warehouse fs)) [
      | inl some_there ↦ cc (rw (e, m, some_there, guard_warehouse) at h)
      | inr empty ↦ (sym (ok_inj (rw (e, m, empty, guard_warehouse) at h)), inr (e, inr empty))
    ]
  ]
]

clear_warehouse-Keeps :
    (keep : Bool) (warehouse : Location) (fs : FileSystem)
    → Keeps (λ p. keep || not (leads_to warehouse p)) fs (clear_warehouse keep warehouse fs)
unfolding clear_warehouse
clear_warehouse-Keeps keep warehouse fs p node is there =
    elim (Option-cases (lookup warehouse fs)) [
      | inl missing ↦ rw (missing, clear_warehouse) there
      | inr (old, e) ↦ elim (Bool-cases keep) [
        | inl stays ↦ rw (e, stays, clear_warehouse) there
        | inr removed ↦
            let outside : leads_to warehouse p ≡ false = ground arith in
            rw (e, removed, clear_warehouse, lookup-rmtree warehouse p fs, outside) there
      ]
    ]

-- a warehouse that the lab may use
pub record IsPrepared (keep : Bool) (home cwd warehouse : Location) (fs after : FileSystem)
    : Type 0 where
  pub unprotected : contains warehouse ([] ∷ home ∷ cwd ∷ []) ≡ false
  pub owned : IsOwned warehouse fs
  pub kept : Keeps (λ p. keep || not (leads_to warehouse p)) fs after
  pub made : lookup warehouse after ≡ some directory
  pub marked : lookup (marker_of warehouse) after ≢ none

-- When the preparation of a warehouse returns: the warehouse is not the root, the home or the working
-- directory; it did not exist, or was a directory that had the marker as a file or was empty; all
-- that stands outside of it, and with `--keep` also what stands in it, is kept; and the warehouse is
-- a directory that has the marker.
pub prepare_warehouse-IsPrepared :
    (keep : Bool) (home cwd warehouse : Location) (fs after : FileSystem)
    → prepare_warehouse keep home cwd warehouse fs ≡ ok after
    → IsPrepared keep home cwd warehouse fs after
unfolding prepare_warehouse
prepare_warehouse-IsPrepared keep home cwd [] fs after h = cc
prepare_warehouse-IsPrepared keep home cwd (name ∷ names) fs after h =
    let w = name ∷ names in
    elim (Bool-cases (contains w ([] ∷ home ∷ cwd ∷ []))) [
      | inl protected ↦ cc (rw (protected, prepare_warehouse) at h)
      | inr unprotected ↦
          let (guarded, answer, rest) = bind_ok _ _ (rw (unprotected, prepare_warehouse) at h) in
          let (made, mkdirs, ending) =
            bind_ok (mkdir [] w (clear_warehouse keep w guarded)) (λ m. ok (touch (marker_of w) m))
              rest in
          let (unchanged, owned) = guard_warehouse-IsOwned w fs guarded answer in
          (let cleared = clear_warehouse keep w fs in
            let run : mkdir [] w cleared ≡ ok made = rw unchanged at mkdirs in
            let (next, further, is_directory, _) = mkdir-step [] name names cleared made run in
            let there = mkdir-directory (name ∷ []) names next made is_directory further in
            subst (IsPrepared keep home cwd w fs) (ok_inj ending) (record {
              unprotected = unprotected;
              owned = owned;
              kept = λ p node is old. touch-Keeps (marker_of w) made p node refl (
                  mkdir-Keeps [] w cleared made run p node refl
                    (clear_warehouse-Keeps keep w fs p node is old));
              made = touch-Keeps (marker_of w) made w directory refl there;
              marked = touch_there (marker_of w) made;
            }))
    ]
