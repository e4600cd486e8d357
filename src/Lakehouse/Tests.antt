-- ===== src/Lakehouse/Tests.antt =====
-- The preparation of the warehouse on small file systems.
use netai_devsecops_runbook.Prelude.{◌≡◌, refl, false, [], ◌∷◌, ok, err}
use netai_devsecops_runbook.Lakehouse.Warehouse.{
  Location, FileSystem, file, directory, no_marker, unsafe_path, marker_name, prepare_warehouse,
}
use netai_devsecops_runbook.Lakehouse.Warehouse.Guard.{IsPrepared, prepare_warehouse-IsPrepared}

abbrev home : Location
home = "home" ∷ "lab" ∷ []

abbrev warehouse : Location
warehouse = "tmp" ∷ "w" ∷ []

-- a warehouse of an earlier run, beside a file of somebody else
abbrev used : FileSystem
used =
    ("tmp" ∷ [], directory)
    ∷ ("tmp" ∷ "notes" ∷ [], file)
    ∷ (warehouse, directory)
    ∷ ("tmp" ∷ "w" ∷ marker_name ∷ [], file)
    ∷ ("tmp" ∷ "w" ∷ "table" ∷ [], file)
    ∷ []

abbrev cleared : FileSystem
cleared =
    ("tmp" ∷ [], directory)
    ∷ ("tmp" ∷ "notes" ∷ [], file)
    ∷ (warehouse, directory)
    ∷ ("tmp" ∷ "w" ∷ marker_name ∷ [], file)
    ∷ []

prepared : prepare_warehouse false home [] warehouse used ≡ ok cleared
unfolding prepare_warehouse
prepared = refl

-- a folder that has no marker is not touched
foreign : prepare_warehouse false home home ("tmp" ∷ []) used ≡ err no_marker
unfolding prepare_warehouse
foreign = refl

at_home : prepare_warehouse false home [] home used ≡ err unsafe_path
unfolding prepare_warehouse
at_home = refl

prepare_warehouse-IsPrepared_example : IsPrepared false home [] warehouse used cleared
prepare_warehouse-IsPrepared_example =
    prepare_warehouse-IsPrepared false home [] warehouse used cleared prepared
