-- ===== src/Prelude.antt =====
-- The names that the other modules share: the libraries', passed on, and those of the children.
mod Tests
mod Lists
mod Maps
mod Int
mod Sorting
mod Results
mod Members
pub use Tests.*
pub use Lists.*
pub use Maps.*
unfoldable pub use Int.*
pub use Sorting.*
pub use Results.*
pub use Members.*
pub use Prim.Native.Nat.{ℕ, zero, suc, ◌+◌, ◌-◌, ◌*◌, ◌/◌, ◌%◌, ◌^◌, ◌≤◌, ◌<◌, min, max}
pub use Prim.Native.String.{String}
pub use mathlib.Core.Path.{◌≡◌, refl, sym, ap, subst, ◌∙◌}
pub use mathlib.Core.Logic.{◌≢◌, ◌↔◌, ◌⊎◌, inl, inr, ⊎_elim}
pub use mathlib.Core.Bool.{Bool, true, false, not, ◌&&◌, ◌||◌}
pub use mathlib.Core.Option.{Option, none, some}
pub use mathlib.Core.List.{List, [], ◌∷◌, ◌++◌, map, Memᴰ, Perm, perm_middle}
pub use mathlib.Core.List.Memᴰ
pub use mathlib.Core.List.Perm
pub use native.Mathlib.Omega.{arith}
pub use mathlib.Core.List.{append-nil, append_assoc}
pub use native.Mathlib.Nat.{add-zero, zero-add}
unfoldable pub use native.Mathlib.Decide.{dec_lt, dec_le, ℕ_discrete}
