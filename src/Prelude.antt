-- ===== src/Prelude.antt =====
-- The names that the other modules share: the libraries' names, passed on, Boolean tests, lists
-- measured by native numbers, bit laws, and state-passing actions that may fail.
mod Tests
mod Lists
mod Bits
pub mod Exec
unfoldable pub use Tests.*
pub use Lists.*
pub use Bits.*
pub use Prim.Native.Nat.{ℕ, zero, suc, ◌+◌, ◌-◌, ◌*◌, ◌/◌, ◌%◌, ◌^◌, ◌≤◌, ◌<◌, bit_or, bit_and}
pub use mathlib.Core.Path.{◌≡◌, refl, sym, ap, ap₂, fun_ext, subst, ◌∙◌}
pub use mathlib.Core.Logic.{◌≢◌, ◌↔◌, ◌⊎◌, inl, inr}
pub use mathlib.Core.Bool.{Bool, true, false, ◌&&◌, ◌||◌, not}
pub use mathlib.Core.Option.{Option, none, some}
pub use mathlib.Core.List.{List, [], ◌∷◌, ◌++◌, map, append-nil, append_assoc}
pub use native.Mathlib.Omega.{arith}
