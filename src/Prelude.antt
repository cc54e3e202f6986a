-- ===== src/Prelude.antt =====
-- The names that the modules share: the libraries', passed on, and those of the children below:
-- Boolean tests, lists indexed by native numbers, uint32_t arithmetic.
mod Tests
mod Lists
mod Slices
mod Words
pub mod Int
pub use Tests.*
pub use Lists.*
pub use Slices.*
unfoldable pub use Words.{add_u32, sub_u32}
pub use Int.{ℤ, pos, negsuc, is_zero, eq_int, to_u32, minus_one}
pub use Words.{u32, add_u32-eq, sub_u32-eq, wrap, mod-wrap}
pub use Prim.Native.Nat.{ℕ, zero, suc, ◌+◌, ◌-◌, ◌*◌, ◌/◌, ◌%◌, ◌^◌, ◌≤◌, ◌<◌, min}
pub use mathlib.Core.Path.{◌≡◌, refl, sym, ap, ◌∙◌}
pub use mathlib.Core.Logic.{◌≢◌, ◌↔◌, ◌⊎◌, inl, inr}
pub use mathlib.Core.Bool.{Bool, true, false, not, ◌&&◌, ◌||◌}
pub use mathlib.Core.Option.{Option, none, some}
pub use mathlib.Core.List.{List, [], ◌∷◌, ◌++◌, map}
pub use native.Mathlib.Omega.{arith}
