-- ===== src/Prelude.antt =====
-- The names that the other modules share: the library's, and those of the children below.
mod Tests
mod Lists
mod Text
mod Maps
mod Strings
pub mod Int
pub mod Bits
pub use Tests.*
pub use Lists.*
pub use Text.*
unfoldable pub use Text.{
  equal, to_lower_byte, is_space, trim_left, trim_right, trim_space, to_lower,
}
pub use Maps.*
unfoldable pub use Maps.{lookup, insert, delete, keep_if}
pub use Strings.*
unfoldable pub use Strings.{
  split, has_prefix, has_suffix, trim_prefix, trim_suffix, contains, cut, join, fields,
}
pub use Prim.Native.Nat.{ℕ, zero, suc, ◌+◌, ◌-◌, ◌*◌, ◌/◌, ◌%◌, ◌^◌, ◌≤◌, ◌<◌, min}
pub use Prim.Native.String.{String}
pub use mathlib.Core.Path.{◌≡◌, refl, sym, ap, subst, ◌∙◌}
pub use mathlib.Core.Logic.{◌≢◌, ◌↔◌, ◌⊎◌, inl, inr}
pub use mathlib.Core.Bool.{Bool, true, false, not, ◌&&◌, ◌||◌}
pub use mathlib.Core.Option.{Option, none, some}
pub use mathlib.Core.List.{List, [], ◌∷◌, ◌++◌, map, reverse}
pub use native.Mathlib.Omega.{arith}
