-- ===== src/Common.antt =====
-- The names that the modules of this library share: those of mathlib and of the native numbers,
-- passed on, and those of the children.
mod Tests
mod Lists
mod Digits
mod Xor
mod Below
pub use Tests.*
pub use Lists.*
pub use Xor.*
unfoldable pub use Below.*
pub use Prim.Native.Nat.{
  ℕ, zero, suc, ◌+◌, ◌-◌, ◌*◌, ◌/◌, ◌%◌, ◌^◌, ◌≤◌, ◌<◌, min, bit_xor, bit_and,
}
pub use mathlib.Core.Path.{◌≡◌, refl, sym, ap, ap₂, subst, ◌∙◌}
pub use mathlib.Core.Logic.{◌≢◌, ◌↔◌, ◌⊎◌, inl, inr}
pub use mathlib.Core.Bool.{Bool, true, false, not, ◌&&◌, ◌||◌}
pub use mathlib.Core.Option.{Option, none, some}
pub use mathlib.Core.List.{
  List, [], ◌∷◌, ◌++◌, map, reverse, append-nil, append_assoc, map-append, reverse-append,
}
pub use native.Mathlib.Omega.{arith}
