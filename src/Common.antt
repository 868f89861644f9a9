-- ===== src/Common.antt =====
-- What the modules share: the libraries' names, passed on, and the helpers of the children.
mod Tests
mod Lists
mod Perms
pub mod Word
pub mod Text
unfoldable pub use Tests.*
pub use Lists.*
pub use Perms.*
pub use Prim.Native.Nat.{
  ℕ, zero, suc, ◌+◌, ◌-◌, ◌*◌, ◌/◌, ◌%◌, ◌^◌, ◌≤◌, ◌<◌, bit_and, bit_or, bit_xor,
}
pub use mathlib.Core.Path.{◌≡◌, refl, sym, ap, subst, ◌∙◌}
pub use mathlib.Core.Logic.{◌≢◌, ◌↔◌, ◌⊎◌, inl, inr}
pub use mathlib.Core.Bool.{Bool, true, false, not, ◌&&◌, ◌||◌}
pub use mathlib.Core.Option.{Option, none, some}
pub use mathlib.Core.List.{List, [], ◌∷◌, ◌++◌, map, Perm}
pub use native.Mathlib.Omega.{arith}
