-- ===== src/Prelude.antt =====
-- The names that the other modules share: the libraries', passed on, and those of the children.
mod Tests
mod Lists
mod Equality
mod Assoc
pub mod Int
pub mod Text
pub mod Sort
pub mod ByteOrder
pub mod Prefixes
pub use Tests.{
  ltb, leb, if◌then◌else◌, ltb→lt, lt→ltb, leb→le, le→leb, ltb_false→le, Bool-cases, Option-cases,
  tests, true_of_and_left, true_of_and_right, ◌>>=◌, some_of_bind, false_of_not, if-both,
  some_injective,
}
pub use Lists.*
unfoldable pub use Lists.{position, any, all, bytes_beq}
pub use Equality.*
pub use Assoc.*
unfoldable pub use Assoc.{lookup, insert, remove, contains_key}
pub use Prim.Native.Nat.{ℕ, zero, suc, ◌+◌, ◌-◌, ◌*◌, ◌/◌, ◌%◌, ◌^◌, ◌≤◌, ◌<◌}
pub use mathlib.Core.Path.{◌≡◌, refl, sym, ap, ◌∙◌}
pub use mathlib.Core.Logic.{◌≢◌, ◌↔◌, ◌⊎◌, inl, inr}
pub use mathlib.Core.Bool.{Bool, true, false, ◌&&◌, ◌||◌, not}
pub use mathlib.Core.Option.{Option, none, some}
pub use mathlib.Core.List.{List, [], ◌∷◌, ◌++◌, map}
pub use native.Mathlib.Omega.{arith}
