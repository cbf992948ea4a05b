-- ===== src/Base.antt =====
-- The names that the other modules share: the libraries', passed on, and those of the children.
mod Tests
mod Lists
mod Equality
mod Maps
mod Quorums
pub mod Int64
pub mod Decimal
pub use Tests.*
pub use Lists.*
pub use Equality.*
pub use Quorums.{KeysAmong, length-common, length_mono, one_outside, quorums_meet}
pub use Maps.{
  Map, values, keys, length-keys, HasDistinctKeys, lookup-insert, lookup-insert_self, lookup-delete,
  lookup-delete_if, contains-lookup, contains-insert, length-insert, length-insert_pos,
  length-delete_if, insert-HasDistinctKeys, delete_if-HasDistinctKeys, All-insert, All-delete_if,
  All-lookup, All-mono,
}
unfoldable pub use Maps.{lookup, insert, delete, contains, delete_if}
pub use Prim.Native.Nat.{ℕ, zero, suc, ◌+◌, ◌-◌, ◌*◌, ◌/◌, ◌%◌, ◌^◌, ◌≤◌, ◌<◌}
pub use mathlib.Core.Path.{◌≡◌, refl, sym, ap, ap₂, subst, ◌∙◌}
pub use mathlib.Core.Logic.{◌≢◌, ◌↔◌, ◌⊎◌, inl, inr}
pub use mathlib.Core.Bool.{Bool, true, false, ◌&&◌, ◌||◌, not}
pub use mathlib.Core.Option.{Option, none, some}
pub use mathlib.Core.List.{List, [], ◌∷◌, ◌++◌}
pub use native.Mathlib.Omega.{arith}
