-- ===== src/Base.antt =====
-- The names that the other modules share: the libraries', passed on, and those of the children.
mod Tests
mod Lists
mod Words
mod Text
mod Options
mod Maps
mod Sort
pub mod Decimal
pub mod Split
pub mod Bits
pub mod Results
pub use Tests.*
pub use Lists.*
pub use Words.*
pub use Text.*
pub use Options.*
unfoldable pub use Maps.{lookup, contains_key, insert, remove, lookup_or, insert_all}
unfoldable pub use Sort.{insert_sorted, sort_by_key}
pub use Sort.{Ascending, sort_by_key-Perm, sort_by_key-Ascending, All-sort_by_key}
pub use Maps.{
  Eq, nat_eq, bytes_beq, bytes_beq_iff, bytes_eq, lookup-insert, lookup-remove, lookup_or-insert,
  lookup_or-remove, lookup_or-cons, keys, Distinct, lookup-load,
}
pub use Prim.Native.Nat.{ℕ, zero, suc, ◌+◌, ◌-◌, ◌*◌, ◌/◌, ◌%◌, ◌^◌, ◌≤◌, ◌<◌, min, max}
pub use mathlib.Core.Path.{◌≡◌, refl, sym, ap, ap₂, ◌∙◌}
pub use mathlib.Core.Logic.{◌≢◌, ◌↔◌, ◌⊎◌, inl, inr}
pub use mathlib.Core.Bool.{Bool, true, false, not, ◌&&◌, ◌||◌}
pub use mathlib.Core.Option.{Option, none, some}
pub use mathlib.Core.List.{List, [], ◌∷◌, ◌++◌, map, append_assoc, append-nil}
pub use native.Mathlib.Omega.{arith}
unfoldable pub use native.Mathlib.Decide.{dec_lt, ℕ_discrete}
