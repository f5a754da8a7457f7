-- ===== src/Common.antt =====
-- The names that the other modules share: the libraries', passed on, and those of the children:
-- tests on numbers, lists, Go's integers, texts, maps and dynamic values.
mod Tests
pub mod Lists
mod Int
mod Text
mod Trim
mod Maps
pub mod Sorting
pub mod Decimal
pub mod Utf8
pub mod Samples
mod Values
pub use Tests.*
pub use Lists.*
pub use Int.*
unfoldable pub use Text.{
  beq, has_prefix, cut_prefix, split_levels, split_at, contains_byte, less, join, cut,
}
pub use Text.{
  Bytes, str, beq_iff, beq_refl, beq_ne, has_prefix-append, has_prefix_inv, cut_prefix_inv,
  cut_prefix-append, Free, split_levels-join, cut-append,
}
unfoldable pub use Decimal.{atoi, itoa}
unfoldable pub use Trim.{trim_space, to_lower, fold_ascii}
unfoldable pub use Maps.{lookup, insert, delete, copy, keys, sort_keys, has_key}
pub use Maps.{
  Map, lookup-insert, lookup-delete, lookup-copy, copy-ne-nil, contains-sort_keys, contains-keys,
  has_key-append,
}
pub use Values.{Value, FloatOps}
pub use Values.Value.{nil, bool, float, int, text, other}
pub use Prim.Native.Nat.{ℕ, zero, suc, ◌+◌, ◌-◌, ◌*◌, ◌/◌, ◌%◌, ◌^◌, ◌≤◌, ◌<◌}
pub use mathlib.Core.Path.{◌≡◌, refl, sym, ap, ◌∙◌}
pub use mathlib.Core.Logic.{◌≢◌, ◌↔◌, ◌⊎◌, inl, inr}
pub use mathlib.Core.Bool.{Bool, true, false, not, ◌&&◌, ◌||◌}
pub use mathlib.Core.Option.{Option, none, some}
pub use mathlib.Core.List.{List, [], ◌∷◌, ◌++◌, map}
pub use native.Mathlib.Omega.{arith}
