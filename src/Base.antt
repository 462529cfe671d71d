-- ===== src/Base.antt =====
-- The names that the components share: the libraries', passed on, and those of four children.
mod Tests
mod Lists
mod Strings
mod HashMap
pub use Tests.*
pub use Lists.{
  length, take, drop, length-append, All, Any, All-append, All-middle, All-map, All-take, Any-map,
  length-take,
}
unfoldable pub use Lists.{all, any}
pub use Strings.{Str, str, str_eq_refl, eq_of_str_eq, str_eq_iff}
unfoldable pub use Strings.{str_eq, is_empty, starts_with, contains}
pub use HashMap.{
  Map, get-insert, get-remove, get-insert_self, get-remove_self, IsDistinct, insert-IsDistinct,
  remove-IsDistinct, insert_new, map_laws, Fresh, Fresh-insert, Fresh-nil, remove-insert_new,
}
unfoldable pub use HashMap.{get, insert, remove, contains_key}
pub use Prim.Native.Nat.{ℕ, zero, suc, ◌+◌, ◌-◌, ◌*◌, ◌/◌, ◌%◌, ◌^◌, ◌≤◌, ◌<◌, min, max}
pub use mathlib.Core.Path.{◌≡◌, refl, sym, ap, ◌∙◌}
pub use mathlib.Core.Logic.{◌≢◌, ◌↔◌, ◌⊎◌, inl, inr}
pub use mathlib.Core.Bool.{Bool, true, false, not, ◌&&◌, ◌||◌}
pub use mathlib.Core.Option.{Option, none, some}
pub use mathlib.Core.List.{List, [], ◌∷◌, ◌++◌, map, append_assoc, append-nil}
pub use native.Mathlib.Omega.{arith}
