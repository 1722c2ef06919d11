-- ===== src/Base.antt =====
-- The names that the other modules share: the libraries', passed on, and those of the children.
mod Tests
mod Lists
mod Text
mod Repeat
pub mod Utf8
pub use Tests.*
pub use Lists.*
unfoldable pub use Text.{bytes_eq, itoa, starts_with}
pub use Text.{Bytes, codes, bytes_eq_iff, bytes_eq_refl, starts_with-append}
unfoldable pub use Repeat.{repeat}
pub use Repeat.{
  repeat-inl, repeat-inr, repeat_ind, Post, goes_on, leaves, Post-eq_inr, Post-intro, Post-if,
  repeat_post,
}
pub use Prim.Native.Nat.{ℕ, zero, suc, ◌+◌, ◌-◌, ◌*◌, ◌/◌, ◌%◌, ◌≤◌, ◌<◌}
pub use mathlib.Core.Path.{◌≡◌, refl, sym, ap, ◌∙◌}
pub use mathlib.Core.Logic.{◌≢◌, ◌↔◌, ◌⊎◌, inl, inr}
pub use mathlib.Core.Bool.{Bool, true, false, not, ◌&&◌, ◌||◌}
pub use mathlib.Core.Option.{Option, none, some}
pub use mathlib.Core.List.{List, [], ◌∷◌, ◌++◌, map, append-nil, append_assoc}
pub use native.Mathlib.Omega.{arith}
