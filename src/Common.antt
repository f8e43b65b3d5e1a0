-- ===== src/Common.antt =====
-- The names that the other modules share: the libraries', passed on, and the helpers for tests,
-- lists, Go strings and Go maps in the modules below.
mod Tests
mod Lists
pub mod Sort
pub mod Strings
pub mod Maps
pub mod Int
pub mod Atoi
pub mod Digits
pub mod Duration
pub use Tests.*
pub use Lists.*
pub use Strings.{Text, text, equal, equal_iff, equal_refl}
pub use Int.{ℤ, pos, negsuc, is_positive, rounds, int_text}
pub use Prim.Native.Nat.{ℕ, zero, suc, ◌+◌, ◌-◌, ◌*◌, ◌/◌, ◌%◌, ◌^◌, ◌≤◌, ◌<◌}
pub use mathlib.Core.Path.{◌≡◌, refl, sym, ap, ap₂, ◌∙◌}
pub use mathlib.Core.Logic.{◌≢◌, ◌↔◌, ◌⊎◌, inl, inr}
pub use mathlib.Core.Bool.{Bool, true, false, not, ◌&&◌, ◌||◌}
pub use mathlib.Core.Option.{Option, none, some}
pub use mathlib.Core.List.{List, [], ◌∷◌, ◌++◌, map, append-nil, append_assoc}
pub use native.Mathlib.Omega.{arith}
