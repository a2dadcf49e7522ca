-- ===== src/Base.antt =====
-- Shared vocabulary: the library names that every module uses, Boolean tests on native numbers,
-- lists measured by native numbers, text as code points, and results.
mod Tests
mod Lists
mod Chars
mod Outcome
pub mod Utf8
pub mod Endian
pub mod Number
pub mod Decimal
pub use Tests.*
pub use Lists.*
unfoldable pub use Chars.*
pub use Outcome.*
pub use Prim.Native.Nat.{ℕ, zero, suc, ◌+◌, ◌-◌, ◌*◌, ◌/◌, ◌%◌, ◌^◌, ◌≤◌, ◌<◌}
pub use Prim.Native.String.{String}
pub use mathlib.Core.Path.{◌≡◌, refl, sym, ap, ◌∙◌}
pub use mathlib.Core.Logic.{◌≢◌, ◌↔◌, ◌⊎◌, inl, inr}
pub use mathlib.Core.Bool.{Bool, true, false, not, ◌&&◌, ◌||◌}
pub use mathlib.Core.Option.{Option, none, some}
pub use mathlib.Core.List.{List, [], ◌∷◌, ◌++◌, map, append-nil, append_assoc}
pub use native.Mathlib.Omega.{arith}
