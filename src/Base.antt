-- ===== src/Base.antt =====
-- The names that every module shares: the libraries', passed on, and the children's: Boolean tests
-- on numbers (Tests), lists over the native numbers (Lists), slices of them (Slices), C integers (Words), signed integers
-- (Int), the results of calls that may touch memory out of bounds (Run), well-founded order (Order).
mod Tests
mod Lists
pub mod Words
pub mod Slices
pub mod Bits
pub mod Run
pub mod Int
pub mod Order
pub use Tests.*
pub use Lists.*
pub use Prim.Native.Nat.{ℕ, zero, suc, ◌+◌, ◌-◌, ◌*◌, ◌/◌, ◌%◌, ◌^◌, ◌≤◌, ◌<◌, min}
pub use mathlib.Core.Path.{◌≡◌, refl, sym, ap, ◌∙◌}
pub use mathlib.Core.Logic.{◌≢◌, ◌↔◌, ◌⊎◌, inl, inr}
pub use mathlib.Core.Bool.{Bool, true, false, ◌&&◌, ◌||◌, not}
pub use mathlib.Core.Option.{Option, none, some}
pub use mathlib.Core.List.{List, [], ◌∷◌, ◌++◌, map}
pub use native.Mathlib.Omega.{arith}
unfoldable pub use native.Mathlib.Decide.{dec_lt, ℕ_discrete}
