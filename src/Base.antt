-- ===== src/Base.antt =====
-- The names that every other module shares: the library's, passed on, and those of the children,
-- which hold the tests on numbers (Tests), lists measured by native numbers (Lists) and their places
-- (Places), signed integers (Int), texts as bytes (Text), actions that may fail (Exec) and maps
-- (Assoc).
mod Tests
mod Lists
mod Places
pub mod Int
pub mod Text
pub mod Exec
pub mod Assoc
pub mod Keeps
pub use Tests.*
pub use Lists.*
pub use Places.*
pub use Prim.Native.Nat.{ℕ, zero, suc, ◌+◌, ◌-◌, ◌*◌, ◌/◌, ◌%◌, ◌^◌, ◌≤◌, ◌<◌, min, max}
pub use Prim.Native.String.{String}
pub use mathlib.Core.Path.{◌≡◌, refl, sym, ap, ◌∙◌}
pub use mathlib.Core.Logic.{◌≢◌, ◌↔◌, ◌⊎◌, inl, inr}
pub use mathlib.Core.Bool.{Bool, true, false, not, ◌&&◌, ◌||◌}
pub use mathlib.Core.Option.{Option, none, some}
pub use mathlib.Core.List.{List, [], ◌∷◌, ◌++◌, map, append-nil, append_assoc}
pub use native.Mathlib.Omega.{arith}
