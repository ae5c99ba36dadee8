-- ===== src/Prelude.antt =====
-- What every module shares: names of the libraries, passed on, and the helpers of the children.
pub mod Tests
pub mod Eq
pub mod Lists
pub mod Filter
pub mod Positions
pub mod Int
pub mod Double
pub mod Text
pub mod Map
pub mod Number
pub mod Result
pub use Tests.*
pub use Eq.{◌==◌}
pub use Prim.Native.Nat.{ℕ, zero, suc, ◌+◌, ◌-◌, ◌*◌, ◌/◌, ◌%◌, ◌≤◌, ◌<◌}
pub use mathlib.Core.Path.{◌≡◌, refl, sym, ap, ◌∙◌}
pub use mathlib.Core.Logic.{◌≢◌, ◌↔◌, ◌⊎◌, inl, inr}
pub use mathlib.Core.Bool.{Bool, true, false, not, ◌&&◌, ◌||◌}
pub use mathlib.Core.Option.{Option, none, some}
pub use mathlib.Core.List.{List, [], ◌∷◌, ◌++◌, map}
pub use native.Mathlib.Omega.{arith}
