-- ===== src/Common.antt =====
-- What the components share: library names passed on, tests, lists, Python dicts and sets, results.
mod Tests
mod Lists
mod Dicts
mod Results
mod Number
mod Sort
mod Counting
mod Order
pub use Tests.*
pub use Lists.*
pub use Dicts.*
pub use Results.*
pub use Number.*
pub use Sort.*
pub use Counting.*
pub use Order.*
pub use Prim.Native.Nat.{ℕ, zero, suc, ◌+◌, ◌-◌, ◌*◌, ◌/◌, ◌%◌, ◌^◌, ◌≤◌, ◌<◌, min, max}
pub use Prim.Native.String.{String}
pub use mathlib.Core.Path.{◌≡◌, refl, sym, ap, ◌∙◌, subst}
pub use mathlib.Core.Logic.{◌≢◌, ◌↔◌, ◌⊎◌, inl, inr}
pub use mathlib.Core.Bool.{Bool, true, false, not, ◌&&◌, ◌||◌}
pub use mathlib.Core.Option.{Option, none, some}
pub use mathlib.Core.List.{List, [], ◌∷◌, ◌++◌, map}
pub use native.Mathlib.Omega.{arith}
