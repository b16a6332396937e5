-- ===== src/Shared.antt =====
-- What the other modules share: the libraries' names passed on, tests on numbers, integers, texts,
-- lists, and the exceptions and actions in which the services are written.
mod Tests
pub mod Lists
pub mod Int
pub mod Text
pub mod Action
pub mod Returns
pub mod Reads
pub mod Keeps
pub mod Runs
pub mod Ends
pub use Tests.*
pub use Prim.Native.Nat.{ℕ, zero, suc, ◌+◌, ◌-◌, ◌*◌, ◌/◌, ◌%◌, ◌≤◌, ◌<◌}
pub use mathlib.Core.Path.{◌≡◌, refl, sym, ap, ◌∙◌}
pub use mathlib.Core.Logic.{◌≢◌, ◌↔◌, ◌⊎◌, inl, inr}
pub use mathlib.Core.Bool.{Bool, true, false, not, ◌&&◌, ◌||◌}
pub use mathlib.Core.Option.{Option, none, some}
pub use mathlib.Core.List.{List, [], ◌∷◌, ◌++◌, map}
pub use native.Mathlib.Omega.{arith}
