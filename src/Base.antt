-- ===== src/Base.antt =====
-- What the models of the kernel's files share: library names passed on, and five children.
mod Tests
mod Lists
mod Int
mod Loops
mod Chars
pub use Tests.*
pub use Lists.*
pub use Int.*
pub use Chars.*
unfoldable pub use Loops.{count_up}
pub use Loops.{look-count_up}
pub use Prim.Native.Nat.{ℕ, zero, suc, ◌+◌, ◌-◌, ◌*◌, ◌/◌, ◌%◌, ◌^◌, ◌≤◌, ◌<◌, min}
pub use mathlib.Core.Path.{◌≡◌, refl, sym, ap, ◌∙◌}
pub use mathlib.Core.Logic.{◌≢◌, ◌⊎◌, inl, inr}
pub use mathlib.Core.Bool.{Bool, true, false, not, ◌&&◌, ◌||◌}
pub use mathlib.Core.Option.{Option, none, some}
pub use mathlib.Core.List.{List, [], ◌∷◌, ◌++◌}
pub use native.Mathlib.Omega.{arith}
