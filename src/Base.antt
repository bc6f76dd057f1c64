-- ===== src/Base.antt =====
-- The names that the models of the kernel share: the libraries', passed on, and those of the
-- children below, which stand for C's tests, arrays and unsigned words.
mod Tests
mod Count
mod Lists
mod Alls
mod Words
mod Updates
pub use Tests.*
unfoldable pub use Count.*
pub use Lists.*
pub use Alls.*
pub use Words.*
pub use Updates.*
pub use Prim.Native.Nat.{ℕ, zero, suc, ◌+◌, ◌-◌, ◌*◌, ◌/◌, ◌%◌, ◌^◌, ◌≤◌, ◌<◌, min, max}
pub use mathlib.Core.Path.{◌≡◌, refl, sym, ap, ap₂, subst, subst₂, fun_ext, ◌∙◌}
pub use mathlib.Core.Logic.{◌≢◌, ◌↔◌, ◌⊎◌, inl, inr}
pub use mathlib.Core.Bool.{Bool, true, false, not, ◌&&◌, ◌||◌}
pub use mathlib.Core.Option.{Option, none, some}
pub use mathlib.Core.List.{List, [], ◌∷◌, ◌++◌, map, Perm}
pub use native.Mathlib.Omega.{arith}
pub use native.Mathlib.Nat.{ℕ_set}
unfoldable pub use native.Mathlib.Decide.{dec_lt, dec_le, ℕ_discrete}
