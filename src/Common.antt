-- ===== src/Common.antt =====
-- The names that the modules of the kernel share: the libraries', passed on, and those of the
-- children: Boolean tests, lists over the native numbers, rings of bytes, and the results of kernel
-- calls.
mod Tests
mod Lists
mod Results
mod Ring
pub use Tests.*
pub use Lists.*
pub use Results.*
unfoldable pub use Ring.*
pub use Prim.Native.Nat.{ℕ, zero, suc, ◌+◌, ◌-◌, ◌*◌, ◌/◌, ◌%◌, ◌^◌, ◌≤◌, ◌<◌, min}
pub use mathlib.Core.Path.{◌≡◌, refl, sym, ap, ap₂, subst, ◌∙◌, fun_ext}
pub use mathlib.Core.Logic.{◌≢◌, ◌↔◌, ◌⊎◌, inl, inr}
pub use mathlib.Core.Bool.{Bool, true, false, false≢true, not, ◌&&◌, ◌||◌}
pub use mathlib.Core.Option.{Option, none, some}
pub use mathlib.Core.List.{List, [], ◌∷◌, ◌++◌, map}
pub use native.Mathlib.Omega.{arith}
