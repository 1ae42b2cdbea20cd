-- ===== src/Base.antt =====
-- What the modules share: the library names they use, Boolean tests, lists over the native numbers,
-- and the outcome of code that can touch memory out of range or fail to return.
mod Tests
mod Lists
mod Update
mod Results
mod Text
mod Dict
mod Decimal
pub use Tests.*
pub use Lists.*
pub use Update.*
pub use Results.*
unfoldable pub use Text.*
unfoldable pub use Dict.*
unfoldable pub use Decimal.*
pub use Prim.Native.Nat.{ℕ, zero, suc, ◌+◌, ◌-◌, ◌*◌, ◌/◌, ◌%◌, ◌^◌, ◌≤◌, ◌<◌, min}
pub use mathlib.Core.Path.{◌≡◌, refl, sym, ap, ap₂, ◌∙◌}
pub use mathlib.Core.Logic.{◌≢◌, ◌↔◌, ◌⊎◌, inl, inr}
pub use mathlib.Core.Bool.{Bool, true, false, not, ◌&&◌, ◌||◌}
pub use mathlib.Core.Option.{Option, none, some}
pub use mathlib.Core.List.{List, [], ◌∷◌, ◌++◌, map, append-nil, append_assoc}
pub use native.Mathlib.Omega.{arith}
