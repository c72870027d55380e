-- ===== src/Base.antt =====
-- The names that the other modules share: library names passed on, Boolean tests, lists measured
-- by native numbers, and byte strings. No code of the repository is modelled here.
mod Tests
mod Lists
mod ByteStrings
mod Results
mod Tables
mod Integers
pub use Tests.*
pub use Lists.*
unfoldable pub use ByteStrings.{bytes_equal}
pub use ByteStrings.*
pub use Integers.*
unfoldable pub use Tables.{lookup, insert, delete, values}
pub use Tables.*
pub use Results.*
pub use Prim.Native.Nat.{ℕ, zero, suc, ◌+◌, ◌-◌, ◌*◌, ◌/◌, ◌%◌, ◌^◌, ◌≤◌, ◌<◌}
pub use mathlib.Core.Path.{◌≡◌, refl, sym, ap, ◌∙◌}
pub use mathlib.Core.Logic.{◌≢◌, ◌↔◌, ◌⊎◌, inl, inr}
pub use mathlib.Core.Bool.{Bool, true, false, not, ◌&&◌, ◌||◌}
pub use mathlib.Core.Option.{Option, none, some}
pub use mathlib.Core.List.{List, [], ◌∷◌, ◌++◌, map, append-nil, append_assoc}
pub use native.Mathlib.Omega.{arith}
