-- ===== src/Base.antt =====
-- Shared names: those of the libraries, passed on, Boolean tests, tables and results.
pub mod Tests
pub mod Tables
pub mod Results
pub mod Lists
pub mod Rows
pub mod Texts
unfoldable pub use Tests.*
unfoldable pub use Tables.*
unfoldable pub use Results.*
pub use Rows.*
unfoldable pub use Texts.*
unfoldable pub use Lists.*
pub use Prim.Native.Nat.{ℕ, zero, suc, ◌+◌, ◌-◌, ◌*◌, ◌/◌, ◌%◌, ◌≤◌, ◌<◌}
pub use mathlib.Core.Path.{◌≡◌, refl, sym, ap, ◌∙◌}
pub use mathlib.Core.Logic.{◌≢◌, ◌⊎◌, inl, inr, ◌↔◌}
pub use mathlib.Core.Bool.{Bool, true, false, not, ◌&&◌, ◌||◌}
pub use mathlib.Core.Option.{Option, none, some}
pub use mathlib.Core.List.{List, [], ◌∷◌, ◌++◌, map, reverse}
pub use native.Mathlib.Omega.{arith}
