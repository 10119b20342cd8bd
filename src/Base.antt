-- ===== src/Base.antt =====
-- The names that every other module shares: the libraries' ones passed on, the Boolean tests,
-- lists over the native numbers, equality as an interface, Go's maps and sets, and Go's texts.
mod Tests
mod Lists
mod Equality
mod Sets
mod Maps
pub mod Texts
mod Float
mod Int
unfoldable pub use Tests.*
unfoldable pub use Lists.*
unfoldable pub use Equality.*
unfoldable pub use Sets.*
unfoldable pub use Maps.*
unfoldable pub use Texts.*
unfoldable pub use Float.*
unfoldable pub use Int.*
pub use Prim.Native.Nat.{ℕ, zero, suc, ◌+◌, ◌-◌, ◌*◌, ◌/◌, ◌%◌, ◌^◌, ◌≤◌, ◌<◌}
pub use mathlib.Core.Path.{◌≡◌, refl, sym, ap, ◌∙◌}
pub use mathlib.Core.Logic.{◌≢◌, ◌↔◌, ◌⊎◌, inl, inr}
pub use mathlib.Core.Bool.{Bool, true, false, not, ◌&&◌, ◌||◌}
pub use mathlib.Core.Option.{Option, none, some}
pub use mathlib.Core.List.{List, [], ◌∷◌, ◌++◌, map}
pub use native.Mathlib.Omega.{arith}
