-- ===== src/Base.antt =====
-- Shared vocabulary: the libraries' names passed on, Boolean tests, lists measured by native
-- numbers, texts as byte lists, unsigned machine integers and results.
mod Tests
mod Lists
mod Words
mod Texts
mod Maps
mod MapSizes
pub mod Decimal
pub mod Sorting
pub mod Providers
pub use Tests.*
pub use Lists.*
pub use Words.*
unfoldable pub use Maps.*
pub use MapSizes.*
unfoldable pub use Texts.*
pub use Prim.Native.Nat.{ℕ, zero, suc, ◌+◌, ◌-◌, ◌*◌, ◌/◌, ◌%◌, ◌^◌, ◌≤◌, ◌<◌, min, max}
pub use mathlib.Core.Path.{◌≡◌, refl, sym, ap, ◌∙◌, subst, ◌≡⟨◌⟩◌, ◌∎}
pub use mathlib.Core.Logic.{◌≢◌, ◌↔◌, ◌⊎◌, inl, inr}
pub use mathlib.Core.Bool.{Bool, true, false, not, ◌&&◌, ◌||◌}
pub use mathlib.Core.Option.{Option, none, some}
pub use mathlib.Core.List.{List, [], ◌∷◌, ◌++◌, map, append-nil, append_assoc}
pub use native.Mathlib.Omega.{arith}
