-- ===== src/Base.antt =====
-- The names that the other modules share: the libraries', passed on, and those of the children.
mod Tests
mod Lists
mod Equality
mod Integer
mod Results
pub mod Dict
pub mod Filter
pub mod Permuted
pub mod Members
pub mod Text
pub use Results.{Outcome, ok, err}
pub use Tests.*
pub use Lists.*
pub use Equality.{Eq, ◌==◌, nat_eq, string_eq, beq_refl, elem, elem-Mem}
pub use Integer.{
  ℤ, pos, negsuc, pos_part, neg_part, ltb_ℤ, leb_ℤ, beq_ℤ, beq_ℤ_iff, ◌≤ℤ◌, ◌<ℤ◌, ℤ-discrete,
  int_eq, ◌-ℤ◌,
}
pub use Prim.Native.Nat.{ℕ, zero, suc, ◌+◌, ◌-◌, ◌*◌, ◌/◌, ◌%◌, ◌^◌, ◌≤◌, ◌<◌}
pub use Prim.Native.String.{String}
pub use mathlib.Core.Path.{◌≡◌, refl, sym, ap, ◌∙◌, subst}
pub use mathlib.Core.Logic.{◌≢◌, ◌↔◌, ◌⊎◌, inl, inr}
pub use mathlib.Core.Bool.{Bool, true, false, not, ◌&&◌, ◌||◌}
pub use mathlib.Core.Option.{Option, none, some}
pub use mathlib.Core.List.{List, [], ◌∷◌, ◌++◌, map}
pub use native.Mathlib.Omega.{arith}
