-- ===== src/Common.antt =====
-- The names that the other modules share: the libraries', passed on, and those of the children.
mod Tests
mod Lists
mod Memory
mod Tables
mod Predicates
pub use Tests.*
pub use Lists.*
pub use Tables.*
pub use Predicates.*
pub use Memory.{
  Outcome, ok, abort, fault, ◌>>=◌, ◌>>◌, assert, Returns, Rc, success, failure, Bytes, size_mod,
  add_size, sub_size, double_size, through_int, copy-ok, copy-source_fault, copy-cases,
  Returns-mono, Returns-ok,
}
unfoldable pub use Memory.{copy}
pub use Prim.Native.Nat.{ℕ, zero, suc, ◌+◌, ◌-◌, ◌*◌, ◌/◌, ◌%◌, ◌^◌, ◌≤◌, ◌<◌, min}
pub use mathlib.Core.Path.{◌≡◌, refl, sym, ap, ap₂, ◌∙◌}
pub use mathlib.Core.Logic.{◌≢◌, ◌↔◌, ◌⊎◌, inl, inr}
pub use mathlib.Core.Bool.{Bool, true, false, not, ◌&&◌, ◌||◌}
pub use mathlib.Core.Option.{Option, none, some}
pub use mathlib.Core.List.{List, [], ◌∷◌, ◌++◌, append-nil, append_assoc}
pub use native.Mathlib.Omega.{arith}
