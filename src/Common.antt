-- ===== src/Common.antt =====
-- Shared vocabulary: names of the libraries, tests on numbers, lists, and finite maps.
mod Tests
mod Lists
pub mod Map
mod Text
pub mod Int
pub mod Machine
pub mod Outcome
pub use Tests.*
unfoldable pub use Tests.{Bool-cases}
pub use Lists.*
unfoldable pub use Lists.{keep, any, every, is_empty}
unfoldable pub use Text.{eqb, lex_lt, Bytes-discrete}
pub use Text.{Bytes, codes, eqb-eq, eqb_refl, eqb_comm, lex_lt_total}
pub use Prim.Native.Nat.{ℕ, zero, suc, ◌+◌, ◌-◌, ◌*◌, ◌/◌, ◌%◌, ◌^◌, ◌≤◌, ◌<◌, min, max}
pub use mathlib.Core.Path.{◌≡◌, refl, sym, ap, subst, fun_ext, ◌∙◌}
pub use mathlib.Core.Logic.{◌≢◌, ◌↔◌, ◌⊎◌, inl, inr, ite, dite, if_pos, if_neg}
pub use mathlib.Core.Bool.{Bool, true, false, not, ◌&&◌, ◌||◌}
pub use mathlib.Core.Option.{Option, none, some}
pub use mathlib.Core.List.{List, [], ◌∷◌, ◌++◌, map, reverse, append-nil, append_assoc}
unfoldable pub use mathlib.Core.List.{flatten}
pub use native.Mathlib.Omega.{arith}
unfoldable pub use native.Mathlib.Decide.{dec_lt, dec_le, ℕ_discrete}
