-- ===== src/Common/Text.antt =====
-- Texts as lists of bytes, with the operations of `std::string` that the program uses.
use Prim.Native.Char.{code}
use Prim.Native.String.{String}
use mathlib.Core.Path.{◌≡◌, refl, sym, ap, ◌∙◌}
use mathlib.Core.Logic.{inl, inr}
use mathlib.Core.Bool.{Bool, true, false, not, false≢true}
use mathlib.Core.List.{List, [], ◌∷◌}
use native.Mathlib.Omega.{arith}
use Prim.Native.Nat.{ℕ}
use vaedb.Common.Tests.{Bool-cases, ltb, ◌==◌, if◌then◌else◌}

abbrev pub Bytes : Type 0
Bytes = List ℕ

-- The bytes of a literal; the literals of the program are ASCII.
abbrev pub codes : String → Bytes
codes String.[] = []
codes (String.◌∷◌ c s) = code c ∷ codes s

-- `operator==`
unfoldable pub eqb : Bytes → Bytes → Bool
eqb [] [] = true
eqb [] (d ∷ t) = false
eqb (c ∷ s) [] = false
eqb (c ∷ s) (d ∷ t) = if c == d then eqb s t else false

-- `operator<`, byte by byte.
unfoldable pub lex_lt : Bytes → Bytes → Bool
lex_lt s [] = false
lex_lt [] (d ∷ t) = true
lex_lt (c ∷ s) (d ∷ t) = if c == d then lex_lt s t else ltb c d

pub eqb-eq : (s t : Bytes) → eqb s t ≡ true → s ≡ t
unfolding eqb
eqb-eq [] [] h = refl
eqb-eq [] (d ∷ t) h = cc
eqb-eq (c ∷ s) [] h = cc
eqb-eq (c ∷ s) (d ∷ t) h = ground (arith, eqb-eq s t)

pub eqb_refl : (s : Bytes) → eqb s s ≡ true
unfolding eqb
eqb_refl [] = refl
eqb_refl (c ∷ s) = ground (arith, eqb_refl s)

unfoldable pub Bytes-discrete : Discrete (List ℕ)
unfolding Bool-cases eqb
Bytes-discrete s t = elim (Bool-cases (eqb s t)) [
  | inl e ↦ yes (eqb-eq s t e)
  | inr e ↦ no (unequal e)
]
  where
    unequal : eqb s t ≡ false → ¬ (s ≡ t)
    unequal e p = false≢true (sym e ∙ ap (eqb s) (sym p) ∙ eqb_refl s)

pub eqb_comm : (s t : Bytes) → eqb s t ≡ eqb t s
unfolding eqb
eqb_comm [] [] = refl
eqb_comm [] (d ∷ t) = refl
eqb_comm (c ∷ s) [] = refl
eqb_comm (c ∷ s) (d ∷ t) = ground (arith, eqb_comm s t)

-- Of two different texts exactly one is smaller.
pub lex_lt_total : (s t : Bytes) → eqb s t ≡ false → lex_lt t s ≡ not (lex_lt s t)
unfolding eqb lex_lt
lex_lt_total [] [] h = cc
lex_lt_total [] (d ∷ t) h = refl
lex_lt_total (c ∷ s) [] h = refl
lex_lt_total (c ∷ s) (d ∷ t) h = ground (arith, lex_lt_total s t)
