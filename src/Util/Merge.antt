-- ===== src/Util/Merge.antt =====
-- `merge_floats` of util.cpp: digits, a point and digits become one token.
use vaedb.Common.{
  ℕ, ◌+◌, ◌≤◌, ◌≡◌, refl, sym, ap, subst, Bool, true, false, not, ◌&&◌, List, [], ◌∷◌, ◌++◌,
  flatten, append_assoc, Bytes, codes, eqb, eqb-eq, arith, length, length-append, Bool-cases, inl,
  inr, All,
}
use vaedb.Util.{is_digit, in_mode, merge_floats, IsNumeral}
use vaedb.Util.Tokens.{IsRun, Alternates}

-- The shape of a token: a run without digits, or digits and points.
abbrev pub IsToken : Bool → Bytes → Type 0
IsToken true t = IsRun true t
IsToken false t = IsNumeral t

abbrev pub Shaped : Bool → List Bytes → Type 0
Shaped m [] = Unit
Shaped m (t ∷ ts) = IsToken m t × Shaped (not m) ts

abbrev is_float : Bytes → Bytes → Bytes → Bool
is_float l c r = eqb c (codes ".") && not (eqb l []) && not (eqb r [])

merge_yes :
    (l c r : Bytes) (rest : List Bytes)
    → is_float l c r ≡ true
    → merge_floats (l ∷ c ∷ r ∷ rest) ≡ (l ++ c ++ r) ∷ merge_floats rest
unfolding merge_floats
merge_yes l c r rest h = ground arith

merge_no :
    (l c r : Bytes) (rest : List Bytes)
    → is_float l c r ≡ false
    → merge_floats (l ∷ c ∷ r ∷ rest) ≡ l ∷ merge_floats (c ∷ r ∷ rest)
unfolding merge_floats
merge_no l c r rest h = ground arith

-- Merging moves no byte.
pub flatten-merge_floats : (ts : List Bytes) → flatten (merge_floats ts) ≡ flatten ts
unfolding merge_floats flatten
flatten-merge_floats [] = refl
flatten-merge_floats (l ∷ []) = refl
flatten-merge_floats (l ∷ c ∷ []) = refl
flatten-merge_floats (l ∷ c ∷ r ∷ rest) = elim (Bool-cases (is_float l c r)) [
  | inl joined ↦ rw (merge_yes l c r rest joined) (simp (flatten-merge_floats rest, append_assoc))
  | inr apart ↦ rw (merge_no l c r rest apart) (ap (◌++◌ l) (flatten-merge_floats (c ∷ r ∷ rest)))
]

IsNumeral-of_IsRun : (t : Bytes) → IsRun false t → IsNumeral t
unfolding in_mode
IsNumeral-of_IsRun [] h = tt
IsNumeral-of_IsRun (c ∷ t) h = (ground (arith, h.0), IsNumeral-of_IsRun t h.1)

IsNumeral-append : (s t : Bytes) → IsNumeral s → IsNumeral t → IsNumeral (s ++ t)
IsNumeral-append [] t hs ht = ht
IsNumeral-append (c ∷ s) t hs ht = (hs.0, IsNumeral-append s t hs.1 ht)

IsToken-of_IsRun : (m : Bool) (t : Bytes) → IsRun m t → IsToken m t
IsToken-of_IsRun true t h = h
IsToken-of_IsRun false t h = IsNumeral-of_IsRun t h

is_point : (l c r : Bytes) → is_float l c r ≡ true → c ≡ codes "."
is_point l c r h = eqb-eq c (codes ".") (ground arith)

-- A point is no run of digits.
point_between : (c : Bytes) → c ≡ codes "." → ¬ IsRun false c
unfolding in_mode is_digit
point_between c e h = let h' : IsRun false (codes ".") = subst (IsRun false) e h in cc (h'.0)

float-IsNumeral :
    (l c r : Bytes) → c ≡ codes "." → IsRun false l → IsRun false r → IsNumeral (l ++ c ++ r)
unfolding is_digit
float-IsNumeral l c r e hl hr =
    IsNumeral-append (l ++ c) r
      (IsNumeral-append l c (IsNumeral-of_IsRun l hl) (subst IsNumeral (sym e) (refl, tt)))
      (IsNumeral-of_IsRun r hr)

-- Merging keeps the alternation: every second token is a numeral.
pub merge_floats-Shaped :
    (m : Bool) (ts : List Bytes) → Alternates m ts → Shaped m (merge_floats ts)
unfolding merge_floats
merge_floats-Shaped m [] a = tt
merge_floats-Shaped m (l ∷ []) a = (IsToken-of_IsRun m l a.0, tt)
merge_floats-Shaped m (l ∷ c ∷ []) a =
    (IsToken-of_IsRun m l a.0, (IsToken-of_IsRun (not m) c a.1.0, tt))
merge_floats-Shaped true (l ∷ c ∷ r ∷ rest) a = elim (Bool-cases (is_float l c r)) [
  | inl joined ↦ absurd (point_between c (is_point l c r joined) a.1.0)
  | inr apart ↦ rw (merge_no l c r rest apart) (a.0, merge_floats-Shaped false (c ∷ r ∷ rest) a.1)
]
merge_floats-Shaped false (l ∷ c ∷ r ∷ rest) a = elim (Bool-cases (is_float l c r)) [
  | inl joined ↦ rw (merge_yes l c r rest joined) (
    float-IsNumeral l c r (is_point l c r joined) a.0 a.1.1.0,
    merge_floats-Shaped true rest a.1.1.1,
  )
  | inr apart ↦
      rw (merge_no l c r rest apart)
        (IsNumeral-of_IsRun l a.0, merge_floats-Shaped true (c ∷ r ∷ rest) a.1)
]

-- Every token is no longer than the whole text.
pub length-tokens-le :
    (n : ℕ) (ts : List Bytes) → length (flatten ts) ≤ n → All (λ t. length t ≤ n) ts
unfolding flatten
length-tokens-le n [] h = tt
length-tokens-le n (t ∷ ts) h =
    let both : length (t ++ flatten ts) ≡ length t + length (flatten ts) =
      length-append t (flatten ts) in
    (omega (arith, both), length-tokens-le n ts (omega (arith, both)))
