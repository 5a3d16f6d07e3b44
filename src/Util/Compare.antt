-- ===== src/Util/Compare.antt =====
-- `str_compare_nat` of util.cpp is total and antisymmetric.
use vaedb.Common.{
  ◌≤◌, ◌≡◌, refl, ap, Bool, true, false, not, some, List, [], ◌∷◌, flatten, Bytes, eqb_comm,
  lex_lt_total, arith, length, Option-cases, inl, inr, All,
}
use vaedb.Common.Int.{ℤ, neg}
use vaedb.Util.{
  IsNumeral, Doubles, merge_floats, compare_words, compare_numbers, compare_token, compare_loop,
  str_compare_nat,
}
use vaedb.Util.Tokens.{tokenize_string-Splits}
use vaedb.Util.Merge.{IsToken, Shaped, flatten-merge_floats, merge_floats-Shaped, length-tokens-le}

module _ (doubles : Doubles) where
  open doubles use {
    Double, lexical_cast, near, less, IsFinite, near_comm, less_total, cast-IsFinite,
  }

  words-neg :
      (t u : Bytes) (a b : ℤ)
      → b ≡ neg a
      → compare_words doubles u t b ≡ neg (compare_words doubles t u a)
  unfolding compare_words neg
  words-neg t u a b h = ground (arith, eqb_comm t u, lex_lt_total t u)

  numbers-neg :
      (t u : Bytes) (a b : ℤ)
      → IsNumeral t
      → IsNumeral u
      → length t ≤ 300
      → length u ≤ 300
      → b ≡ neg a
      → compare_numbers doubles u t b ≡ neg (compare_numbers doubles t u a)
  unfolding compare_numbers neg
  numbers-neg t u a b nt nu lt lu h = elim (Option-cases (lexical_cast t)) [
    | inl et ↦ elim (Option-cases (lexical_cast u)) [
      | inl eu ↦ ground (arith, et, eu, eqb_comm t u, lex_lt_total t u)
      | inr (d, eu) ↦ ground (arith, et, eu, eqb_comm t u, lex_lt_total t u)
    ]
    | inr (c, et) ↦ elim (Option-cases (lexical_cast u)) [
      | inl eu ↦ ground (arith, et, eu, eqb_comm t u, lex_lt_total t u)
      | inr (d, eu) ↦ ground (
        arith,
        et,
        eu,
        near_comm c d,
        less_total c d (cast-IsFinite t c nt lt et) (cast-IsFinite u d nu lu eu),
      )
    ]
  ]

  token-neg :
      (m : Bool) (t u : Bytes) (a b : ℤ)
      → IsToken m t
      → IsToken m u
      → length t ≤ 300
      → length u ≤ 300
      → b ≡ neg a
      → compare_token doubles m u t b ≡ neg (compare_token doubles m t u a)
  token-neg true t u a b nt nu lt lu h =
      unfold compare_token neg in ground (arith, words-neg t u a b h)
  token-neg false t u a b nt nu lt lu h =
      unfold compare_token neg in ground (arith, numbers-neg t u a b nt nu lt lu h)

  loop-neg :
      (m : Bool) (ts us : List Bytes)
      → Shaped (not m) ts
      → Shaped (not m) us
      → All (λ t. length t ≤ 300) ts
      → All (λ t. length t ≤ 300) us
      → compare_loop doubles m us ts ≡ neg (compare_loop doubles m ts us)
  unfolding compare_loop neg
  loop-neg m [] [] st su lt lu = refl
  loop-neg m [] (u ∷ us) st su lt lu = refl
  loop-neg m (t ∷ ts) [] st su lt lu = refl
  loop-neg m (t ∷ ts) (u ∷ us) st su lt lu =
      token-neg (not m) t u (compare_loop doubles (not m) ts us)
        (compare_loop doubles (not m) us ts) st.0 su.0 lt.0 lu.0
        (loop-neg (not m) ts us st.1 su.1 lt.1 lu.1)

  -- The comparison of texts of at most 300 bytes always has a result, and the comparison the other
  -- way round has the opposite one. So two texts compare as 0 in both orders or in neither.
  pub str_compare_nat-neg :
      (s1 s2 : Bytes)
      → length s1 ≤ 300
      → length s2 ≤ 300
      → (r : ℤ) × (str_compare_nat doubles s1 s2 ≡ some r)
        × (str_compare_nat doubles s2 s1 ≡ some (neg r))
  unfolding str_compare_nat
  str_compare_nat-neg s1 s2 l1 l2 =
      let (ts, e1, f1, a1, _) = tokenize_string-Splits s1 in
      let (us, e2, f2, a2, _) = tokenize_string-Splits s2 in
      let sizes = λ (ts : List Bytes) (s : Bytes) (f : flatten ts ≡ s) (l : length s ≤ 300).
        length-tokens-le 300 (merge_floats ts) (rw (flatten-merge_floats ts, f) l) in
      (
        compare_loop doubles false (merge_floats ts) (merge_floats us),
        rw (e1, e2),
        rw (e2, e1)
            (ap some (
              loop-neg false (merge_floats ts) (merge_floats us) (merge_floats-Shaped true ts a1)
                (merge_floats-Shaped true us a2) (sizes ts s1 f1 l1) (sizes us s2 f2 l2))),
      )
