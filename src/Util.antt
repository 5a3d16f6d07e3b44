-- ===== src/Util.antt =====
-- util.cpp: replacement in a text, and the natural order of texts that compares runs of digits as
-- numbers.
pub mod Replace
pub mod Tokens
pub mod Merge
pub mod Compare
mod Tests
use vaedb.Common.{
  ℕ, zero, suc, ◌+◌, ◌-◌, ◌%◌, Bool, true, false, not, ◌&&◌, ◌||◌, Option, none, some, List, [],
  ◌∷◌, ◌++◌, Bytes, codes, eqb, lex_lt, ltb, leb, ◌==◌, length, get_elem?, take, drop, ◌≤◌, ◌≡◌,
  All, ◌>>=◌, if◌then◌else◌,
}
use vaedb.Common.Int.{ℤ, pos, negsuc}

-- `while (i+j<strleng && j<sealeng && subject[i+j]==search[j]) j++;` on what is left of both texts:
-- the last value of `j`.
unfoldable pub match_length : Bytes → Bytes → ℕ
match_length [] subject = 0
match_length (d ∷ search) [] = 0
match_length (d ∷ search) (c ∷ subject) = if c == d then suc (match_length search subject) else 0

-- The outer loop from position `i`, with the buffer so far.
unfoldable pub replace_loop : ℕ → Bytes → Bytes → Bytes → ℕ → Bytes → Option Bytes
replace_loop zero search replace subject i buffer = none
replace_loop (suc fuel) search replace subject i buffer =
    let hit = replace_loop fuel search replace subject (i + length search) (buffer ++ replace) in
    let miss =
      replace_loop fuel search replace subject (i + 1) (buffer ++ take 1 (drop i subject)) in
    if ltb i (length subject)
    then (if match_length search (drop i subject) == length search then hit else miss)
    else some buffer

-- `str_replace(search, replace, subject)`
unfoldable pub str_replace : Bytes → Bytes → Bytes → Option Bytes
str_replace search replace subject =
    if length search == 0
    then some subject
    else replace_loop (suc (length subject)) search replace subject 0 []

-- `isdigit(c)`, which is taken to be 1 on a digit, as it is compared by `^` to a `bool`.
unfoldable pub is_digit : ℕ → Bool
is_digit c = leb b'0' c && leb c b'9'

-- `isdigit(c) ^ strmode`
unfoldable pub in_mode : Bool → ℕ → Bool
unfolding is_digit
in_mode strmode c = if strmode then not (is_digit c) else is_digit c

-- `token_end(s, b, strmode)`, at most `fuel` rounds; `none` also for `s.at` out of range.
unfoldable pub token_end : ℕ → Bytes → ℕ → Bool → Option ℕ
token_end zero s b strmode = none
token_end (suc fuel) s b strmode =
    let next = token_end fuel s (b + 1) strmode in
    if ltb b (length s)
    then elim (get_elem? s b) [ none ↦ none | some c ↦ if in_mode strmode c then next else some b ]
    else some b

-- The `do` loop of `tokenize_string`: `e` and `mstr` as they are before the round.
unfoldable pub tokenize_loop : ℕ → Bytes → ℕ → Bool → Option (List Bytes)
tokenize_loop zero s e mstr = none
tokenize_loop (suc fuel) s e mstr = elim (token_end (suc (length s)) s e (not mstr)) [
  | none ↦ none
  | some e' ↦
      let tok = take (e' - e) (drop e s) in
      if ltb e (length s)
      then elim (tokenize_loop fuel s e' (not mstr)) [
        | none ↦ none
        | some tokens ↦ some (tok ∷ tokens)
      ]
      else some (tok ∷ [])
]

unfoldable pub tokenize_string : Bytes → Option (List Bytes)
tokenize_string s = tokenize_loop (suc (suc (length s))) s 0 false

-- `merge_floats` on the tokens that are left.
unfoldable pub merge_floats : List Bytes → List Bytes
merge_floats [] = []
merge_floats (l ∷ []) = l ∷ []
merge_floats (l ∷ c ∷ []) = l ∷ c ∷ []
merge_floats (l ∷ c ∷ r ∷ rest) =
    let merged = (l ++ c ++ r) ∷ merge_floats rest in
    let kept = l ∷ merge_floats (c ∷ r ∷ rest) in
    if eqb c (codes ".") && not (eqb l []) && not (eqb r []) then merged else kept

-- What the comparison takes from `double` and from `boost::lexical_cast<double>`. A numeral of at most
-- 300 bytes is cast to a finite number, and of two finite numbers that are not near one is smaller.
abbrev pub IsNumeral : Bytes → Type 0
IsNumeral t = All (λ c. (is_digit c || c == b'.') ≡ true) t

pub record Doubles : Type 1 where
  pub Double : Type 0
  pub lexical_cast : Bytes → Option Double
  -- `abs(d1 - d2) < EPS`
  pub near : Double → Double → Bool
  -- `d1 < d2`
  pub less : Double → Double → Bool
  pub IsFinite : Double → Type 0
  pub near_comm : (a b : Double) → near a b ≡ near b a
  pub less_total :
      (a b : Double) → IsFinite a → IsFinite b → near a b ≡ false → less b a ≡ not (less a b)
  pub cast-IsFinite :
      (t : Bytes) (d : Double) → IsNumeral t → length t ≤ 300 → lexical_cast t ≡ some d → IsFinite d

module _ (doubles : Doubles) where
  open doubles use {Double, lexical_cast, near, less}

  -- `x < y ? 1 : -1`
  abbrev pub sign : Bool → ℤ
  sign smaller = if smaller then pos 1 else negsuc 0

  -- The part of the loop's body for two tokens that are not empty; `rest` is `continue`.
  unfoldable pub compare_words : Bytes → Bytes → ℤ → ℤ
  compare_words stok1 stok2 rest = if eqb stok1 stok2 then rest else sign (lex_lt stok1 stok2)

  unfoldable pub compare_numbers : Bytes → Bytes → ℤ → ℤ
  unfolding compare_words
  compare_numbers stok1 stok2 rest = elim (lexical_cast stok1) [
    | none ↦ compare_words stok1 stok2 rest
    | some d1 ↦ elim (lexical_cast stok2) [
      | none ↦ compare_words stok1 stok2 rest
      | some d2 ↦ if near d1 d2 then rest else sign (less d1 d2)
    ]
  ]

  unfoldable pub compare_token : Bool → Bytes → Bytes → ℤ → ℤ
  unfolding compare_words compare_numbers
  compare_token mstr stok1 stok2 rest =
      let slen1 = length stok1 in
      let slen2 = length stok2 in
      if slen1 == slen2 && slen1 == 0
      then rest
      else (if slen1 == 0 || slen2 == 0
          then sign (ltb slen1 slen2)
          else (if mstr then compare_words stok1 stok2 rest else compare_numbers stok1 stok2 rest))

  -- The loop on the tokens that are left, and the comparison of the counts behind it.
  unfoldable pub compare_loop : Bool → List Bytes → List Bytes → ℤ
  compare_loop mstr [] [] = pos 0
  compare_loop mstr [] (u ∷ us) = sign true
  compare_loop mstr (t ∷ ts) [] = sign false
  compare_loop mstr (t ∷ ts) (u ∷ us) =
      let rest = compare_loop (not mstr) ts us in compare_token (not mstr) t u rest

  unfoldable pub str_compare_nat : Bytes → Bytes → Option ℤ
  str_compare_nat s1 s2 = tokenize_string s1 >>= λ tok1. tokenize_string s2 >>= λ tok2.
      some (compare_loop false (merge_floats tok1) (merge_floats tok2))
