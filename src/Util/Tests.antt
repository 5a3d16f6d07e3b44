-- ===== src/Util/Tests.antt =====
-- Runs of util.cpp.
use vaedb.Common.{
  ℕ, ◌+◌, ◌-◌, ◌*◌, ◌≡◌, refl, true, false, not, some, List, [], ◌∷◌, Bytes, codes, arith, ltb,
  ◌==◌, eqb, lex_lt, flatten,
}
use vaedb.Common.Int.{ℤ, pos, neg}
use vaedb.Util.{
  Doubles, str_compare_nat, str_replace, replace_loop, match_length, tokenize_string, tokenize_loop,
  token_end, in_mode, is_digit, merge_floats, compare_loop, compare_token, compare_words,
  compare_numbers,
}
use vaedb.Util.Tokens.{Alternates, TailFull, tokenize_string-Splits}
use vaedb.Util.Replace.{Replaced, str_replace-Replaced}
use vaedb.Util.Compare.{str_compare_nat-neg}

abbrev digits_value : ℕ → Bytes → ℕ
digits_value n [] = n
digits_value n (c ∷ t) = digits_value (n * 10 + (c - 48)) t

near_comm : (a b : ℕ) → (a == b) ≡ (b == a)
near_comm a b = ground arith

less_total : (a b : ℕ) → (a == b) ≡ false → ltb b a ≡ not (ltb a b)
less_total a b h = ground arith

-- Natural numbers in place of doubles.
abbrev naturals : Doubles
naturals = record {
  Double = ℕ;
  lexical_cast = λ t. some (digits_value 0 t);
  near = λ a b. a == b;
  less = λ a b. ltb a b;
  IsFinite = λ d. Unit {0};
  near_comm = near_comm;
  less_total = λ a b ha hb h. less_total a b h;
  cast-IsFinite = λ t d n h e. tt;
}

str_compare_nat-neg_example :
    (r : ℤ) × (str_compare_nat naturals (codes "file9") (codes "file10") ≡ some r)
    × (str_compare_nat naturals (codes "file10") (codes "file9") ≡ some (neg r))
str_compare_nat-neg_example =
    str_compare_nat-neg naturals (codes "file9") (codes "file10") (omega arith) (omega arith)

-- The number 9 comes before the number 10.
nine_first : str_compare_nat naturals (codes "file9") (codes "file10") ≡ some (pos 1)
unfolding str_compare_nat tokenize_string tokenize_loop token_end in_mode is_digit merge_floats
    compare_loop compare_token compare_words compare_numbers lex_lt eqb
nine_first = refl

tokenize_string-Splits_run :
    (ts : List Bytes) × (tokenize_string (codes "a12.5") ≡ some ts)
    × (flatten ts ≡ codes "a12.5")
    × Alternates true ts
    × TailFull ts
tokenize_string-Splits_run = tokenize_string-Splits (codes "a12.5")

replaced : str_replace (codes "ab") (codes "x") (codes "aababc") ≡ some (codes "axxc")
unfolding str_replace replace_loop match_length
replaced = refl

str_replace-Replaced_run :
    (out : Bytes) × (str_replace (codes "ab") (codes "x") (codes "aababc") ≡ some out)
    × Replaced (codes "ab") (codes "x") (codes "aababc") out
str_replace-Replaced_run =
    str_replace-Replaced (codes "ab") (codes "x") (codes "aababc") (omega arith)
