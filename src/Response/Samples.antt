-- ===== src/Response/Samples.antt =====
-- Natural numbers in place of doubles, for the tests.
use vaedb.Common.{ℕ, ◌+◌, ◌-◌, ◌*◌, ◌≡◌, false, some, [], ◌∷◌, Bytes, arith, ◌==◌, ltb, not}
use vaedb.Util.{Doubles}

abbrev pub digits_value : ℕ → Bytes → ℕ
digits_value n [] = n
digits_value n (c ∷ t) = digits_value (n * 10 + (c - 48)) t

pub near_comm : (a b : ℕ) → (a == b) ≡ (b == a)
near_comm a b = ground arith

pub less_total : (a b : ℕ) → (a == b) ≡ false → ltb b a ≡ not (ltb a b)
less_total a b h = ground arith

abbrev pub naturals : Doubles
naturals = record {
  Double = ℕ;
  lexical_cast = λ t. some (digits_value 0 t);
  near = λ a b. a == b;
  less = λ a b. ltb a b;
  IsFinite = λ d. Unit {0};
  near_comm = near_comm;
  less_total = λ a b ha hb h. less_total a b h;
  cast-IsFinite = λ t d n h e. tt;
}
