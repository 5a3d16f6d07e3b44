-- ===== src/Site/Keys.antt =====
-- `LRUKey` of site.h, the keys of a site's cache of queries, and their order.
use vaedb.Common.{
  ℕ, suc, ◌≡◌, refl, ap, Bool, true, false, Option, none, some, [], ◌∷◌, Bytes, eqb, eqb-eq, lex_lt,
  lex_lt_total, ℕ_discrete, arith, ltb, ◌==◌, Bool-cases, inl, inr, if◌then◌else◌,
}

-- A context, which may be NULL, and a text.
abbrev pub LruKey : Type 0
LruKey = Option ℕ × Bytes

pub LruKey-discrete : Discrete LruKey
LruKey-discrete = hlevel (ℕ_discrete)

-- Contexts are ordered by their addresses, and NULL comes first.
abbrev address : Option ℕ → ℕ
address none = 0
address (some c) = suc c

-- `operator<`
unfoldable pub lru_key_lt : LruKey → LruKey → Bool
lru_key_lt (p, s) (q, t) =
    if ltb (address p) (address q)
    then true
    else (if address p == address q then lex_lt s t else false)

address-injective : (p q : Option ℕ) → address p ≡ address q → p ≡ q
address-injective none none h = refl
address-injective none (some d) h = absurd (omega (arith, h))
address-injective (some c) none h = absurd (omega (arith, h))
address-injective (some c) (some d) h = let e : c ≡ d = omega (arith, h) in ap some e

lex_lt_irreflexive : (s : Bytes) → lex_lt s s ≡ false
unfolding lex_lt
lex_lt_irreflexive [] = refl
lex_lt_irreflexive (c ∷ s) = ground (arith, lex_lt_irreflexive s)

-- Two keys of which neither is smaller are equal: so the index of the cache, a `std::map`, finds exactly
-- the entry of an equal key.
pub lru_key_lt_trichotomous :
    (a b : LruKey) → lru_key_lt a b ≡ false → lru_key_lt b a ≡ false → a ≡ b
unfolding lru_key_lt
lru_key_lt_trichotomous (p, s) (q, t) h k =
    let same : address p ≡ address q = ground (arith, h, k) in
    elim (Bool-cases (eqb s t)) [
      | inl e ↦ rw (address-injective p q same, eqb-eq s t e) refl
      | inr e ↦ absurd (ground (arith, h, k, same, lex_lt_total s t e))
    ]

-- No key is smaller than one that is smaller than it.
pub lru_key_lt_asymmetric : (a b : LruKey) → lru_key_lt a b ≡ true → lru_key_lt b a ≡ false
unfolding lru_key_lt
lru_key_lt_asymmetric (p, s) (q, t) h = elim (Bool-cases (eqb s t)) [
  | inl e ↦
      let there : lex_lt s t ≡ false = rw (← (eqb-eq s t e)) (lex_lt_irreflexive s) in
      let back : lex_lt t s ≡ false = rw (← (eqb-eq s t e)) (lex_lt_irreflexive s) in
      ground (arith, h, there, back)
  | inr e ↦ ground (arith, h, lex_lt_total s t e)
]

lex_lt_trans : (s t u : Bytes) → lex_lt s t ≡ true → lex_lt t u ≡ true → lex_lt s u ≡ true
unfolding lex_lt
lex_lt_trans s [] u h k = absurd (cc (h))
lex_lt_trans s (d ∷ t) [] h k = absurd (cc (k))
lex_lt_trans [] (d ∷ t) (e ∷ u) h k = refl
lex_lt_trans (c ∷ s) (d ∷ t) (e ∷ u) h k = ground (arith, h, k, lex_lt_trans s t u)

pub lru_key_lt_trans :
    (a b c : LruKey) → lru_key_lt a b ≡ true → lru_key_lt b c ≡ true → lru_key_lt a c ≡ true
unfolding lru_key_lt
lru_key_lt_trans (p, s) (q, t) (r, u) h k = ground (arith, h, k, lex_lt_trans s t u)
