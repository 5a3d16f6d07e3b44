-- ===== src/Query/Rewriting.antt =====
-- The rewriting of the predicates in query.cpp: its loops end, and what stands in quotes is kept.
use vaedb.Common.{
  ℕ, zero, suc, ◌+◌, ◌<◌, ◌≤◌, ◌≡◌, refl, ap, ◌∙◌, Bool, true, false, none, some, List, [], ◌∷◌,
  Bytes, codes, arith, All, Option-cases, inl, inr, if◌then◌else◌,
}
use vaedb.Common.Outcome.{Outcome, done, thrown, undefined, Error, ◌>>=◌}
use vaedb.Query.Replacing.{PcreLaws}
use vaedb.Query.Replacing.Weights.{Lowers, rewrites-Lowers}
use vaedb.Query.Resolve.{
  Patterns, rewrites, replace_while, rewrite_part, checked_part, rewrite_parts, rewrite_predicates,
  strstr,
}

-- Neither undefined nor out of fuel.
abbrev pub IsDefined {ℓ} : {A : Type ℓ} → Outcome A → Type 0
IsDefined (done a) = Unit
IsDefined (thrown e) = Unit
IsDefined undefined = ⊥

-- From some fuel on, a computation has one defined outcome.
abbrev pub Settles {ℓ} : {A : Type ℓ} → (ℕ → Outcome A) → Type ℓ
Settles {A = A} run =
    (n : ℕ) × (o : Outcome A) × IsDefined o × ((fuel : ℕ) → n ≤ fuel → run fuel ≡ o)

Settles-done {ℓ} : {A : Type ℓ} (a : A) → Settles (λ _. done a)
Settles-done a = (0, done a, tt, λ fuel h. refl)

Settles-thrown {ℓ} : {A : Type ℓ} (e : Error) → Settles {A = A} (λ _. thrown e)
Settles-thrown e = (0, thrown e, tt, λ fuel h. refl)

-- A chain settles if its parts do.
Settles-bind {ℓ κ} :
    {A : Type ℓ} {B : Type κ} (run : ℕ → Outcome A) (next : A → ℕ → Outcome B)
    → Settles run
    → ((a : A) → Settles (next a))
    → Settles (λ fuel. run fuel >>= λ a. next a fuel)
Settles-bind run next (n, done a, d, h) later =
    let (m, o, d', h') = later a in
    (
      n + m,
      o,
      d',
      λ fuel below.
          ap (λ r. r >>= λ a. next a fuel) (h fuel (omega (arith, below)))
          ∙ h' fuel (omega (arith, below)),
    )
Settles-bind run next (n, thrown e, d, h) later =
    (n, thrown e, tt, λ fuel below. ap (λ r. r >>= λ a. next a fuel) (h fuel below))
Settles-bind run next (n, undefined, d, h) later = absurd d

module _ (patterns : Patterns) where
  open patterns use {replace, split, join}

  -- The fuel that a loop takes is its weight and one more.
  replace_while-ends :
      (bound : ℕ) (pattern rewrite s : Bytes) (weight : Bytes → ℕ)
      → ((u t : Bytes) → replace pattern rewrite u ≡ some t → weight t < weight u)
      → weight s < bound
      → (t : Bytes) × (replace pattern rewrite t ≡ none)
        × ((fuel : ℕ) → bound ≤ fuel → replace_while patterns fuel pattern rewrite s ≡ done t)
  unfolding replace_while
  replace_while-ends zero pattern rewrite s weight lighter h = absurd (omega (arith, h))
  replace_while-ends (suc bound) pattern rewrite s weight lighter h =
      elim (Option-cases (replace pattern rewrite s)) [
        | inl e ↦ (s, e, stop e)
        | inr (u, e) ↦
            let (t, last, settled) =
              replace_while-ends bound pattern rewrite u weight lighter
                (omega (arith, h, lighter s u e)) in
            (t, last, go u t e settled)
      ]
    where
      stop :
          replace pattern rewrite s ≡ none
          → (fuel : ℕ) → suc bound ≤ fuel
          → replace_while patterns fuel pattern rewrite s ≡ done s
      stop e zero below = absurd (omega (arith, below))
      stop e (suc fuel) below = rw (e, replace_while) refl

      go :
          (u t : Bytes)
          → replace pattern rewrite s ≡ some u
          → ((fuel : ℕ) → bound ≤ fuel → replace_while patterns fuel pattern rewrite u ≡ done t)
          → (fuel : ℕ) → suc bound ≤ fuel
          → replace_while patterns fuel pattern rewrite s ≡ done t
      go u t e settled zero below = absurd (omega (arith, below))
      go u t e settled (suc fuel) below =
          rw (e, replace_while) (settled fuel (omega (arith, below)))

  rewrite_part-Settles :
      (list : List (Bytes × Bytes)) (s : Bytes)
      → All (Lowers replace) list
      → Settles (λ fuel. rewrite_part patterns fuel list s)
  unfolding rewrite_part
  rewrite_part-Settles [] s lighter = Settles-done s
  rewrite_part-Settles ((pattern, rewrite) ∷ rest) s ((weight, lower), later) =
      let (t, _, settled) =
        replace_while-ends (suc (weight s)) pattern rewrite s weight lower (omega arith) in
      Settles-bind _ _ (suc (weight s), done t, tt, settled)
        (λ t. rewrite_part-Settles rest t later)

  module _ (laws : PcreLaws replace) where
    checked_part-Settles : (s : Bytes) → Settles (λ fuel. checked_part patterns fuel s)
    unfolding checked_part
    checked_part-Settles s =
        Settles-bind _ _ (rewrite_part-Settles rewrites s (rewrites-Lowers replace laws))
          λ t. check _ t (strstr t (codes "//"))
      where
        check :
            (e : Error) (t : Bytes) (b : Bool)
            → Settles (λ (fuel : ℕ). if b then thrown e else done t)
        check e t true = Settles-thrown e
        check e t false = Settles-done t

    rewrite_parts-Settles :
        (even : Bool) (parts : List Bytes)
        → Settles (λ fuel. rewrite_parts patterns fuel even parts)
    unfolding rewrite_parts
    rewrite_parts-Settles even [] = Settles-done []
    rewrite_parts-Settles true (s ∷ rest) =
        Settles-bind _ _ (checked_part-Settles s)
          λ t. Settles-bind _ _ (rewrite_parts-Settles false rest) λ later. Settles-done (t ∷ later)
    rewrite_parts-Settles false (s ∷ rest) =
        Settles-bind _ _ (Settles-done s)
          λ t. Settles-bind _ _ (rewrite_parts-Settles true rest) λ later. Settles-done (t ∷ later)

    -- The rewriting of a query ends: if `Replace` writes the rewrite in the place of a match of each pattern, then
    -- from some number of rounds on it has one and the same outcome, a text or an exception.
    pub rewrite_predicates-Settles :
        (query : Bytes) → Settles (λ fuel. rewrite_predicates patterns fuel query)
    unfolding rewrite_predicates
    rewrite_predicates-Settles query =
        Settles-bind _ _ (rewrite_parts-Settles true (split query (codes "'")))
          λ parts. Settles-done (join parts (codes "'"))
