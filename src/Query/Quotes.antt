-- ===== src/Query/Quotes.antt =====
-- What the rewriting of the predicates in query.cpp leaves of a query.
use vaedb.Common.{
  ℕ, ◌≡◌, refl, sym, Bool, true, false, List, [], ◌∷◌, Bytes, codes, Bool-cases, inl, inr, subst,
}
use vaedb.Common.Outcome.{done, >>=-eq-done, done-injective}
use vaedb.Query.Resolve.{
  Patterns, rewrites, rewrite_part, checked_part, rewrite_parts, rewrite_predicates, strstr,
}

-- The parts in quotes are as before, and no other part has two slashes in a row.
abbrev pub Quoted : Bool → List Bytes → List Bytes → Type 0
Quoted even [] [] = Unit
Quoted even [] (t ∷ later) = ⊥
Quoted even (s ∷ rest) [] = ⊥
Quoted true (s ∷ rest) (t ∷ later) = (strstr t (codes "//") ≡ false) × Quoted false rest later
Quoted false (s ∷ rest) (t ∷ later) = (t ≡ s) × Quoted true rest later

module _ (patterns : Patterns) where
  open patterns use {split, join}

  checked_part-clean :
      (fuel : ℕ) (s t : Bytes)
      → checked_part patterns fuel s ≡ done t
      → strstr t (codes "//") ≡ false
  unfolding checked_part
  checked_part-clean fuel s t h =
      let (u, _, h1) = >>=-eq-done (rewrite_part patterns fuel rewrites s) _ h in
      elim (Bool-cases (strstr u (codes "//"))) [
        | inl e ↦ absurd (cc (rw e at h1))
        | inr e ↦
            subst (λ (x : Bytes). strstr x (codes "//") ≡ false) (done-injective (rw e at h1)) e
      ]

  rewrite_parts-Quoted :
      (fuel : ℕ) (even : Bool) (parts later : List Bytes)
      → rewrite_parts patterns fuel even parts ≡ done later
      → Quoted even parts later
  unfolding rewrite_parts
  rewrite_parts-Quoted fuel even [] later h = subst (Quoted even []) (done-injective h) tt
  rewrite_parts-Quoted fuel true (s ∷ rest) later h =
      let (t, here, h1) = >>=-eq-done (checked_part patterns fuel s) _ h in
      let (ts, there, h2) = >>=-eq-done (rewrite_parts patterns fuel false rest) _ h1 in
      subst (Quoted true (s ∷ rest)) (done-injective h2)
        (checked_part-clean fuel s t here, rewrite_parts-Quoted fuel false rest ts there)
  rewrite_parts-Quoted fuel false (s ∷ rest) later h =
      let (ts, there, h2) = >>=-eq-done (rewrite_parts patterns fuel true rest) _ h in
      subst (Quoted false (s ∷ rest)) (done-injective h2)
        (refl, rewrite_parts-Quoted fuel true rest ts there)

  -- If the rewriting of a query ends in a text, this text is joined from as many parts as the query has
  -- between its single quotes; the parts that stood in quotes are unchanged, and none of the others has
  -- two slashes in a row.
  pub rewrite_predicates-Quoted :
      (fuel : ℕ) (query t : Bytes)
      → rewrite_predicates patterns fuel query ≡ done t
      → (later : List Bytes) × Quoted true (split query (codes "'")) later
        × (t ≡ join later (codes "'"))
  unfolding rewrite_predicates
  rewrite_predicates-Quoted fuel query t h =
      let (later, there, h1) =
        >>=-eq-done (rewrite_parts patterns fuel true (split query (codes "'"))) _ h in
      (later, rewrite_parts-Quoted fuel true _ later there, sym (done-injective h1))
