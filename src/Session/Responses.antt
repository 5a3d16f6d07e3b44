-- ===== src/Session/Responses.antt =====
-- The ids of the responses of a session.
use vaedb.Common.{
  ℕ, zero, suc, ◌+◌, ◌<◌, ◌≤◌, ◌≡◌, refl, sym, ap, ◌∙◌, none, some, List, [], ◌∷◌, ◌++◌, Bytes,
  codes, length, get_elem?, arith,
}
use vaedb.Common.Int.{ℤ, pos, negsuc}
use vaedb.Common.Outcome.{done, thrown, undefined, internal_error, >>=-eq-done, done-injective}
use vaedb.Json.{JsonLibrary}
use vaedb.Session.{ResponseClass, Session, invalid, element, response_at, parent_at, session_get}

get_elem?-append {ℓ} :
    {A : Type ℓ} (xs : List A) (x : A) (i : ℕ)
    → i < length xs
    → get_elem? (xs ++ x ∷ []) i ≡ get_elem? xs i
get_elem?-append [] x i h = absurd (omega arith)
get_elem?-append (y ∷ ys) x zero h = refl
get_elem?-append (y ∷ ys) x (suc i) h = get_elem?-append ys x i (omega arith)

get_elem?-last {ℓ} :
    {A : Type ℓ} (xs : List A) (x : A) → get_elem? (xs ++ x ∷ []) (length xs) ≡ some x
get_elem?-last [] x = refl
get_elem?-last (y ∷ ys) x = get_elem?-last ys x

get_elem?-lt {ℓ} :
    {A : Type ℓ} (xs : List A) (i : ℕ) (x : A) → get_elem? xs i ≡ some x → i < length xs
get_elem?-lt [] i x h = absurd (cc)
get_elem?-lt (y ∷ ys) zero x h = omega arith
get_elem?-lt (y ∷ ys) (suc i) x h = let lt = get_elem?-lt ys i x h in omega (arith, lt)

get_elem?-some {ℓ} :
    {A : Type ℓ} (xs : List A) (i : ℕ) → i < length xs → (x : A) × (get_elem? xs i ≡ some x)
get_elem?-some [] i h = absurd (omega arith)
get_elem?-some (y ∷ ys) zero h = (y, refl)
get_elem?-some (y ∷ ys) (suc i) h = get_elem?-some ys i (omega arith)

get_elem?-none {ℓ} : {A : Type ℓ} (xs : List A) (i : ℕ) → length xs ≤ i → get_elem? xs i ≡ none
get_elem?-none [] i h = refl
get_elem?-none (y ∷ ys) zero h = absurd (omega arith)
get_elem?-none (y ∷ ys) (suc i) h = get_elem?-none ys i (omega arith)

module _ (library : JsonLibrary) (Site : Type 0) (class : ResponseClass library Site) where
  open library use {Json, number, put}
  open class use {Response, new_query, get_json, get_data, get_structure}

  element-some :
      (rs : List Response) (n : ℕ) (r : Response)
      → get_elem? rs n ≡ some r
      → element library Site class rs n ≡ done r
  unfolding element
  element-some rs n r e = rw (e, element) refl

  element-none :
      (rs : List Response) (n : ℕ)
      → get_elem? rs n ≡ none
      → element library Site class rs n ≡ invalid library Site class
  unfolding element
  element-none rs n e = rw (e, element) refl

  element-append :
      (rs : List Response) (r : Response) (n : ℕ)
      → n < length rs
      → element library Site class (rs ++ r ∷ []) n ≡ element library Site class rs n
  unfolding element
  element-append rs r n h = rw (get_elem?-append rs r n h, element) refl

  abbrev pushed : Session library Site class → Response → Session library Site class
  pushed s r = record s { responses = s.responses ++ r ∷ [] }

  pushed_last :
      (s : Session library Site class) (r : Response)
      → response_at library Site class (pushed s r) (pos (suc (length s.responses))) ≡ done r
  unfolding response_at
  pushed_last s r =
      element-some (s.responses ++ r ∷ []) (length s.responses) r (get_elem?-last s.responses r)

  pushed_before :
      (s : Session library Site class) (r : Response) (n : ℕ)
      → n < length s.responses
      → response_at library Site class (pushed s r) (pos (suc n))
        ≡ response_at library Site class s (pos (suc n))
  unfolding response_at
  pushed_before s r n h = element-append s.responses r n h

  -- A successful `get` answers with the id under which `data` and `structure` find the new response
  -- from then on; the responses of the ids given out before stay what they were.
  pub session_get-adds :
      (s s' : Session library Site class) (response_id : ℤ) (query : Bytes)
      (options : List (Bytes × Bytes)) (res : Json)
      → session_get library Site class s response_id query options ≡ done (res, s')
      → (r : Response) × (json_ : Json) × (get_json r ≡ done json_)
        × (res ≡ put json_ (codes "id") (number (pos (length s.responses + 1))))
        × (response_at library Site class s' (pos (suc (length s.responses))) ≡ done r)
        × ((n : ℕ)
            → n < length s.responses
            → response_at library Site class s' (pos (suc n))
              ≡ response_at library Site class s (pos (suc n)))
  unfolding session_get response_at element
  session_get-adds s s' response_id query options res h =
      let (parent, at, h1) = >>=-eq-done (parent_at library Site class s response_id) _ h in
      let (r, made, h2) = >>=-eq-done (new_query s.site parent query options) _ h1 in
      let (json_, e, h3) = >>=-eq-done (get_json r) _ h2 in
      let both = done-injective h3 in
      let at_id = λ (t : Session library Site class) (n : ℕ).
        response_at library Site class t (pos (suc n)) in
      let after : s' ≡ pushed s r = sym (ap (λ p. p.1) both) in
      (
        r,
        json_,
        e,
        sym (ap (λ p. p.0) both),
        ap (λ t. at_id t (length s.responses)) after ∙ pushed_last s r,
        λ n lt. ap (λ t. at_id t n) after ∙ pushed_before s r n lt,
      )

  -- The views by id: each id from 1 up to the number of responses finds the response at its place, every larger
  -- and every negative id is refused with the internal error "Invalid responseId", and the id 0 is neither: the
  -- code then reads before the first element.
  pub response_at-cases :
      (s : Session library Site class)
      → ((n : ℕ)
          → n < length s.responses
          → (r : Response) × (get_elem? s.responses n ≡ some r)
            × (response_at library Site class s (pos (suc n)) ≡ done r))
        × ((n : ℕ)
            → length s.responses ≤ n
            → response_at library Site class s (pos (suc n))
              ≡ thrown (internal_error (codes "Invalid responseId")))
        × ((n : ℕ)
            → response_at library Site class s (negsuc n)
              ≡ thrown (internal_error (codes "Invalid responseId")))
        × (response_at library Site class s (pos 0) ≡ undefined)
  unfolding response_at
  response_at-cases s = (
    λ n h. let (r, e) = get_elem?-some s.responses n h in (r, e, element-some s.responses n r e),
    λ n h. element-none s.responses n (get_elem?-none s.responses n h),
    λ n. refl,
    refl,
  )
