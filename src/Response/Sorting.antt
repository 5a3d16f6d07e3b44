-- ===== src/Response/Sorting.antt =====
-- `sortCallback` of response.cpp as the order that `std::sort` asks for.
use vaedb.Common.{
  ℕ, ◌≤◌, ◌≡◌, refl, sym, ap, ◌∙◌, Bool, true, false, not, Option, none, some, List, [], ◌∷◌, inl,
  inr, arith, length, Bytes, codes, eqb, Bool-cases, if◌then◌else◌,
}
use vaedb.Common.Int.{ℤ, pos, negsuc, neg, ltb_ℤ}
use vaedb.Common.Outcome.{done, ◌>>=◌, >>=-eq-done, done-injective, bind_at}
use vaedb.Util.{Doubles}
use vaedb.Util.Compare.{str_compare_nat-neg}
use vaedb.Response.{eqb_ℤ}
use vaedb.Response.Select.{
  SortOrder, asc, desc, SortField, Contexts, compare_data, compare_field, directed, sort_callback,
}

eqb_ℤ-comm : (a b : ℤ) → eqb_ℤ a b ≡ eqb_ℤ b a
eqb_ℤ-comm (pos a) (pos b) = ground arith
eqb_ℤ-comm (pos a) (negsuc b) = ground arith
eqb_ℤ-comm (negsuc a) (pos b) = ground arith
eqb_ℤ-comm (negsuc a) (negsuc b) = ground arith

ltb_ℤ-not : (a b : ℤ) → eqb_ℤ a b ≡ false → ltb_ℤ b a ≡ not (ltb_ℤ a b)
ltb_ℤ-not (pos a) (pos b) h = ground arith
ltb_ℤ-not (pos a) (negsuc b) h = ground arith
ltb_ℤ-not (negsuc a) (pos b) h = ground arith
ltb_ℤ-not (negsuc a) (negsuc b) h = ground arith

eqb_ℤ-neg : (i : ℤ) → eqb_ℤ (neg i) (pos 0) ≡ eqb_ℤ i (pos 0)
unfolding neg
eqb_ℤ-neg (pos a) = ground arith
eqb_ℤ-neg (negsuc a) = ground arith

ltb_ℤ-neg : (i : ℤ) → eqb_ℤ i (pos 0) ≡ false → ltb_ℤ (pos 0) (neg i) ≡ not (ltb_ℤ (pos 0) i)
unfolding neg
ltb_ℤ-neg (pos a) h = ground arith
ltb_ℤ-neg (negsuc a) h = ground arith

not-not : (b : Bool) → not (not b) ≡ b
not-not true = refl
not-not false = refl

-- The answer the other way round.
abbrev turned : Option Bool → Option Bool
turned none = none
turned (some b) = some (not b)

-- No text of a context that a sort compares is longer.
abbrev pub IsShort : Contexts → Type 0
IsShort contexts = (c : ℕ) (f v : Bytes) → contexts.get_data c f ≡ done v → length v ≤ 300

module _ (contexts : Contexts) (doubles : Doubles) where
  open contexts use {get_id, get_count, get_data}

  compare_data-neg :
      (l r : Bytes)
      → length l ≤ 300
      → length r ≤ 300
      → (i : ℤ) × (compare_data doubles l r ≡ done i) × (compare_data doubles r l ≡ done (neg i))
  unfolding compare_data
  compare_data-neg l r hl hr =
      let (i, e, e') = str_compare_nat-neg doubles l r hl hr in
      (i, rw (e, compare_data) refl, rw (e', compare_data) refl)

  field_id :
      (f : SortField) (x y : ℕ)
      → eqb f.field (codes "id") ≡ true
      → compare_field contexts doubles f x y ≡ done (some (ltb_ℤ (get_id x) (get_id y)))
  unfolding compare_field
  field_id f x y t = rw (t, compare_field) refl

  by_id :
      (f : SortField) (x y : ℕ) (o : Option Bool)
      → eqb f.field (codes "id") ≡ true
      → eqb_ℤ (get_id x) (get_id y) ≡ false
      → compare_field contexts doubles f x y ≡ done o
      → compare_field contexts doubles f y x ≡ done (turned o)
  by_id f x y o t h e =
      let answer : some (ltb_ℤ (get_id x) (get_id y)) ≡ o =
        done-injective (sym (field_id f x y t) ∙ e) in
      field_id f y x t ∙ rw (← answer) (ap (λ b. done (some b)) (ltb_ℤ-not (get_id x) (get_id y) h))

  -- What two numbers say of the order.
  abbrev verdict : ℤ → ℤ → Option Bool
  verdict a b = if eqb_ℤ a b then none else some (ltb_ℤ a b)

  verdict-turned : (a b : ℤ) → verdict b a ≡ turned (verdict a b)
  verdict-turned a b = elim (Bool-cases (eqb_ℤ a b)) [
    | inl e ↦ rw (eqb_ℤ-comm b a, e) refl
    | inr e ↦ rw (eqb_ℤ-comm b a, e, ltb_ℤ-not a b e) refl
  ]

  field_count :
      (f : SortField) (x y : ℕ)
      → eqb f.field (codes "id") ≡ false
      → f.count ≡ true
      → compare_field contexts doubles f x y
        ≡ (get_count x f.field >>= λ a. get_count y f.field >>= λ b. done (verdict a b))
  unfolding compare_field
  field_count f x y t c = rw (t, c, compare_field) refl

  by_count :
      (f : SortField) (x y : ℕ) (o : Option Bool)
      → eqb f.field (codes "id") ≡ false
      → f.count ≡ true
      → compare_field contexts doubles f x y ≡ done o
      → compare_field contexts doubles f y x ≡ done (turned o)
  by_count f x y o t c e =
      let (a, ea, e1) = >>=-eq-done (get_count x f.field) _ (sym (field_count f x y t c) ∙ e) in
      let (b, eb, e2) = >>=-eq-done (get_count y f.field) _ e1 in
      let answer : verdict a b ≡ o = done-injective e2 in
      field_count f y x t c
      ∙ bind_at (get_count y f.field) _ b eb
      ∙ bind_at (get_count x f.field) _ a ea
      ∙ ap done (verdict-turned a b ∙ ap turned answer)

  -- What a comparison of texts says of the order.
  abbrev text_verdict : ℤ → Option Bool
  text_verdict i = if eqb_ℤ i (pos 0) then none else some (ltb_ℤ (pos 0) i)

  text_verdict-neg : (i : ℤ) → text_verdict (neg i) ≡ turned (text_verdict i)
  text_verdict-neg i = elim (Bool-cases (eqb_ℤ i (pos 0))) [
    | inl e ↦ rw (eqb_ℤ-neg i, e) refl
    | inr e ↦ rw (eqb_ℤ-neg i, e, ltb_ℤ-neg i e) refl
  ]

  field_text :
      (f : SortField) (x y : ℕ)
      → eqb f.field (codes "id") ≡ false
      → f.count ≡ false
      → compare_field contexts doubles f x y ≡ (
          get_data x f.field >>= λ l.
          get_data y f.field >>= λ r. compare_data doubles l r >>= λ i. done (text_verdict i))
  unfolding compare_field
  field_text f x y t c = rw (t, c, compare_field) refl

  by_text :
      (f : SortField) (x y : ℕ) (o : Option Bool)
      → IsShort contexts
      → eqb f.field (codes "id") ≡ false
      → f.count ≡ false
      → compare_field contexts doubles f x y ≡ done o
      → compare_field contexts doubles f y x ≡ done (turned o)
  by_text f x y o short t c e =
      let (l, el, e1) = >>=-eq-done (get_data x f.field) _ (sym (field_text f x y t c) ∙ e) in
      let (r, er, e2) = >>=-eq-done (get_data y f.field) _ e1 in
      let (i, there, back) = compare_data-neg l r (short x f.field l el) (short y f.field r er) in
      let answer : text_verdict i ≡ o = done-injective (rw there at e2) in
      field_text f y x t c
      ∙ bind_at (get_data y f.field) _ r er
      ∙ bind_at (get_data x f.field) _ l el
      ∙ bind_at (compare_data doubles r l) _ (neg i) back
      ∙ ap done (text_verdict-neg i ∙ ap turned answer)

  compare_field-turned :
      (f : SortField) (x y : ℕ) (o : Option Bool)
      → IsShort contexts
      → eqb_ℤ (get_id x) (get_id y) ≡ false
      → compare_field contexts doubles f x y ≡ done o
      → compare_field contexts doubles f y x ≡ done (turned o)
  compare_field-turned f x y o short h e = elim (Bool-cases (eqb f.field (codes "id"))) [
    | inl t ↦ by_id f x y o t h e
    | inr t ↦ elim (Bool-cases f.count) [
      | inl c ↦ by_count f x y o t c e
      | inr c ↦ by_text f x y o short t c e
    ]
  ]

  directed-not : (d : SortOrder) (b : Bool) → directed d (not b) ≡ not (directed d b)
  directed-not asc b = refl
  directed-not desc b = refl

  -- For two contexts with different ids: where the callback puts the first before the second, it does
  -- not put the second before the first. The texts compared have at most 300 bytes.
  pub sort_callback-asymmetric :
      (fields : List SortField) (x y : ℕ)
      → IsShort contexts
      → eqb_ℤ (get_id x) (get_id y) ≡ false
      → sort_callback contexts doubles fields x y ≡ done true
      → sort_callback contexts doubles fields y x ≡ done false
  unfolding sort_callback
  sort_callback-asymmetric [] x y short h e = absurd (cc)
  sort_callback-asymmetric (f ∷ fields) x y short h e =
      let (o, first, rest) = >>=-eq-done (compare_field contexts doubles f x y) _ e in
      rw (compare_field-turned f x y o short h first)
        (decide o rest (sort_callback-asymmetric fields x y short h))
    where
      decide :
          (o : Option Bool)
          → elim o [
            | none ↦ sort_callback contexts doubles fields x y
            | some answer ↦ done (directed f.direction answer)
          ]
            ≡ done true
          → (sort_callback contexts doubles fields x y ≡ done true
              → sort_callback contexts doubles fields y x ≡ done false)
          → elim (turned o) [
            | none ↦ sort_callback contexts doubles fields y x
            | some answer ↦ done (directed f.direction answer)
          ]
            ≡ done false
      decide none e ih = ih e
      decide (some b) e ih =
          let answer : directed f.direction b ≡ true = done-injective e in
          ap done (directed-not f.direction b ∙ ap not answer)

  -- Under a descending sort by `id` the callback puts every context before itself: `std::sort` is then
  -- called with a comparison that is no strict order.
  pub desc_id-before_itself :
      (f : SortField) (fields : List SortField) (x : ℕ)
      → f.field ≡ codes "id"
      → f.direction ≡ desc
      → sort_callback contexts doubles (f ∷ fields) x x ≡ done true
  unfolding sort_callback eqb
  desc_id-before_itself f fields x e d =
      let id : eqb f.field (codes "id") ≡ true = rw e refl in
      rw (field_id f x x id, d) (same (get_id x))
    where
      same : (i : ℤ) → done (not (ltb_ℤ i i)) ≡ done true
      same (pos a) = ground arith
      same (negsuc a) = ground arith
