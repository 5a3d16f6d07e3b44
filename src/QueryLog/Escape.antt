-- ===== src/QueryLog/Escape.antt =====
-- When `ValueRep` of query_log.h ends.
use vaedb.Common.{
  ℕ, zero, suc, ◌+◌, ◌≤◌, ◌≡◌, refl, sym, ap, ◌∙◌, true, false, none, some, [], ◌∷◌, ◌++◌, Bytes,
  length, take, drop, leb, is_empty, ◌==◌, any, if◌then◌else◌, arith, inl, inr, Bool-cases,
  append_assoc,
}
use vaedb.QueryLog.{starts, find_in, find, splice, replace_from, value_rep}

-- A text with a byte at a place.
length-split : (s : Bytes) (c : ℕ) (t : Bytes) → length s ≤ length (s ++ c ∷ t)
length-split [] c t = omega arith
length-split (x ∷ s) c t = omega (arith, length-split s c t)

drop-split : (s t : Bytes) → drop (length s) (s ++ t) ≡ t
drop-split [] t = refl
drop-split (x ∷ s) t = drop-split s t

drop-split_more : (s : Bytes) (c : ℕ) (t : Bytes) → drop (length s + 1) (s ++ c ∷ t) ≡ t
drop-split_more [] c t = ap (λ n. drop n (c ∷ t)) (one)
  where
    one : 0 + 1 ≡ 1
    one = omega arith
drop-split_more (x ∷ s) c t =
    let more : suc (length s) + 1 ≡ suc (length s + 1) = omega arith in
    ap (λ n. drop n (x ∷ (s ++ c ∷ t))) more ∙ drop-split_more s c t

take-split : (s t : Bytes) → take (length s) (s ++ t) ≡ s
take-split [] [] = refl
take-split [] (c ∷ t) = refl
take-split (x ∷ s) t = ap (◌∷◌ x) (take-split s t)

-- Everything before the place is behind the search; the byte is found where it stands.
find_in-head : (c : ℕ) (t : Bytes) (at : ℕ) → find_in (c ∷ []) (c ∷ t) at ≡ some at
unfolding find_in starts
find_in-head c t at = ground arith

find-here :
    (s : Bytes) (c : ℕ) (t : Bytes) → find (s ++ c ∷ t) (c ∷ []) (length s) ≡ some (length s)
unfolding find
find-here s c t =
    let fits : leb (length s) (length (s ++ c ∷ t)) ≡ true = ground (arith, length-split s c t) in
    rw (fits, drop-split s (c ∷ t)) (find_in-head c t (length s))

splice-here : (s : Bytes) (c : ℕ) (t r : Bytes) → splice (s ++ c ∷ t) (length s) 1 r ≡ s ++ (r ++ t)
unfolding splice
splice-here s c t r = rw (take-split s (c ∷ t), drop-split_more s c t) refl

length-snoc : (s : Bytes) (p : ℕ) → length (s ++ p ∷ []) ≡ suc (length s)
length-snoc [] p = refl
length-snoc (x ∷ s) p = ap suc (length-snoc s p)

replace_step :
    (fuel : ℕ) (str search r : Bytes) (loc at : ℕ)
    → find str search loc ≡ some at
    → replace_from (suc fuel) str search r loc
      ≡ replace_from fuel (splice str at (length search) r) search r (suc at)
unfolding replace_from
replace_step fuel str search r loc at e = rw (e, replace_from) refl

replace_end :
    (fuel : ℕ) (str search r : Bytes) (loc : ℕ)
    → find str search loc ≡ none
    → replace_from (suc fuel) str search r loc ≡ some str
unfolding replace_from
replace_end fuel str search r loc e = rw (e, replace_from) refl

-- A byte that is replaced by itself with a byte before it is found again.
replace_from-loops :
    (fuel : ℕ) (s t : Bytes) (p c : ℕ)
    → replace_from fuel (s ++ c ∷ t) (c ∷ []) (p ∷ c ∷ []) (length s) ≡ none
unfolding replace_from
replace_from-loops zero s t p c = refl
replace_from-loops (suc fuel) s t p c =
    let again : splice (s ++ c ∷ t) (length s) 1 (p ∷ c ∷ []) ≡ (s ++ p ∷ []) ++ c ∷ t =
      splice-here s c t (p ∷ c ∷ []) ∙ sym (append_assoc s (p ∷ []) (c ∷ t)) in
    replace_step fuel (s ++ c ∷ t) (c ∷ []) (p ∷ c ∷ []) (length s) (length s) (find-here s c t)
    ∙ rw (again, ← length-snoc s p) (replace_from-loops fuel (s ++ p ∷ []) t p c)

-- Where a text has a byte, the first place of it.
first_place :
    (c : ℕ) (s : Bytes)
    → any (λ x. x == c) s ≡ true
    → (u : Bytes) × (t : Bytes) × (s ≡ u ++ c ∷ t)
      × ((at : ℕ) → find_in (c ∷ []) s at ≡ some (at + length u))
unfolding any find_in starts
first_place c [] h = absurd (cc)
first_place c (x ∷ s) h = elim (Bool-cases (x == c)) [
  | inl e ↦
      let same : x ≡ c = ground arith in
      ([], s, ap (λ y. y ∷ s) same, λ at. rw e (ap some (omega arith)))
  | inr e ↦
      let (u, t, eq, found) = first_place c s (ground arith) in
      (x ∷ u, t, ap (◌∷◌ x) eq, λ at. rw e (found (suc at) ∙ ap some (omega arith)))
]

find-start : (s search : Bytes) → find s search 0 ≡ find_in search s 0
unfolding find
find-start s search = let fits : leb 0 (length s) ≡ true = ground arith in rw fits refl

find-first :
    (c : ℕ) (u t : Bytes)
    → ((at : ℕ) → find_in (c ∷ []) (u ++ c ∷ t) at ≡ some (at + length u))
    → find (u ++ c ∷ t) (c ∷ []) 0 ≡ some (length u)
find-first c u t found = find-start (u ++ c ∷ t) (c ∷ []) ∙ found 0 ∙ ap some (omega arith)

find_in-absent :
    (c : ℕ) (s : Bytes) (at : ℕ) → any (λ x. x == c) s ≡ false → find_in (c ∷ []) s at ≡ none
unfolding any find_in starts is_empty
find_in-absent c [] at h = refl
find_in-absent c (x ∷ s) at h = ground (arith, find_in-absent c s (suc at))

-- A text that has the byte is never done with, one that has not is left as it is.
replace_from-present :
    (fuel : ℕ) (c p : ℕ) (s : Bytes)
    → any (λ x. x == c) s ≡ true
    → replace_from fuel s (c ∷ []) (p ∷ c ∷ []) 0 ≡ none
replace_from-present zero c p s h = unfold replace_from in refl
replace_from-present (suc fuel) c p s h =
    let (u, t, eq, found) = first_place c s h in
    let found' = λ (at : ℕ). ap (λ x. find_in (c ∷ []) x at) (sym eq) ∙ found at in
    let again : splice (u ++ c ∷ t) (length u) 1 (p ∷ c ∷ []) ≡ (u ++ p ∷ []) ++ c ∷ t =
      splice-here u c t (p ∷ c ∷ []) ∙ sym (append_assoc u (p ∷ []) (c ∷ t)) in
    ap (λ x. replace_from (suc fuel) x (c ∷ []) (p ∷ c ∷ []) 0) eq
    ∙ replace_step fuel (u ++ c ∷ t) (c ∷ []) (p ∷ c ∷ []) 0 (length u) (find-first c u t found')
    ∙ rw (again, ← length-snoc u p) (replace_from-loops fuel (u ++ p ∷ []) t p c)

replace_from-absent :
    (fuel : ℕ) (c : ℕ) (s r : Bytes)
    → any (λ x. x == c) s ≡ false
    → replace_from (suc fuel) s (c ∷ []) r 0 ≡ some s
replace_from-absent fuel c s r h =
    replace_end fuel s (c ∷ []) r 0 (find-start s (c ∷ []) ∙ find_in-absent c s 0 h)

-- The text of a string value: a value with a backslash or a double quote in it never gets one, since
-- the loop finds the byte again inside its own replacement, however many rounds are run. Any other
-- value is put between double quotes.
pub value_rep-ends :
    (fuel : ℕ) (val : Bytes)
    → value_rep (suc fuel) val ≡ (
        if any (λ x. x == b'\\') val
        then none
        else (if any (λ x. x == b'"') val then none else some (b'"' ∷ (val ++ b'"' ∷ []))))
unfolding value_rep
value_rep-ends fuel val = elim (Bool-cases (any (λ x. x == b'\\') val)) [
  | inl slash ↦ rw (slash, replace_from-present (suc fuel) b'\\' b'\\' val slash) refl
  | inr plain ↦ elim (Bool-cases (any (λ x. x == b'"') val)) [
    | inl quote ↦
        rw (plain, quote, replace_from-absent fuel b'\\' val (b'\\' ∷ b'\\' ∷ []) plain)
          (rw (replace_from-present (suc fuel) b'"' b'\\' val quote) refl)
    | inr none_ ↦
        rw (plain, none_, replace_from-absent fuel b'\\' val (b'\\' ∷ b'\\' ∷ []) plain)
          (rw (replace_from-absent fuel b'"' val (b'\\' ∷ b'"' ∷ []) none_) refl)
  ]
]
