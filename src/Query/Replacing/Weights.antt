-- ===== src/Query/Replacing/Weights.antt =====
-- A weight of the text that each of the five replacements in query.cpp lowers.
use vaedb.Common.{
  ℕ, ◌+◌, ◌<◌, ◌≡◌, refl, sym, ap, ◌∙◌, Bool, true, false, Option, some, [], ◌∷◌, ◌++◌,
  append_assoc, Bytes, codes, ◌==◌, ◌&&◌, arith, All, Bool-cases, inl, inr, if◌then◌else◌, subst,
}
use vaedb.Query.Resolve.{rewrites}
use vaedb.Query.Replacing.{is_name, is_end, PcreLaws}

-- The number of slashes.
slashes : Bytes → ℕ
slashes [] = 0
slashes (c ∷ s) = (if c == b'/' then 1 else 0) + slashes s

slashes-append : (s t : Bytes) → slashes (s ++ t) ≡ slashes s + slashes t
unfolding slashes
slashes-append [] t = omega arith
slashes-append (c ∷ s) t = omega (arith, slashes-append s t)

-- The number of names that are followed by such a byte.
pairs : (ℕ → Bool) → Bytes → ℕ
pairs q [] = 0
pairs q (y ∷ []) = 0
pairs q (y ∷ (c ∷ s)) = let rest = pairs q (c ∷ s) in if is_name y && q c then 1 + rest else rest

-- One pair is lost, and the first byte stays.
Lost : (ℕ → Bool) → Bytes → Bytes → Type 0
Lost q s t = (h : ℕ) × (u v : Bytes) × (s ≡ h ∷ u) × (t ≡ h ∷ v) × (pairs q s ≡ pairs q t + 1)

Lost-cons : (q : ℕ → Bool) (c : ℕ) (s t : Bytes) → Lost q s t → Lost q (c ∷ s) (c ∷ t)
unfolding Lost pairs
Lost-cons q c s t (h, u, v, is, js, less) = (c, s, t, refl, refl, count)
  where
    count : pairs q (c ∷ s) ≡ pairs q (c ∷ t) + 1
    count =
        let less' : pairs q (h ∷ u) ≡ pairs q (h ∷ v) + 1 =
          sym (ap (pairs q) is) ∙ less ∙ ap (λ x. pairs q x + 1) js in
        rw (is, js)
          (elim (Bool-cases (is_name c && q h)) [
            | inl e ↦ rw e (omega (arith, less'))
            | inr e ↦ rw e (omega (arith, less'))
          ])

Lost-append : (q : ℕ → Bool) (before s t : Bytes) → Lost q s t → Lost q (before ++ s) (before ++ t)
Lost-append q [] s t lost = lost
Lost-append q (c ∷ before) s t lost = Lost-cons q c _ _ (Lost-append q before s t lost)

abbrev text_call : Bytes
text_call = codes "/text()"

-- Bytes that do not stand behind a name in `/text()`.
abbrev IsApart : (ℕ → Bool) → Type 0
IsApart q =
    (q b'/' ≡ false) × (q b't' ≡ false) × (q b'e' ≡ false) × (q b'x' ≡ false) × (q b'(' ≡ false)

Lost-text_call :
    (q : ℕ → Bool) (y c : ℕ) (after : Bytes)
    → IsApart q
    → is_name y ≡ true
    → q c ≡ true
    → Lost q (y ∷ (c ∷ after)) (y ∷ (text_call ++ c ∷ after))
unfolding Lost pairs is_name
Lost-text_call q y c after (a0, a1, a2, a3, a4) name at = (
  y,
  c ∷ after,
  text_call ++ c ∷ after,
  refl,
  refl,
  rw (name, at, a0, a1, a2, a3, a4) (omega arith),
)

Lost-lt : (q : ℕ → Bool) (s t : Bytes) → Lost q s t → pairs q t < pairs q s
unfolding Lost
Lost-lt q s t (h, u, v, is, js, less) = omega (arith, less)

-- The names' end in a rewritten match.
regroup :
    (front rest after : Bytes) (y : ℕ)
    → ((front ++ y ∷ []) ++ rest) ++ after ≡ front ++ y ∷ (rest ++ after)
regroup front rest after y =
    append_assoc (front ++ y ∷ []) rest after ∙ append_assoc front (y ∷ []) (rest ++ after)

loses_name :
    (q : ℕ → Bool) (front : Bytes) (y c : ℕ) (rest after : Bytes)
    → IsApart q
    → is_name y ≡ true
    → q c ≡ true
    → Lost q
        (front ++ y ∷ (c ∷ (rest ++ after)))
        (((front ++ y ∷ []) ++ (text_call ++ c ∷ rest)) ++ after)
loses_name q front y c rest after apart name at =
    subst (Lost q (front ++ y ∷ (c ∷ (rest ++ after))))
      (sym (regroup front (text_call ++ c ∷ rest) after y))
      (Lost-append q front _ _ (Lost-text_call q y c (rest ++ after) apart name at))

lower_by :
    (q : ℕ → Bool) (s t s' t' : Bytes) → s ≡ s' → t ≡ t' → Lost q s' t' → pairs q t < pairs q s
lower_by q s t s' t' is js lost =
    let lower = Lost-lt q s' t' lost in omega (arith, lower, ap (pairs q) is, ap (pairs q) js)

slash_lower :
    (s t before digits after : Bytes)
    → s ≡ before ++ b'/' ∷ (digits ++ after)
    → t ≡ before ++ ((codes "[@id='" ++ (digits ++ codes "']")) ++ after)
    → slashes t < slashes s
unfolding slashes
slash_lower s t before digits after is js =
    let whole = slashes-append before (b'/' ∷ (digits ++ after)) in
    let rest = slashes-append digits after in
    let whole' = slashes-append before ((codes "[@id='" ++ (digits ++ codes "']")) ++ after) in
    let rest' = slashes-append (digits ++ codes "']") after in
    let id = slashes-append digits (codes "']") in
    omega (arith, ap slashes is, ap slashes js, whole, rest, whole', rest', id)

-- Some weight of the text is lower behind each replacement.
abbrev pub Lowers : (Bytes → Bytes → Bytes → Option Bytes) → Bytes × Bytes → Type 0
Lowers replace (pattern, rewrite) =
    (weight : Bytes → ℕ) × ((s t : Bytes)
      → replace pattern rewrite s ≡ some t
      → weight t < weight s)

abbrev is_space : ℕ → Bool
is_space c = c == b' '

abbrev is_bracket : ℕ → Bool
is_bracket c = c == b']'

is_end-IsApart : IsApart is_end
unfolding is_end is_name
is_end-IsApart = (refl, refl, refl, refl, refl)

opened_lower :
    (s t before : Bytes) (a : ℕ) (front : Bytes) (y c : ℕ) (after : Bytes)
    → is_name y ≡ true
    → is_end c ≡ true
    → s ≡ before ++ b'[' ∷ (a ∷ (front ++ y ∷ (c ∷ after)))
    → t ≡ before ++ b'[' ∷ (a ∷ (((front ++ y ∷ []) ++ (text_call ++ c ∷ [])) ++ after))
    → pairs is_end t < pairs is_end s
opened_lower s t before a front y c after name end_ is js =
    let lost = loses_name is_end front y c [] after is_end-IsApart name end_ in
    lower_by is_end s t _ _ is js
      (Lost-append is_end before _ _ (Lost-cons is_end b'[' _ _ (Lost-cons is_end a _ _ lost)))

behind_word_lower :
    (s t before word : Bytes) (a : ℕ) (front : Bytes) (y c : ℕ) (after : Bytes)
    → is_name y ≡ true
    → is_end c ≡ true
    → s ≡ before ++ b' ' ∷ (word ++ b' ' ∷ (a ∷ (front ++ y ∷ (c ∷ after))))
    → t
      ≡ before
        ++ b' ' ∷ ((word ++ b' ' ∷ (a ∷ ((front ++ y ∷ []) ++ (text_call ++ c ∷ [])))) ++ after)
    → pairs is_end t < pairs is_end s
behind_word_lower s t before word a front y c after name end_ is js =
    let lost = loses_name is_end front y c [] after is_end-IsApart name end_ in
    let inner =
      Lost-append is_end word _ _ (Lost-cons is_end b' ' _ _ (Lost-cons is_end a _ _ lost)) in
    lower_by is_end s t _ _ is
      (js ∙ ap (λ (l : Bytes). before ++ b' ' ∷ l) (append_assoc word _ after))
      (Lost-append is_end before _ _ (Lost-cons is_end b' ' _ _ inner))

before_word_lower :
    (s t before : Bytes) (x a : ℕ) (front : Bytes) (y : ℕ) (word after : Bytes)
    → is_name y ≡ true
    → s ≡ before ++ x ∷ (a ∷ (front ++ y ∷ (b' ' ∷ (word ++ b' ' ∷ after))))
    → t
      ≡ before
        ++ x ∷ (a ∷ (((front ++ y ∷ []) ++ (text_call ++ b' ' ∷ (word ++ b' ' ∷ []))) ++ after))
    → pairs is_space t < pairs is_space s
before_word_lower s t before x a front y word after name is js =
    let lost =
      loses_name is_space front y b' ' (word ++ b' ' ∷ []) after (refl, refl, refl, refl, refl) name
        refl in
    lower_by is_space s t _ _
      (is
        ∙ ap (λ (l : Bytes). before ++ x ∷ (a ∷ (front ++ y ∷ (b' ' ∷ l))))
            (sym (append_assoc word (b' ' ∷ []) after)))
      js
      (Lost-append is_space before _ _ (Lost-cons is_space x _ _ (Lost-cons is_space a _ _ lost)))

closed_lower :
    (s t before : Bytes) (x a : ℕ) (front : Bytes) (y : ℕ) (after : Bytes)
    → is_name y ≡ true
    → s ≡ before ++ x ∷ (a ∷ (front ++ y ∷ (b']' ∷ after)))
    → t ≡ before ++ x ∷ (a ∷ (((front ++ y ∷ []) ++ (text_call ++ b']' ∷ [])) ++ after))
    → pairs is_bracket t < pairs is_bracket s
closed_lower s t before x a front y after name is js =
    let lost =
      loses_name is_bracket front y b']' [] after (refl, refl, refl, refl, refl) name refl in
    lower_by is_bracket s t _ _ is js (
      Lost-append is_bracket before _ _
        (Lost-cons is_bracket x _ _ (Lost-cons is_bracket a _ _ lost)))

-- Each of the five replacements lowers a weight: the slashes, or the names that an end, a space or a bracket follows.
pub rewrites-Lowers :
    (replace : Bytes → Bytes → Bytes → Option Bytes)
    → PcreLaws replace
    → All (Lowers replace) rewrites
rewrites-Lowers replace laws = (
  (
    slashes,
    λ s t h.
        let (before, digits, after, is, js) = laws.ids _ s t h in
        slash_lower s t before digits after is js,
  ),
  (
    (
      pairs is_end,
      λ s t h.
          let (before, a, front, y, c, after, name, end_, is, js) = laws.opened _ s t h in
          opened_lower s t before a front y c after name end_ is js,
    ),
    (
      (
        pairs is_end,
        λ s t h.
            let (before, word, a, front, y, c, after, name, end_, is, js) =
              laws.behind_word _ s t h in
            behind_word_lower s t before word a front y c after name end_ is js,
      ),
      (
        (
          pairs is_space,
          λ s t h.
              let (before, x, a, front, y, word, after, name, is, js) = laws.before_word _ s t h in
              before_word_lower s t before x a front y word after name is js,
        ),
        (
          (
            pairs is_bracket,
            λ s t h.
                let (before, x, a, front, y, after, name, is, js) = laws.closed _ s t h in
                closed_lower s t before x a front y after name is js,
          ),
          tt,
        ),
      ),
    ),
  ),
)
