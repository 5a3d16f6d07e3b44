-- ===== src/Query/Replacing.antt =====
-- What pcrecpp promises of the five replacements in query.cpp.
pub mod Weights
use vaedb.Common.{
  ℕ, zero, suc, ◌+◌, ◌-◌, ◌<◌, ◌≡◌, ◌≢◌, refl, sym, ap, ◌∙◌, Bool, true, false, Option, some, List,
  [], ◌∷◌, ◌++◌, append_assoc, Bytes, codes, leb, ◌==◌, ◌&&◌, not, arith, All, Bool-cases, inl, inr,
  ◌⊎◌, if◌then◌else◌, subst,
}
use vaedb.Query.Resolve.{Patterns, rewrites}

-- The group of a number from 0 on, and a rewrite with `\1`, `\2` and so on replaced by the groups.
abbrev pub group_at : ℕ → List Bytes → Bytes
group_at n [] = []
group_at zero (g ∷ groups) = g
group_at (suc n) (g ∷ groups) = group_at n groups

abbrev pub expand : Bytes → List Bytes → Bytes
expand [] groups = []
expand (c ∷ []) groups = c ∷ []
expand (c ∷ (d ∷ rest)) groups =
    let plain = c ∷ expand (d ∷ rest) groups in
    let group = group_at (d - b'1') groups ++ expand rest groups in
    if c == b'\\' then group else plain

-- The class `[a-z0-9_/]`.
unfoldable pub is_name : ℕ → Bool
is_name c =
    if leb b'a' c && leb c b'z'
    then true
    else (if leb b'/' c && leb c b'9' then true else c == b'_')

-- The class `[^(a-z0-9_/]`.
unfoldable pub is_end : ℕ → Bool
is_end c = if c == b'(' then false else not (is_name c)

-- A replacement writes the rewrite in the place of a match. In the match of one of the last four patterns, `a` is
-- the first byte of a name, `front` its other bytes but the last and `y` the last one.
pub record PcreLaws (replace : Bytes → Bytes → Bytes → Option Bytes) : Type 0 where
  pub ids :
      (rewrite s t : Bytes)
      → replace (codes "/([0-9]+)") rewrite s ≡ some t
      → (before digits after : Bytes) × (s ≡ before ++ b'/' ∷ (digits ++ after))
        × (t ≡ before ++ (expand rewrite (digits ∷ []) ++ after))
  pub opened :
      (rewrite s t : Bytes)
      → replace (codes "\\[([_a-z])([a-z0-9_/]+)([^(a-z0-9_/])") rewrite s ≡ some t
      → (before : Bytes) × (a : ℕ) × (front : Bytes) × (y c : ℕ) × (after : Bytes) × (is_name y
          ≡ true)
        × (is_end c ≡ true)
        × (s ≡ before ++ b'[' ∷ (a ∷ (front ++ y ∷ (c ∷ after))))
        × (t ≡ before ++ (expand rewrite ((a ∷ []) ∷ (front ++ y ∷ []) ∷ (c ∷ []) ∷ []) ++ after))
  pub behind_word :
      (rewrite s t : Bytes)
      → replace (codes " (or|and) ([_a-z])([a-z0-9_/]+)([^(a-z0-9_/])") rewrite s ≡ some t
      → (before word : Bytes) × (a : ℕ) × (front : Bytes) × (y c : ℕ) × (after : Bytes) × (is_name y
          ≡ true)
        × (is_end c ≡ true)
        × (s ≡ before ++ b' ' ∷ (word ++ b' ' ∷ (a ∷ (front ++ y ∷ (c ∷ after)))))
        × (t
            ≡ before
              ++ (expand rewrite (word ∷ (a ∷ []) ∷ (front ++ y ∷ []) ∷ (c ∷ []) ∷ []) ++ after))
  pub before_word :
      (rewrite s t : Bytes)
      → replace (codes "([^@])([_a-z])([0-9a-z_/]+) (or|and) ") rewrite s ≡ some t
      → (before : Bytes) × (x a : ℕ) × (front : Bytes) × (y : ℕ) × (word after : Bytes) × (is_name y
          ≡ true)
        × (s ≡ before ++ x ∷ (a ∷ (front ++ y ∷ (b' ' ∷ (word ++ b' ' ∷ after)))))
        × (t
            ≡ before
              ++ (expand rewrite ((x ∷ []) ∷ (a ∷ []) ∷ (front ++ y ∷ []) ∷ word ∷ []) ++ after))
  pub closed :
      (rewrite s t : Bytes)
      → replace (codes "([^@])([_a-z])([0-9a-z_/]+)\\]") rewrite s ≡ some t
      → (before : Bytes) × (x a : ℕ) × (front : Bytes) × (y : ℕ) × (after : Bytes) × (is_name y
          ≡ true)
        × (s ≡ before ++ x ∷ (a ∷ (front ++ y ∷ (b']' ∷ after))))
        × (t ≡ before ++ (expand rewrite ((x ∷ []) ∷ (a ∷ []) ∷ (front ++ y ∷ []) ∷ []) ++ after))
