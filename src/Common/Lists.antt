-- ===== src/Common/Lists.antt =====
-- Lists measured and indexed by native numbers, under the library's names.
use Prim.Native.Nat.{ℕ, zero, suc, ◌+◌, ◌-◌, ◌≤◌, ◌<◌}
use mathlib.Core.Path.{◌≡◌, refl, sym, ap, ◌∙◌}
use mathlib.Core.Logic.{◌⊎◌, inl, inr}
use mathlib.Core.List.{List, [], ◌∷◌, ◌++◌, map}
use mathlib.Core.Option.{Option, none, some}
use mathlib.Core.Bool.{Bool, true, false, not}
use native.Mathlib.Omega.{arith}
use vaedb.Common.Tests.{if◌then◌else◌}

module _ {ℓ} {A : Type ℓ} where
  abbrev pub length : List A → ℕ
  length [] = 0
  length (x ∷ xs) = suc (length xs)

  abbrev pub get_elem? : List A → ℕ → Option A
  get_elem? [] i = none
  get_elem? (x ∷ xs) zero = some x
  get_elem? (x ∷ xs) (suc i) = get_elem? xs i

  abbrev pub take : ℕ → List A → List A
  take zero xs = []
  take (suc n) [] = []
  take (suc n) (x ∷ xs) = x ∷ take n xs

  abbrev pub drop : ℕ → List A → List A
  drop zero xs = xs
  drop (suc n) [] = []
  drop (suc n) (x ∷ xs) = drop n xs

  pub length-append : (xs ys : List A) → length (xs ++ ys) ≡ length xs + length ys
  length-append [] ys = omega arith
  length-append (x ∷ xs) ys = omega (arith, length-append xs ys)

  pub take-append-drop : (n : ℕ) (xs : List A) → take n xs ++ drop n xs ≡ xs
  take-append-drop zero xs = refl
  take-append-drop (suc n) [] = refl
  take-append-drop (suc n) (x ∷ xs) = rw (take-append-drop n xs)

  pub length-take-le : (n : ℕ) (xs : List A) → length (take n xs) ≤ n
  length-take-le zero xs = omega arith
  length-take-le (suc n) [] = omega arith
  length-take-le (suc n) (x ∷ xs) = omega (arith, length-take-le n xs)

module _ {ℓ κ} {A : Type ℓ} {B : Type κ} (f : A → B) where
  pub length-map : (xs : List A) → length (map f xs) ≡ length xs
  length-map [] = refl
  length-map (x ∷ xs) = ap suc (length-map xs)

-- Every element meets the predicate.
abbrev pub All {ℓ κ} : {A : Type ℓ} → (A → Type κ) → List A → Type κ
All P [] = Unit
All P (x ∷ xs) = P x × All P xs

module _ {ℓ} {A : Type ℓ} where
  -- What a suffix says of the position where it begins.
  pub drop-cons :
      (b : ℕ) (s : List A) {c : A} {xs : List A}
      → drop b s ≡ c ∷ xs
      → (b < length s) × (get_elem? s b ≡ some c) × (drop (suc b) s ≡ xs)
  drop-cons zero [] h = cc
  drop-cons zero (x ∷ s) h = ground arith
  drop-cons (suc b) [] h = cc
  drop-cons (suc b) (x ∷ s) {c} {xs} h = ground (arith, drop-cons b s {c = c} {xs = xs})

  pub drop-nil-le : (b : ℕ) (s : List A) → drop b s ≡ [] → length s ≤ b
  drop-nil-le zero [] h = omega arith
  drop-nil-le zero (x ∷ s) h = cc
  drop-nil-le (suc b) [] h = omega arith
  drop-nil-le (suc b) (x ∷ s) h = omega (arith, drop-nil-le b s h)

  drop-nil : (n : ℕ) → drop {A = A} n [] ≡ []
  drop-nil zero = refl
  drop-nil (suc n) = refl

  pub drop-at : (i j : ℕ) (s : List A) → i ≡ j → drop i s ≡ drop j s
  drop-at i j s h = ap (λ k. drop k s) h

  pub length-drop-le : (n : ℕ) (s : List A) → length (drop n s) ≤ length s
  length-drop-le zero s = omega arith
  length-drop-le (suc n) [] = omega arith
  length-drop-le (suc n) (x ∷ s) = omega (arith, length-drop-le n s)

  pub drop-drop : (b n : ℕ) (s : List A) → drop n (drop b s) ≡ drop (b + n) s
  drop-drop zero n s = drop-at n (0 + n) s (omega arith)
  drop-drop (suc b) n [] = drop-nil n ∙ sym (drop-nil (suc b + n))
  drop-drop (suc b) n (x ∷ s) =
      drop-drop b n s ∙ drop-at (suc (b + n)) (suc b + n) (x ∷ s) (omega arith)

module _ {ℓ} {A : Type ℓ} where
  -- The elements that pass the test, in order.
  unfoldable pub keep : (A → Bool) → List A → List A
  keep p [] = []
  keep p (x ∷ xs) = let rest = keep p xs in if p x then x ∷ rest else rest

  unfoldable pub any : (A → Bool) → List A → Bool
  any p [] = false
  any p (x ∷ xs) = if p x then true else any p xs

  unfoldable pub every : (A → Bool) → List A → Bool
  every p [] = true
  every p (x ∷ xs) = if p x then every p xs else false

  unfoldable pub is_empty : List A → Bool
  is_empty [] = true
  is_empty (x ∷ xs) = false

  pub is_empty-keep :
      (p : A → Bool) (xs : List A) → is_empty (keep p xs) ≡ every (λ x. not (p x)) xs
  unfolding is_empty keep every
  is_empty-keep p [] = refl
  is_empty-keep p (x ∷ xs) = ground (arith, is_empty-keep p xs)

  pub keep-keep :
      (p q : A → Bool) (xs : List A)
      → keep q (keep p xs) ≡ keep (λ x. if p x then q x else false) xs
  unfolding keep
  keep-keep p q [] = refl
  keep-keep p q (x ∷ xs) = ground (arith, keep-keep p q xs)

  pub length-keep-le : (p : A → Bool) (xs : List A) → length (keep p xs) ≤ length xs
  unfolding keep
  length-keep-le p [] = omega arith
  length-keep-le p (x ∷ xs) = ground (arith, length-keep-le p xs)

module _ {ℓ} {A : Type ℓ} where
  pub drop-step :
      (i : ℕ) (s : List A)
      → i < length s
      → (x : A) × (get_elem? s i ≡ some x) × (drop i s ≡ x ∷ drop (suc i) s)
  drop-step zero [] h = absurd (omega arith)
  drop-step zero (x ∷ s) h = (x, refl, refl)
  drop-step (suc i) [] h = absurd (omega arith)
  drop-step (suc i) (x ∷ s) h = drop-step i s (omega arith)

  pub length-drop : (n : ℕ) (s : List A) → length (drop n s) ≡ length s - n
  length-drop zero s = omega arith
  length-drop (suc n) [] = omega arith
  length-drop (suc n) (x ∷ s) = omega (arith, length-drop n s)

  -- A longer `take` than the list is the whole list, so it can stop at the length.
  pub take-eq :
      (m n : ℕ) (s : List A) → ((m ≡ n) ⊎ ((length s ≤ m) × (length s ≤ n))) → take m s ≡ take n s
  take-eq m n s (inl e) = ap (λ k. take k s) e
  take-eq zero n [] (inr h) = sym (take-nil n)
    where
      take-nil : (n : ℕ) → take {A = A} n [] ≡ []
      take-nil zero = refl
      take-nil (suc n) = refl
  take-eq (suc m) zero [] (inr h) = refl
  take-eq (suc m) (suc n) [] (inr h) = refl
  take-eq zero n (x ∷ s) (inr h) = absurd (omega (arith, h.0))
  take-eq (suc m) zero (x ∷ s) (inr h) = absurd (omega (arith, h.1))
  take-eq (suc m) (suc n) (x ∷ s) (inr h) =
      ap (◌∷◌ x) (take-eq m n s (inr (omega (arith, h.0), omega (arith, h.1))))

  pub take-add : (m n : ℕ) (s : List A) → take (m + n) s ≡ take m s ++ take n (drop m s)
  take-add zero n s = ap (λ k. take k s) (omega-zero n)
    where
      omega-zero : (n : ℕ) → 0 + n ≡ n
      omega-zero n = omega arith
  take-add (suc m) n [] = sum-nil (suc m + n) ∙ sym (sum-nil n)
    where
      sum-nil : (n : ℕ) → take {A = A} n [] ≡ []
      sum-nil zero = refl
      sum-nil (suc n) = refl
  take-add (suc m) n (x ∷ s) = ap (λ k. take k (x ∷ s)) (suc-add m n) ∙ ap (◌∷◌ x) (take-add m n s)
    where
      suc-add : (m n : ℕ) → suc m + n ≡ suc (m + n)
      suc-add m n = omega arith
