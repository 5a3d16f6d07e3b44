-- ===== src/Pool/Counts.antt =====
-- Counting the entries of a connection pool.
use vaedb.Common.{
  ℕ, suc, ◌+◌, ◌≤◌, ◌≡◌, refl, ap, none, some, List, [], ◌∷◌, length, ◌==◌, if◌then◌else◌, arith,
  inl, inr, Option-cases, ℕ_discrete, if_neg, ◌≢◌,
}
use vaedb.Common.Map.{assign}
use vaedb.Pool.{Slot, free, in_use, take_free, mark_free, marks}

unfoldable pub count : ℕ → List ℕ → ℕ
count c [] = 0
count c (x ∷ xs) = (if x == c then 1 else 0) + count c xs

unfoldable pub key_count : ℕ → List (ℕ × Slot) → ℕ
key_count c [] = 0
key_count c ((x, slot) ∷ rest) = (if x == c then 1 else 0) + key_count c rest

unfoldable pub use_count : ℕ → List (ℕ × Slot) → ℕ
use_count c [] = 0
use_count c ((x, free) ∷ rest) = use_count c rest
use_count c ((x, in_use) ∷ rest) = (if x == c then 1 else 0) + use_count c rest

unfoldable pub free_count : List (ℕ × Slot) → ℕ
free_count [] = 0
free_count ((x, free) ∷ rest) = suc (free_count rest)
free_count ((x, in_use) ∷ rest) = free_count rest

pub take_free-none : (cs : List (ℕ × Slot)) → take_free cs ≡ none → free_count cs ≡ 0
unfolding take_free free_count
take_free-none [] h = refl
take_free-none ((x, free) ∷ rest) h = ground arith
take_free-none ((x, in_use) ∷ rest) h = elim (Option-cases (take_free rest)) [
  | inl e ↦ take_free-none rest e
  | inr (found, e) ↦ ground arith
]

-- The entries after one free connection is taken.
abbrev pub Taken : ℕ → List (ℕ × Slot) → List (ℕ × Slot) → Type 0
Taken con cs cs' =
    (free_count cs ≡ suc (free_count cs'))
    × (length cs' ≡ length cs)
    × ((k : ℕ) → key_count k cs' ≡ key_count k cs)
    × ((k : ℕ) → use_count k cs' ≡ (if con == k then 1 else 0) + use_count k cs)

pub take_free-Taken :
    (cs : List (ℕ × Slot)) (con : ℕ) (cs' : List (ℕ × Slot))
    → take_free cs ≡ some (con, cs')
    → Taken con cs cs'
unfolding take_free free_count key_count use_count
take_free-Taken [] con cs' h = absurd (cc)
take_free-Taken ((x, free) ∷ rest) con cs' h =
    let e1 : x ≡ con = cc in
    let e2 : (x, in_use) ∷ rest ≡ cs' = cc in rw (← e1, ← e2) (refl, refl, λ k. refl, λ k. refl)
take_free-Taken ((x, in_use) ∷ rest) con cs' h = elim (Option-cases (take_free rest)) [
  | inl e ↦ absurd (ground arith)
  | inr ((found, rest'), e) ↦
      let t = take_free-Taken rest found rest' e in
      let e1 : found ≡ con = ground arith in
      let e2 : (x, in_use) ∷ rest' ≡ cs' = ground arith in
      rw (← e1, ← e2)
        (
          t.0,
          ap suc (t.1),
          λ k. ap (λ n. (if x == k then 1 else 0) + n) (t.2 k),
          λ k. omega (arith, t.3 k),
        )
]

pub marks-key_count : (con : ℕ) (cs : List (ℕ × Slot)) → marks con cs ≡ key_count con cs
unfolding marks key_count
marks-key_count con [] = refl
marks-key_count con ((x, slot) ∷ rest) =
    ap (λ n. (if x == con then 1 else 0) + n) (marks-key_count con rest)

pub length-mark_free : (con : ℕ) (cs : List (ℕ × Slot)) → length (mark_free con cs) ≡ length cs
unfolding mark_free
length-mark_free con [] = refl
length-mark_free con ((x, slot) ∷ rest) = ap suc (length-mark_free con rest)

pub key_count-mark_free :
    (con k : ℕ) (cs : List (ℕ × Slot)) → key_count k (mark_free con cs) ≡ key_count k cs
unfolding mark_free key_count
key_count-mark_free con k [] = refl
key_count-mark_free con k ((x, slot) ∷ rest) =
    ap (λ n. (if x == k then 1 else 0) + n) (key_count-mark_free con k rest)

pub free_count-mark_free :
    (con : ℕ) (cs : List (ℕ × Slot))
    → free_count (mark_free con cs) ≡ free_count cs + use_count con cs
unfolding mark_free free_count use_count
free_count-mark_free con [] = refl
free_count-mark_free con ((x, free) ∷ rest) = ground (arith, free_count-mark_free con rest)
free_count-mark_free con ((x, in_use) ∷ rest) = ground (arith, free_count-mark_free con rest)

pub use_count-mark_free :
    (con k : ℕ) (cs : List (ℕ × Slot))
    → use_count k (mark_free con cs) + (if con == k then use_count con cs else 0) ≡ use_count k cs
unfolding mark_free use_count
use_count-mark_free con k [] = ground arith
use_count-mark_free con k ((x, free) ∷ rest) = ground (arith, use_count-mark_free con k rest)
use_count-mark_free con k ((x, in_use) ∷ rest) = ground (arith, use_count-mark_free con k rest)

pub use_count-le-key_count : (k : ℕ) (cs : List (ℕ × Slot)) → use_count k cs ≤ key_count k cs
unfolding use_count key_count
use_count-le-key_count k [] = omega arith
use_count-le-key_count k ((x, free) ∷ rest) = ground (arith, use_count-le-key_count k rest)
use_count-le-key_count k ((x, in_use) ∷ rest) = ground (arith, use_count-le-key_count k rest)

-- The entries after a connection is put among them that was not there.
abbrev pub Added : ℕ → List (ℕ × Slot) → List (ℕ × Slot) → Type 0
Added c cs cs' =
    (free_count cs' ≡ suc (free_count cs))
    × (length cs' ≡ suc (length cs))
    × ((k : ℕ) → key_count k cs' ≡ (if c == k then 1 else 0) + key_count k cs)
    × ((k : ℕ) → use_count k cs' ≡ use_count k cs)

pub assign-Added :
    (c : ℕ) (cs : List (ℕ × Slot)) → key_count c cs ≡ 0 → Added c cs (assign ℕ_discrete c free cs)
unfolding assign free_count key_count use_count
assign-Added c [] h = (refl, refl, λ k. refl, λ k. refl)
assign-Added c ((x, slot) ∷ rest) h =
    let other : x ≢ c = λ e. ground (arith, e) in
    let ih = assign-Added c rest (ground arith) in
    rw (if_neg (ℕ_discrete x c) other) (with_slot slot ih)
  where
    with_slot :
        (slot : Slot)
        → Added c rest (assign ℕ_discrete c free rest)
        → Added c ((x, slot) ∷ rest) ((x, slot) ∷ assign ℕ_discrete c free rest)
    with_slot free ih = (ap suc (ih.0), ap suc (ih.1), λ k. omega (arith, ih.2 k), λ k. ih.3 k)
    with_slot in_use ih = (
      ih.0,
      ap suc (ih.1),
      λ k. omega (arith, ih.2 k),
      λ k. ap (λ n. (if x == k then 1 else 0) + n) (ih.3 k),
    )
