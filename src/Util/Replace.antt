-- ===== src/Util/Replace.antt =====
-- `str_replace` of util.cpp against the scan from left to right that it stands for.
use vaedb.Common.{
  ℕ, zero, suc, ◌+◌, ◌≤◌, ◌<◌, ◌≡◌, refl, sym, ap, ◌∙◌, Bool, true, false, some, [], ◌∷◌, ◌++◌,
  Bytes, length, drop, ltb, ◌==◌, arith, inl, inr, Bool-cases, drop-step, drop-drop, length-drop,
  append-nil, append_assoc,
}
use vaedb.Util.{match_length, replace_loop, str_replace}

-- The text begins with `search`.
abbrev pub begins : Bytes → Bytes → Bool
begins search s = match_length search s == length search

-- At each place from the left: an occurrence is replaced and passed over, any other byte is kept.
pub data Replaced (search replace : Bytes) : Bytes → Bytes → Type 0 where
  over : Replaced search replace [] []
  hit :
      (s rest o out : Bytes)
      → s ≡ search ++ rest
      → o ≡ replace ++ out
      → Replaced search replace rest out
      → Replaced search replace s o
  miss :
      (c : ℕ) (rest out : Bytes)
      → begins search (c ∷ rest) ≡ false
      → Replaced search replace rest out
      → Replaced search replace (c ∷ rest) (c ∷ out)

begins-split : (search s : Bytes) → begins search s ≡ true → s ≡ search ++ drop (length search) s
unfolding match_length
begins-split [] [] h = refl
begins-split [] (c ∷ s) h = refl
begins-split (d ∷ search) [] h = ground arith
begins-split (d ∷ search) (c ∷ s) h = ground (arith, begins-split search s)

begins-length : (search s : Bytes) → begins search s ≡ true → length search ≤ length s
unfolding match_length
begins-length [] s h = omega arith
begins-length (d ∷ search) [] h = ground arith
begins-length (d ∷ search) (c ∷ s) h = ground (arith, begins-length search s)

drop-none : (i : ℕ) (s : Bytes) → length s ≤ i → drop i s ≡ []
drop-none zero [] h = refl
drop-none zero (c ∷ s) h = absurd (omega arith)
drop-none (suc i) [] h = refl
drop-none (suc i) (c ∷ s) h = drop-none i s (omega arith)

next : (i : ℕ) → suc i ≡ i + 1
next i = omega arith

module _ (search replace subject : Bytes) (full : 0 < length search) where
  -- What the loop does from position `i` on.
  abbrev Loops : ℕ → ℕ → Bytes → Type 0
  Loops fuel i buffer =
      (out : Bytes) × (replace_loop fuel search replace subject i buffer ≡ some (buffer ++ out))
      × Replaced search replace (drop i subject) out

  miss_lem :
      (fuel i c : ℕ) (buffer : Bytes)
      → drop i subject ≡ c ∷ drop (i + 1) subject
      → ltb i (length subject) ≡ true
      → begins search (drop i subject) ≡ false
      → Loops fuel (i + 1) (buffer ++ c ∷ [])
      → Loops (suc fuel) i buffer
  unfolding replace_loop
  miss_lem fuel i c buffer at more apart (out, runs, spec) = (
    c ∷ out,
    rw (more, replace_loop, apart) (rw at (runs ∙ ap some (append_assoc buffer (c ∷ []) out))),
    rw at (miss c (drop (i + 1) subject) out (rw at at apart) spec),
  )

  loop_lem :
      (fuel i : ℕ) (buffer : Bytes)
      → i ≤ length subject
      → length subject < i + fuel
      → Loops fuel i buffer
  unfolding replace_loop
  loop_lem zero i buffer h f = absurd (omega arith)
  loop_lem (suc fuel) i buffer h f = elim (Bool-cases (ltb i (length subject))) [
    | inr end ↦
        let nothing = drop-none i subject (ground arith) in
        ([], rw (end, replace_loop) (ap some (sym (append-nil buffer))), rw nothing over)
    | inl more ↦
        let (c, at, rest) = drop-step i subject (ground arith) in
        elim (Bool-cases (begins search (drop i subject))) [
          | inl found ↦
              let left = length-drop i subject in
              let fits = begins-length search (drop i subject) found in
              let (out, runs, spec) =
                loop_lem fuel (i + length search) (buffer ++ replace) (omega (arith, left, fits))
                  (omega arith) in
              (
                replace ++ out,
                rw (more, replace_loop, found) (runs ∙ ap some (append_assoc buffer replace out)),
                hit _ (drop (i + length search) subject) _ out
                    (begins-split search (drop i subject) found
                      ∙ ap (λ t. search ++ t) (drop-drop i (length search) subject))
                    refl spec,
              )
          | inr apart ↦
              let here = rest ∙ ap (λ j. c ∷ drop j subject) (next i) in
              miss_lem fuel i c buffer here more apart
                (loop_lem fuel (i + 1) (buffer ++ c ∷ []) (ground arith) (omega arith))
        ]
  ]

-- `str_replace` with a search text that is not empty always ends, and its result is the subject with
-- the occurrences replaced from the left, none of them overlapping.
pub str_replace-Replaced :
    (search replace subject : Bytes)
    → 0 < length search
    → (out : Bytes) × (str_replace search replace subject ≡ some out)
      × Replaced search replace subject out
unfolding str_replace
str_replace-Replaced search replace subject full =
    let some_ : (length search == 0) ≡ false = ground arith in
    let (out, runs, spec) =
      loop_lem search replace subject full (suc (length subject)) 0 [] (omega arith)
        (omega arith) in
    (out, rw some_ runs, spec)
