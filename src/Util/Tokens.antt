-- ===== src/Util/Tokens.antt =====
-- `token_end` and `tokenize_string` of util.cpp: the text is cut into alternating runs.
use vaedb.Common.{
  ℕ, zero, suc, ◌+◌, ◌-◌, ◌≤◌, ◌<◌, ◌≡◌, ◌≢◌, refl, sym, ap, ◌∙◌, Bool, true, false, not, some,
  List, [], ◌∷◌, flatten, Bytes, arith, length, take, drop, take-append-drop, drop-cons,
  drop-nil-le, drop-drop, drop-at, length-drop-le, Bool-cases, inl, inr, All, if◌then◌else◌,
}
use vaedb.Util.{in_mode, token_end, tokenize_loop, tokenize_string}

-- The length of the longest prefix in the mode.
run : Bool → Bytes → ℕ
run m [] = 0
run m (c ∷ xs) = if in_mode m c then suc (run m xs) else 0

-- Every byte is in the mode.
abbrev pub IsRun : Bool → Bytes → Type 0
IsRun m t = All (λ c. in_mode m c ≡ true) t

-- The tokens are runs of alternating mode.
abbrev pub Alternates : Bool → List Bytes → Type 0
Alternates m [] = Unit
Alternates m (t ∷ ts) = IsRun m t × Alternates (not m) ts

-- No token but the last is empty.
abbrev pub IsFull : List Bytes → Type 0
IsFull [] = Unit
IsFull (t ∷ []) = Unit
IsFull (t ∷ u ∷ ts) = (t ≢ []) × IsFull (u ∷ ts)

abbrev pub TailFull : List Bytes → Type 0
TailFull [] = Unit
TailFull (t ∷ ts) = IsFull ts

in_mode-not : (m : Bool) (c : ℕ) → in_mode (not m) c ≡ not (in_mode m c)
unfolding in_mode
in_mode-not true c = ground arith
in_mode-not false c = ground arith

token_end-run :
    (m : Bool) (xs s : Bytes) (b fuel : ℕ)
    → drop b s ≡ xs
    → length xs < fuel
    → token_end fuel s b m ≡ some (b + run m xs)
unfolding token_end run
token_end-run m [] s b zero e h = absurd (omega arith)
token_end-run m [] s b (suc fuel) e h = ground (arith, drop-nil-le b s e)
token_end-run m (c ∷ xs) s b zero e h = absurd (omega arith)
token_end-run m (c ∷ xs) s b (suc fuel) e h =
    let (inside, at, rest) = drop-cons b s e in
    let again : token_end fuel s (b + 1) m ≡ some (b + 1 + run m xs) =
      token_end-run m xs s (b + 1) fuel (drop-at (b + 1) (suc b) s (omega arith) ∙ rest)
        (omega arith) in
    ground (arith, inside, at, again)

run-le : (m : Bool) (xs : Bytes) → run m xs ≤ length xs
unfolding run
run-le m [] = omega arith
run-le m (c ∷ xs) = ground (arith, run-le m xs)

IsRun-take : (m : Bool) (xs : Bytes) → IsRun m (take (run m xs) xs)
unfolding run
IsRun-take m [] = tt
IsRun-take m (c ∷ xs) = elim (Bool-cases (in_mode m c)) [
  | inl e ↦ rw (e, run) (e, IsRun-take m xs)
  | inr e ↦ rw (e, run) tt
]

-- What is left after the run begins with a byte of the other mode.
abbrev Stops : Bool → Bytes → Type 0
Stops m [] = Unit
Stops m (c ∷ xs) = in_mode m c ≡ false

Stops-drop : (m : Bool) (xs : Bytes) → Stops m (drop (run m xs) xs)
unfolding run
Stops-drop m [] = tt
Stops-drop m (c ∷ xs) = elim (Bool-cases (in_mode m c)) [
  | inl e ↦ rw (e, run) (Stops-drop m xs)
  | inr e ↦ rw (e, run) e
]

Stops-not : (m : Bool) (xs : Bytes) → Stops m xs → Stops (not (not m)) xs
Stops-not true [] h = tt
Stops-not true (c ∷ xs) h = h
Stops-not false [] h = tt
Stops-not false (c ∷ xs) h = h

token_end_at :
    (s xs : Bytes) (e : ℕ) (m : Bool)
    → drop e s ≡ xs
    → token_end (suc (length s)) s e m ≡ some (e + run m xs)
token_end_at s xs e m h =
    token_end-run m xs s e (suc (length s)) h (omega (arith, ap length h, length-drop-le e s))

token_at : (s xs : Bytes) (e n : ℕ) → drop e s ≡ xs → take (e + n - e) (drop e s) ≡ take n xs
token_at s xs e n h = ap (λ k. take k (drop e s)) {y = n} (omega arith) ∙ ap (take n) h

-- The last round, at the end of the text.
round_end :
    (fuel : ℕ) (s : Bytes) (e : ℕ) (m : Bool)
    → drop e s ≡ []
    → tokenize_loop (suc fuel) s e m ≡ some ([] ∷ [])
unfolding tokenize_loop run
round_end fuel s e m h =
    ground (arith, token_end_at s [] e (not m) h, drop-nil-le e s h, token_at s [] e 0 h)

-- A round before the end.
round_more :
    (fuel : ℕ) (s xs : Bytes) (c e : ℕ) (m : Bool) (ts : List Bytes)
    → drop e s ≡ c ∷ xs
    → tokenize_loop fuel s (e + run (not m) (c ∷ xs)) (not m) ≡ some ts
    → tokenize_loop (suc fuel) s e m ≡ some (take (run (not m) (c ∷ xs)) (c ∷ xs) ∷ ts)
unfolding tokenize_loop
round_more fuel s xs c e m ts h rest =
    let (inside, _, _) = drop-cons e s h in
    let n = run (not m) (c ∷ xs) in
    ground (arith, token_end_at s (c ∷ xs) e (not m) h, inside, token_at s (c ∷ xs) e n h, rest)

-- The text that is left is empty or begins in the mode.
abbrev Starts : Bool → Bytes → Type 0
Starts m [] = Unit
Starts m (c ∷ xs) = in_mode m c ≡ true

Starts-of_Stops : (m : Bool) (xs : Bytes) → Stops m xs → Starts (not m) xs
Starts-of_Stops m [] h = tt
Starts-of_Stops m (c ∷ xs) h = in_mode-not m c ∙ ap not h

IsFull-cons : (t : Bytes) (ts : List Bytes) → t ≢ [] → IsFull ts → IsFull (t ∷ ts)
IsFull-cons t [] h f = tt
IsFull-cons t (u ∷ ts) h f = (h, f)

IsFull-tail : (ts : List Bytes) → IsFull ts → TailFull ts
IsFull-tail [] f = tt
IsFull-tail (t ∷ []) f = tt
IsFull-tail (t ∷ u ∷ ts) f = f.1

-- The cut of a text that begins in the mode `m`.
record Cut (m : Bool) (xs : Bytes) (ts : List Bytes) : Type 0 where
  whole : flatten ts ≡ xs
  runs : Alternates m ts

-- The run at the front, before a cut of what it leaves.
Cut-run :
    (m : Bool) (xs : Bytes) (ts : List Bytes)
    → Cut (not m) (drop (run m xs) xs) ts
    → Cut m xs (take (run m xs) xs ∷ ts)
unfolding flatten
Cut-run m xs ts c = record {
  whole = rw c.whole (take-append-drop (run m xs) xs);
  runs = (IsRun-take m xs, c.runs);
}

suffix_after : (s xs : Bytes) (e n : ℕ) → drop e s ≡ xs → drop (e + n) s ≡ drop n xs
suffix_after s xs e n h = sym (drop-drop e n s) ∙ ap (drop n) h

-- From a byte of the mode on, each round takes at least one byte.
tokenize_ready :
    (fuel : ℕ) (s xs : Bytes) (e : ℕ) (m : Bool)
    → drop e s ≡ xs
    → Starts (not m) xs
    → length xs < fuel
    → (ts : List Bytes) × (tokenize_loop fuel s e m ≡ some ts) × Cut (not m) xs ts × IsFull ts
unfolding run flatten
tokenize_ready zero s xs e m h st lt = absurd (omega arith)
tokenize_ready (suc fuel) s [] e m h st lt =
    ([] ∷ [], round_end fuel s e m h, record { whole = refl; runs = (tt, tt) }, tt)
tokenize_ready (suc fuel) s (c ∷ xs) e m h st lt =
    let n = run (not m) (c ∷ xs) in
    let one : n ≡ suc (run (not m) xs) = rw (st, run) in
    let shorter : length (drop n (c ∷ xs)) ≤ length xs =
      rw one (length-drop-le (run (not m) xs) xs) in
    let (ts, done, cut, full) =
      tokenize_ready fuel s (drop n (c ∷ xs)) (e + n) (not m) (suffix_after s (c ∷ xs) e n h)
        (Starts-of_Stops (not m) (drop n (c ∷ xs)) (Stops-drop (not m) (c ∷ xs))) (omega arith) in
    let nonempty : take n (c ∷ xs) ≢ [] = rw one (λ p. cc) in
    (
      take n (c ∷ xs) ∷ ts,
      round_more fuel s xs c e m ts h done,
      Cut-run (not m) (c ∷ xs) ts cut,
      IsFull-cons (take n (c ∷ xs)) ts nonempty full,
    )

-- `tokenize_string` ends. Its tokens make up the text; they are in turn runs without digits and runs
-- of digits, a run without digits first; and no token but the first and the last is empty.
pub tokenize_string-Splits :
    (s : Bytes)
    → (ts : List Bytes) × (tokenize_string s ≡ some ts)
      × (flatten ts ≡ s)
      × Alternates true ts
      × TailFull ts
unfolding tokenize_string flatten run
tokenize_string-Splits [] = ([] ∷ [], round_end 1 [] 0 false refl, refl, (tt, tt), tt)
tokenize_string-Splits (c ∷ xs) = elim (Bool-cases (in_mode true c)) [
  | inl first ↦
      let (ts, done, cut, full) =
        tokenize_ready (suc (suc (length (c ∷ xs)))) (c ∷ xs) (c ∷ xs) 0 false refl first
          (omega arith) in
      (ts, done, cut.whole, cut.runs, IsFull-tail ts full)
  | inr digit ↦
      let s = c ∷ xs in
      let none_yet : run true s ≡ 0 = rw (digit, run) in
      let at : drop (0 + run true s) s ≡ s =
        drop-at (0 + run true s) 0 s (omega (arith, none_yet)) in
      let digits : in_mode false c ≡ true = in_mode-not true c ∙ ap not digit in
      let (ts, done, cut, full) =
        tokenize_ready (suc (length s)) s s (0 + run true s) true at digits (omega arith) in
      let first : take (run true s) s ≡ [] = ap (λ k. take k s) none_yet in
      (
        take (run true s) s ∷ ts,
        round_more (suc (length s)) s xs c 0 false ts refl done,
        rw first cut.whole,
        rw first (tt, cut.runs),
        full,
      )
]
