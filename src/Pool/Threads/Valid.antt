-- ===== src/Pool/Threads/Valid.antt =====
-- What holds in every state of a shared pool of mysql_proxy.cpp or memcache_proxy.cpp.
use vaedb.Common.{
  ℕ, suc, ◌+◌, ◌-◌, ◌≤◌, ◌<◌, ◌≡◌, refl, ap, sym, ◌∙◌, some, List, [], ◌∷◌, ◌++◌, length, ◌==◌,
  if◌then◌else◌, arith, inl, inr, Option-cases, Bool-cases,
}
use vaedb.Pool.{Pool, waits, takes, take_free, get_connection, free_connection}
use vaedb.Pool.Counts.{
  count, key_count, use_count, free_count, take_free-Taken, marks-key_count, length-mark_free,
  key_count-mark_free, free_count-mark_free, use_count-mark_free, use_count-le-key_count,
}
use vaedb.Pool.Threads.{
  System, notify_one, Step, enter, enter_wait, resume, resume_wait, spurious, release, Run, start,
  next,
}

pub record IsValid (s : System) : Type 0 where
  pub distinct : (k : ℕ) → key_count k s.pool.connections ≤ 1
  pub counted : s.pool.available ≡ free_count s.pool.connections
  pub in_hand : (k : ℕ) → count k s.held ≡ use_count k s.pool.connections
  pub total : s.pool.available + length s.held ≡ length s.pool.connections
  pub awake : 0 < s.waiting → s.pool.available ≤ s.notified

pub get_connection-takes :
    (p p' : Pool) (c : ℕ)
    → get_connection p ≡ takes c p'
    → (0 < p.available)
      × (p'.available ≡ p.available - 1)
      × (take_free p.connections ≡ some (c, p'.connections))
unfolding get_connection
get_connection-takes p p' c h = elim (Option-cases (take_free p.connections)) [
  | inl e ↦ absurd (ground arith)
  | inr ((c', cs), e) ↦ ground arith
]

pub get_connection-waits : (p : Pool) → get_connection p ≡ waits → p.available ≡ 0
unfolding get_connection
get_connection-waits p h = elim (Option-cases (take_free p.connections)) [
  | inl e ↦ ground arith
  | inr ((c', cs), e) ↦ ground arith
]

takes-IsValid :
    (s : System) (c : ℕ) (p : Pool) (n : ℕ)
    → IsValid s
    → get_connection s.pool ≡ takes c p
    → s.notified ≤ n + 1
    → ((0 < s.waiting → s.pool.available ≤ n + 1))
    → IsValid (record s { pool = p; held = c ∷ s.held; notified = n })
unfolding count
takes-IsValid s c p n v h few enough =
    let (some_left, left, taken) = get_connection-takes s.pool p c h in
    let t = take_free-Taken s.pool.connections c p.connections taken in
    record {
      distinct = λ k. rw (t.2 k) (v.distinct k);
      counted = omega (arith, v.counted, t.0);
      in_hand = λ k. ap (λ m. (if c == k then 1 else 0) + m) (v.in_hand k) ∙ sym (t.3 k);
      total = omega (arith, v.total, t.1);
      awake = λ w. let e = enough w in omega arith;
    }

split-count :
    (k c : ℕ) (before after : List ℕ)
    → count k (before ++ c ∷ after) ≡ (if c == k then 1 else 0) + count k (before ++ after)
unfolding count
split-count k c [] after = refl
split-count k c (x ∷ before) after = omega (arith, split-count k c before after)

split-length :
    (c : ℕ) (before after : List ℕ) → length (before ++ c ∷ after) ≡ suc (length (before ++ after))
split-length c [] after = refl
split-length c (x ∷ before) after = ap suc (split-length c before after)

in_use-once :
    (s : System) (c : ℕ) (before after : List ℕ)
    → IsValid s
    → s.held ≡ before ++ c ∷ after
    → (use_count c s.pool.connections ≡ 1) × (key_count c s.pool.connections ≡ 1)
in_use-once s c before after v e =
    let here : count c s.held ≡ suc (count c (before ++ after)) =
      rw e (ground (arith, split-count c c before after)) in
    let most = use_count-le-key_count c s.pool.connections in
    (
      omega (arith, v.in_hand c, here, v.distinct c, most),
      omega (arith, v.in_hand c, here, v.distinct c, most),
    )

module _ (s : System) (c : ℕ) (before after : List ℕ) (v : IsValid s)
    (e : s.held ≡ before ++ c ∷ after) where
  abbrev freed : System
  freed = record s { pool = free_connection c s.pool; held = before ++ after }

  freed_available : freed.pool.available ≡ s.pool.available + 1
  unfolding free_connection
  freed_available =
      let once = in_use-once s c before after v e in
      omega (arith, once.1, marks-key_count c s.pool.connections)

  freed_counted : freed.pool.available ≡ free_count freed.pool.connections
  unfolding free_connection
  freed_counted =
      let once = in_use-once s c before after v e in
      let freed_ = free_count-mark_free c s.pool.connections in
      omega (arith, once.0, once.1, marks-key_count c s.pool.connections, freed_, v.counted)

  freed_in_hand : (k : ℕ) → count k (before ++ after) ≡ use_count k freed.pool.connections
  unfolding free_connection
  freed_in_hand k =
      let once = in_use-once s c before after v e in
      let was : count k (before ++ c ∷ after) ≡ use_count k s.pool.connections =
        ap (count k) (sym e) ∙ v.in_hand k in
      let left = use_count-mark_free c k s.pool.connections in
      ground (arith, once.0, was, left, split-count k c before after)

  freed_distinct : (k : ℕ) → key_count k freed.pool.connections ≤ 1
  unfolding free_connection
  freed_distinct k = rw (key_count-mark_free c k s.pool.connections) (v.distinct k)

  freed_total : freed.pool.available + length (before ++ after) ≡ length freed.pool.connections
  unfolding free_connection
  freed_total =
      let more = freed_available in
      let size = split-length c before after in
      let was = ap length e in
      omega (arith, more, size, was, v.total, length-mark_free c s.pool.connections)

  release-IsValid : IsValid (notify_one freed)
  unfolding notify_one
  release-IsValid = elim (Bool-cases (s.waiting == 0)) [
    | inl w ↦
        rw (w, notify_one)
          (record {
            distinct = freed_distinct;
            counted = freed_counted;
            in_hand = freed_in_hand;
            total = freed_total;
            awake = λ some_. absurd (ground arith);
          })
    | inr w ↦
        rw (w, notify_one)
          (record {
            distinct = freed_distinct;
            counted = freed_counted;
            in_hand = freed_in_hand;
            total = freed_total;
            awake = λ some_.
                let before_ : 0 < s.waiting = omega arith in
                let was = v.awake before_ in omega (arith, freed_available);
          })
  ]

pub Step-IsValid : {s t : System} → IsValid s → Step s t → IsValid t
Step-IsValid v (enter s c p h) =
    takes-IsValid s c p s.notified v h (omega arith) (λ w. let few = v.awake w in omega arith)
Step-IsValid v (enter_wait s h) =
    let empty = get_connection-waits s.pool h in
    record {
      distinct = v.distinct;
      counted = v.counted;
      in_hand = v.in_hand;
      total = v.total;
      awake = λ w. omega arith;
    }
Step-IsValid v (resume s c p n h) =
    takes-IsValid s c p (s.notified - 1) v h (omega arith) (λ w. let few = v.awake w in omega arith)
Step-IsValid v (resume_wait s n h) =
    let empty = get_connection-waits s.pool h in
    record {
      distinct = v.distinct;
      counted = v.counted;
      in_hand = v.in_hand;
      total = v.total;
      awake = λ w. omega arith;
    }
Step-IsValid v (spurious s n) = record {
  distinct = v.distinct;
  counted = v.counted;
  in_hand = v.in_hand;
  total = v.total;
  awake = λ w. let few = v.awake n in omega arith;
}
Step-IsValid v (release s c before after e) = release-IsValid s c before after v e

pub Run-IsValid : {s t : System} → IsValid s → Run s t → IsValid t
Run-IsValid v start = v
Run-IsValid v (next r st) = Step-IsValid (Run-IsValid v r) st
