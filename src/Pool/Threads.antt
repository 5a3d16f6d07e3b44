-- ===== src/Pool/Threads.antt =====
-- The connection pool shared by threads: each step is one critical section of `poolMutex`.
pub mod Valid
pub mod Opened
pub mod Sharing
pub mod NoPool
use vaedb.Common.{
  ℕ, suc, ◌+◌, ◌-◌, ◌≤◌, ◌<◌, ◌≡◌, ◌≢◌, refl, ap, sym, ◌∙◌, Option, none, some, List, [], ◌∷◌, ◌++◌,
  length, ◌==◌, if◌then◌else◌, arith, inl, inr, Option-cases, Bool-cases,
}
use vaedb.Pool.{
  Pool, waits, takes, throws, take_free, get_connection, free_connection, connect_loop,
}
use vaedb.Pool.Counts.{
  count, key_count, use_count, free_count, take_free-none, take_free-Taken, marks-key_count,
  length-mark_free, key_count-mark_free, free_count-mark_free, use_count-mark_free,
  use_count-le-key_count, assign-Added,
}

-- The pool, the connections that clients hold, the threads inside `cond.wait`, and those that were
-- woken and have not run since.
pub record System : Type 0 where
  pub pool : Pool
  pub held : List ℕ
  pub waiting : ℕ
  pub notified : ℕ

-- `notify_one`
unfoldable pub notify_one : System → System
notify_one s =
    if s.waiting == 0 then s else record s { waiting = s.waiting - 1; notified = s.notified + 1 }

pub data Step : System → System → Type 0 where
  -- A call of `getConnection` that gets a connection at once, or has to wait.
  enter :
      (s : System) (c : ℕ) (p : Pool)
      → get_connection s.pool ≡ takes c p
      → Step s (record s { pool = p; held = c ∷ s.held })
  enter_wait :
      (s : System) → get_connection s.pool ≡ waits → Step s (record s { waiting = s.waiting + 1 })
  -- A woken thread tests again.
  resume :
      (s : System) (c : ℕ) (p : Pool)
      → 0 < s.notified
      → get_connection s.pool ≡ takes c p
      → Step s (record s { pool = p; held = c ∷ s.held; notified = s.notified - 1 })
  resume_wait :
      (s : System)
      → 0 < s.notified
      → get_connection s.pool ≡ waits
      → Step s (record s { waiting = s.waiting + 1; notified = s.notified - 1 })
  -- `cond.wait` may return without a notification.
  spurious :
      (s : System)
      → 0 < s.waiting
      → Step s (record s { waiting = s.waiting - 1; notified = s.notified + 1 })
  -- A client lets go of its connection.
  release :
      (s : System) (c : ℕ) (before after : List ℕ)
      → s.held ≡ before ++ c ∷ after
      → Step s (notify_one (record s { pool = free_connection c s.pool; held = before ++ after }))

pub data Run (s : System) : System → Type 0 where
  start : Run s s
  next : {t u : System} → Run s t → Step t u → Run s u

-- The pool that the constructor leaves, before any thread asks.
abbrev pub opened : List (Option ℕ) → System
opened made = record {
  pool = connect_loop made (record { connections = []; available = 0 });
  held = [];
  waiting = 0;
  notified = 0;
}

-- How often an address is among the connections made.
abbrev pub made_count : ℕ → List (Option ℕ) → ℕ
made_count k [] = 0
made_count k (none ∷ made) = made_count k made
made_count k (some c ∷ made) = (if c == k then 1 else 0) + made_count k made

-- The addresses that `new` returns while the pool keeps all of them are different.
abbrev pub IsFresh : List (Option ℕ) → Type 0
IsFresh made = (k : ℕ) → made_count k made ≤ 1
