-- ===== src/Pool/Threads/Sharing.antt =====
-- How the threads of the server share the connections of a proxy.
use vaedb.Common.{ℕ, ◌+◌, ◌≤◌, ◌<◌, ◌≡◌, ◌≢◌, Option, List, length, arith, inl, inr, Option-cases}
use vaedb.Pool.{throws, take_free, get_connection}
use vaedb.Pool.Counts.{count, take_free-none, use_count-le-key_count}
use vaedb.Pool.Threads.{System, Run, opened, IsFresh}
use vaedb.Pool.Threads.Valid.{Run-IsValid}
use vaedb.Pool.Threads.Opened.{opened-IsValid}

-- However the threads interleave, `getConnection` never reaches its `throw`, if the connections
-- were made at different addresses.
pub get_connection-never_throws :
    (made : List (Option ℕ)) (s : System)
    → IsFresh made
    → Run (opened made) s
    → get_connection s.pool ≢ throws
unfolding get_connection
get_connection-never_throws made s fresh run h =
    let v = Run-IsValid (opened-IsValid made fresh) run in
    elim (Option-cases (take_free s.pool.connections)) [
      | inl e ↦ let empty = take_free-none s.pool.connections e in ground (arith, v.counted, empty)
      | inr ((c, cs), e) ↦ ground arith
    ]

-- In a pool whose connections were made at different addresses, however the threads interleave, no
-- two clients hold the same connection, and the connections that are held and those counted as
-- available are together as many as the pool has.
pub held-exclusive :
    (made : List (Option ℕ)) (s : System)
    → IsFresh made
    → Run (opened made) s
    → ((c : ℕ) → count c s.held ≤ 1)
      × (s.pool.available + length s.held ≡ length s.pool.connections)
held-exclusive made s fresh run =
    let v = Run-IsValid (opened-IsValid made fresh) run in
    (
      λ c.
          let most = use_count-le-key_count c s.pool.connections in
          omega (arith, v.in_hand c, v.distinct c, most),
      v.total,
    )

-- No wake-up is lost in a pool whose connections were made at different addresses: when threads
-- wait and none of them has been woken, every connection of the pool is in some client's hands.
pub waiting-all_held :
    (made : List (Option ℕ)) (s : System)
    → IsFresh made
    → Run (opened made) s
    → 0 < s.waiting
    → s.notified ≡ 0
    → length s.held ≡ length s.pool.connections
waiting-all_held made s fresh run w n =
    let v = Run-IsValid (opened-IsValid made fresh) run in
    let none_left = v.awake w in omega (arith, v.total)
