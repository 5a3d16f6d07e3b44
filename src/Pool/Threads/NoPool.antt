-- ===== src/Pool/Threads/NoPool.antt =====
-- A proxy that could not make any connection.
use vaedb.Common.{ℕ, ◌≡◌, refl, ap, ◌∙◌, Option, none, some, List, [], ◌∷◌, length, arith}
use vaedb.Pool.{Pool, waits, takes, get_connection, free_connection, connect_loop}
use vaedb.Pool.Counts.{take_free-Taken, length-mark_free}
use vaedb.Pool.Threads.{
  System, notify_one, Step, enter, enter_wait, resume, resume_wait, spurious, release, Run, start,
  next, opened, made_count,
}
use vaedb.Pool.Threads.Opened.{opened-IsValid}
use vaedb.Pool.Threads.Valid.{get_connection-takes, Run-IsValid}

notify_one-pool : (s : System) → (notify_one s).pool ≡ s.pool
unfolding notify_one
notify_one-pool s = ground arith

takes-length :
    (p p' : Pool) (c : ℕ)
    → get_connection p ≡ takes c p'
    → length p'.connections ≡ length p.connections
takes-length p p' c h =
    let (some_left, left, taken) = get_connection-takes p p' c h in
    let t = take_free-Taken p.connections c p'.connections taken in t.1

Step-length : {s t : System} → Step s t → length t.pool.connections ≡ length s.pool.connections
unfolding free_connection
Step-length (enter s c p h) = takes-length s.pool p c h
Step-length (enter_wait s h) = refl
Step-length (resume s c p n h) = takes-length s.pool p c h
Step-length (resume_wait s n h) = refl
Step-length (spurious s n) = refl
Step-length (release s c before after e) =
    ap (λ (p : Pool). length p.connections) (notify_one-pool _)
    ∙ length-mark_free c s.pool.connections

Run-length : {s t : System} → Run s t → length t.pool.connections ≡ length s.pool.connections
Run-length start = refl
Run-length (next r st) = Step-length st ∙ Run-length r

connect_loop-none :
    (made : List (Option ℕ)) (p : Pool)
    → ((c : ℕ) → made_count c made ≡ 0)
    → connect_loop made p ≡ p
unfolding connect_loop
connect_loop-none [] p h = refl
connect_loop-none (none ∷ made) p h = connect_loop-none made p h
connect_loop-none (some c ∷ made) p h = absurd (ground (arith, h c))

-- A pool for which no connection could be made lets every caller wait, for ever.
pub get_connection-no_pool :
    (made : List (Option ℕ)) (s : System)
    → ((c : ℕ) → made_count c made ≡ 0)
    → Run (opened made) s
    → get_connection s.pool ≡ waits
unfolding get_connection
get_connection-no_pool made s h run =
    let v = Run-IsValid (opened-IsValid made (λ c. omega (arith, h c))) run in
    let none_made = connect_loop-none made (record { connections = []; available = 0 }) h in
    let size : length s.pool.connections ≡ 0 =
      Run-length run ∙ ap (λ (p : Pool). length p.connections) none_made in
    let empty : s.pool.available ≡ 0 = omega (arith, v.total, size) in
    rw (empty, get_connection) refl
