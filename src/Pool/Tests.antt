-- ===== src/Pool/Tests.antt =====
-- Runs of the connection pool.
use vaedb.Common.{
  ℕ, ◌+◌, ◌≤◌, ◌≡◌, ◌≢◌, refl, Option, none, some, List, [], ◌∷◌, arith, length, ℕ_discrete, Bytes,
  codes, eqb, ◌++◌, ◌==◌, if◌then◌else◌,
}
use vaedb.Common.Int.{pos}
use vaedb.Common.Map.{assign}
use vaedb.Pool.{
  free, in_use, Pool, waits, takes, throws, pool_size, connect_loop, get_connection, take_free,
  free_connection, mark_free, marks,
}
use vaedb.Pool.Counts.{count}
use vaedb.Pool.Threads.{System, Run, start, next, enter, enter_wait, opened, IsFresh}
use vaedb.Pool.Threads.Sharing.{get_connection-never_throws, held-exclusive, waiting-all_held}
use vaedb.Pool.Connect.{
  Driver, rounds, create_connection, new_mysql_proxy, new_mysql_proxy-no_pool, connect_string,
}
use vaedb.Query.Samples.{sample_patterns}

-- Ten workers share two connections, at the addresses 1 and 2; a third could not be made.
abbrev made : List (Option ℕ)
made = some 2 ∷ none ∷ some 1 ∷ []

abbrev two_used : Pool
two_used = record { connections = (2, in_use) ∷ (1, in_use) ∷ []; available = 0 }

abbrev one_used : Pool
one_used = record { connections = (2, in_use) ∷ (1, free) ∷ []; available = 1 }

sizes : (pool_size (pos 10) ≡ 2) × (pool_size (pos 3) ≡ 1)
unfolding pool_size
sizes = (refl, refl)

made-IsFresh : IsFresh made
made-IsFresh k = ground arith

opens : get_connection (opened made).pool ≡ takes 2 one_used
unfolding get_connection connect_loop assign take_free ℕ_discrete
opens = refl

-- Three threads ask in turn, and the third waits.
abbrev crowd : System
crowd = record { pool = two_used; held = 1 ∷ 2 ∷ []; waiting = 0 + 1; notified = 0 }

crowded : Run (opened made) crowd
unfolding get_connection take_free
crowded =
    next (next (next start (enter (opened made) 2 one_used opens)) (enter _ 1 two_used refl))
      (enter_wait _ refl)

get_connection-never_throws_run : get_connection two_used ≢ throws
get_connection-never_throws_run = get_connection-never_throws made crowd made-IsFresh crowded

held-exclusive_example :
    ((c : ℕ) → count c crowd.held ≤ 1)
    × (two_used.available + length crowd.held ≡ length two_used.connections)
held-exclusive_example = held-exclusive made crowd made-IsFresh crowded

waiting-all_held_example : length crowd.held ≡ length two_used.connections
waiting-all_held_example = waiting-all_held made crowd made-IsFresh crowded (omega arith) refl

-- A server that knows the database "vaedb" only.
abbrev one_database : Driver
one_database = record {
  connect = λ options i. some (i + 1);
  set_schema = λ con database. eqb database (codes "vaedb");
}

abbrev misnamed : System
misnamed = new_mysql_proxy one_database (codes "db") (codes "vae") [] (codes "vae") (pos 10)

new_mysql_proxy-no_pool_example : get_connection misnamed.pool ≡ waits
unfolding eqb
new_mysql_proxy-no_pool_example =
    new_mysql_proxy-no_pool one_database (codes "db") (codes "vae") [] (codes "vae") (pos 10)
      misnamed (λ i con made. refl) start

-- With the right name there are two connections.
named_run :
    (new_mysql_proxy one_database (codes "db") (codes "vae") [] (codes "vaedb") (pos 10)).pool
    ≡ record { connections = (1, free) ∷ (2, free) ∷ []; available = 2 }
unfolding new_mysql_proxy rounds create_connection pool_size connect_loop assign ℕ_discrete eqb
named_run = refl

-- pcre replaces the first comma.
abbrev first_comma : Bytes → Option Bytes
first_comma [] = none
first_comma (c ∷ s) =
    let rest = first_comma s in
    if c == b','
    then some (codes " --SERVER=" ++ s)
    else elim rest [ none ↦ none | some t ↦ some (c ∷ t) ]

connect_string_run :
    connect_string
      (record sample_patterns { replace = λ pattern rewrite s. first_comma s })
      (codes "a,b,c")
    ≡ codes "--TCP-KEEPALIVE --BINARY-PROTOCOL --SERVER=a --SERVER=b,c"
unfolding connect_string
connect_string_run = refl

gives_back :
    free_connection 2 two_used
    ≡ record { connections = (2, free) ∷ (1, in_use) ∷ []; available = 1 }
unfolding free_connection mark_free marks
gives_back = refl
