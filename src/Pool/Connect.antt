-- ===== src/Pool/Connect.antt =====
-- The constructors of mysql_proxy.cpp and memcache_proxy.cpp: how each of their rounds makes a connection.
use vaedb.Common.{
  ℕ, zero, suc, ◌≡◌, refl, Bool, true, false, Option, none, some, List, [], ◌∷◌, ◌++◌, Bytes, codes,
  Option-cases, inl, inr, if◌then◌else◌, ◌>>=◌,
}
use vaedb.Common.Int.{ℤ}
use vaedb.Query.Resolve.{Patterns}
use vaedb.Pool.{pool_size, waits, get_connection}
use vaedb.Pool.Threads.{System, Run, opened, made_count}
use vaedb.Pool.Threads.NoPool.{get_connection-no_pool}

-- The options that `createConnection` fills in.
pub record ConnectOptions : Type 0 where
  pub host_name : Bytes
  pub user_name : Bytes
  pub password : Bytes
  pub opt_reconnect : Bool

-- The connector of MySQL: the connection of a round of the constructor, and whether a connection accepts the
-- database; `none` and `false` stand for an `SQLException`.
pub record Driver : Type 0 where
  pub connect : ConnectOptions → ℕ → Option ℕ
  pub set_schema : ℕ → Bytes → Bool

-- What the rounds from number `i` on make.
unfoldable pub rounds : (ℕ → Option ℕ) → ℕ → ℕ → List (Option ℕ)
rounds create zero i = []
rounds create (suc n) i = create i ∷ rounds create n (suc i)

-- If no round makes a connection, none is there.
rounds-none :
    (create : ℕ → Option ℕ) (n i c : ℕ)
    → ((j : ℕ) → create j ≡ none)
    → made_count c (rounds create n i) ≡ 0
unfolding rounds
rounds-none create zero i c h = refl
rounds-none create (suc n) i c h = rw (h i, rounds) (rounds-none create n (suc i) c h)

module _ (driver : Driver) (host username password database : Bytes) where
  open driver use {connect, set_schema}

  abbrev pub mysql_options : ConnectOptions
  mysql_options = record {
    host_name = codes "tcp://" ++ (host ++ codes ":3306");
    user_name = username;
    password = password;
    opt_reconnect = true;
  }

  unfoldable pub create_connection : ℕ → Option ℕ
  create_connection i =
      connect mysql_options i >>= λ con. if set_schema con database then some con else none

  -- The pool of the new proxy, before a thread calls.
  unfoldable pub new_mysql_proxy : ℤ → System
  new_mysql_proxy workers = opened (rounds create_connection (pool_size workers) 0)

  refused-none :
      ((i con : ℕ) → connect mysql_options i ≡ some con → set_schema con database ≡ false)
      → (i : ℕ) → create_connection i ≡ none
  unfolding create_connection
  refused-none h i = elim (Option-cases (connect mysql_options i)) [
    | inl lost ↦ rw (lost, create_connection) refl
    | inr (con, made) ↦ rw (made, h i con made, create_connection) refl
  ]

  -- If the server refuses the database on each connection that can be made, a proxy with any number of workers
  -- lets every caller wait, for ever.
  pub new_mysql_proxy-no_pool :
      (workers : ℤ) (s : System)
      → ((i con : ℕ) → connect mysql_options i ≡ some con → set_schema con database ≡ false)
      → Run (new_mysql_proxy workers) s
      → get_connection s.pool ≡ waits
  unfolding new_mysql_proxy
  new_mysql_proxy-no_pool workers s h run =
      get_connection-no_pool (rounds create_connection (pool_size workers) 0) s
        (λ c. rounds-none create_connection (pool_size workers) 0 c (refused-none h)) run

module _ (patterns : Patterns) where
  -- The text that memcached's library gets, from the list of servers.
  unfoldable pub connect_string : Bytes → Bytes
  connect_string c =
      codes "--TCP-KEEPALIVE --BINARY-PROTOCOL --SERVER="
      ++ elim (patterns.replace (codes ",") (codes " --SERVER=") c) [ none ↦ c | some s ↦ s ]

-- `new` gives each round the address of a new object.
unfoldable pub new_memcache_proxy : (Bytes → ℕ → ℕ) → Patterns → Bytes → ℤ → System
new_memcache_proxy new patterns c workers =
    opened (rounds (λ i. some (new (connect_string patterns c) i)) (pool_size workers) 0)
