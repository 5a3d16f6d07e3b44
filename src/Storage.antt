-- ===== src/Storage.antt =====
-- The statements of mysql_proxy.cpp and the calls of memcache_proxy.cpp, each on a connection that the
-- pool has given. The servers behind them are parameters.
pub mod Laws
pub mod KeyValue
pub mod Sessions
pub mod Locks
pub mod Model
mod Tests
use vaedb.Common.{
  ℕ, zero, suc, ◌+◌, ◌≡◌, Bool, true, false, not, Option, none, some, List, [], ◌∷◌, Bytes,
  Bytes-discrete, if◌then◌else◌,
}
use vaedb.Common.Int.{ℤ, pos, ltb_ℤ}
use vaedb.Common.Map.{assign}

-- What each statement does to the database; `none` is a `SQLException`, of its preparation or of its
-- execution, which changes nothing.
pub record Database : Type 1 where
  pub Db : Type 0
  -- kvstore
  pub select_kv : Db → Bytes → Bytes → Option (List (Bytes × ℤ))
  pub update_kv : Db → ℤ → Bytes → Bytes → Option Db
  pub delete_kv : Db → Bytes → Bytes → Option Db
  pub insert_kv : Db → Bytes → Bytes → Bytes → ℤ → ℤ → Option Db
  pub empty_kv : Db → Bytes → Option Db
  pub delete_expired_kv : Db → Bytes → Option Db
  pub select_files : Db → Bytes → Option (List (Bytes × Bytes))
  -- session_data
  pub select_session : Db → Bytes → Bytes → Option (List Bytes)
  pub delete_session : Db → Bytes → Bytes → Option Db
  pub insert_session : Db → Bytes → Bytes → Bytes → ℤ → Option Db
  pub delete_expired_sessions : Db → Option Db
  -- locks
  pub insert_lock : Db → Bytes → Option Db
  pub delete_old_locks : Db → Option Db
  pub delete_lock : Db → Bytes → Option Db

-- `memcache::Memcache`; `none` is a `runtime_error`. A `get` that finds nothing has no bytes.
pub record Memcached : Type 1 where
  pub Mc : Type 0
  pub mc_get : Mc → Bytes → Option Bytes
  pub mc_set : Mc → Bytes → Bytes → ℤ → ℤ → Option Mc
  pub mc_remove : Mc → Bytes → Option Mc

-- A statement whose exception is caught and logged.
abbrev pub or_same {ℓ} : {A : Type ℓ} → A → Option A → A
or_same a none = a
or_same a (some b) = b

module _ (database : Database) where
  open database use {
    Db, select_kv, update_kv, delete_kv, insert_kv, empty_kv, delete_expired_kv, select_files,
    select_session, delete_session, insert_session, delete_expired_sessions, insert_lock,
    delete_old_locks, delete_lock,
  }

  -- The loop of `longTermCacheGet` over the rows: the last value seen, and the database.
  unfoldable pub get_loop : Bytes → Bytes → ℤ → Db → List (Bytes × ℤ) → Bytes → Bytes × Db
  get_loop subdomain key renew_expiry db [] out = (out, db)
  get_loop subdomain key renew_expiry db ((v, remaining_days) ∷ rows) out =
      let renewed =
        if (if ltb_ℤ (pos 0) renew_expiry then ltb_ℤ remaining_days (pos 10) else false)
        then update_kv db renew_expiry key subdomain
        else some db in
      elim renewed [ none ↦ (v, db) | some db' ↦ get_loop subdomain key renew_expiry db' rows v ]

  unfoldable pub long_term_cache_get : Bytes → Bytes → ℤ → Db → Bytes × Db
  long_term_cache_get subdomain key renew_expiry db = elim (select_kv db key subdomain) [
    | none ↦ ([], db)
    | some rows ↦ get_loop subdomain key renew_expiry db rows []
  ]

  unfoldable pub long_term_cache_set : Bytes → Bytes → Bytes → ℤ → ℤ → Db → Db
  long_term_cache_set subdomain key value expire_interval is_filename db =
      elim (delete_kv db subdomain key) [
        | none ↦ db
        | some db' ↦ or_same db' (insert_kv db' key subdomain value expire_interval is_filename)
      ]

  unfoldable pub long_term_cache_empty : Bytes → Db → Db
  long_term_cache_empty subdomain db = or_same db (empty_kv db subdomain)

  unfoldable pub long_term_cache_delete : Bytes → Bytes → Db → Db
  long_term_cache_delete subdomain key db = or_same db (delete_kv db subdomain key)

  -- `data[k] = v` for each row.
  unfoldable pub fill : List (Bytes × Bytes) → List (Bytes × Bytes) → List (Bytes × Bytes)
  fill [] map_ = map_
  fill ((k, v) ∷ rows) map_ = fill rows (assign Bytes-discrete k v map_)

  unfoldable pub long_term_cache_sweeper_info : Bytes → Db → List (Bytes × Bytes) × Db
  long_term_cache_sweeper_info subdomain db = elim (delete_expired_kv db subdomain) [
    | none ↦ ([], db)
    | some db' ↦ elim (select_files db' subdomain) [
      | none ↦ ([], db')
      | some rows ↦ (fill rows [], db')
    ]
  ]

  abbrev pub last_or : Bytes → List Bytes → Bytes
  last_or out [] = out
  last_or out (v ∷ rows) = last_or v rows

  unfoldable pub session_cache_get : Bytes → Bytes → Db → Bytes
  session_cache_get subdomain key db = elim (select_session db key subdomain) [
    | none ↦ []
    | some rows ↦ last_or [] rows
  ]

  unfoldable pub session_cache_set : Bytes → Bytes → Bytes → Db → Db
  session_cache_set subdomain key value db = elim (delete_session db key subdomain) [
    | none ↦ db
    | some db' ↦ or_same db' (insert_session db' key subdomain value (pos 172800))
  ]

  unfoldable pub session_cache_delete : Bytes → Bytes → Db → Db
  session_cache_delete subdomain key db = or_same db (delete_session db key subdomain)

  unfoldable pub garbage_collect : Db → Db
  garbage_collect db = or_same db (delete_expired_sessions db)

  -- `lock`: 1 if the row could be inserted; otherwise locks older than a minute go, and it is 0.
  unfoldable pub lock : Bytes → Db → ℤ × Db
  lock subdomain db = elim (insert_lock db subdomain) [
    | none ↦ (pos 0, or_same db (delete_old_locks db))
    | some db' ↦ (pos 1, db')
  ]

  unfoldable pub unlock : Bytes → Db → ℤ × Db
  unlock subdomain db = elim (delete_lock db subdomain) [
    | none ↦ (pos 0, db)
    | some db' ↦ (pos 1, db')
  ]

module _ (memcached : Memcached) where
  open memcached use {Mc, mc_get, mc_set, mc_remove}

  -- `MemcacheProxy::get`, `set` and `remove`.
  unfoldable pub proxy_get : Bytes → Mc → Bytes
  proxy_get key mc = or_same [] (mc_get mc key)

  unfoldable pub proxy_set : Bytes → Bytes → ℤ → ℤ → Mc → Mc
  proxy_set key value flags expire_interval mc =
      or_same mc (mc_set mc key value expire_interval flags)

  unfoldable pub proxy_remove : Bytes → Mc → Mc
  proxy_remove key mc = or_same mc (mc_remove mc key)
