-- ===== src/Server/Handlers.antt =====
-- The handlers of server.cpp for the caches and the locks.
use vaedb.Common.{true, List, [], ◌∷◌, Bytes, codes, is_empty, if◌then◌else◌}
use vaedb.Common.Int.{ℤ, pos}
use vaedb.Common.Outcome.{done}
use vaedb.Json.{JsonLibrary, iparam, sparam}
use vaedb.Site.{Site}
use vaedb.Session.{ResponseClass, Session}
use vaedb.Storage.{
  Database, Memcached, long_term_cache_get, long_term_cache_set, long_term_cache_empty,
  long_term_cache_delete, long_term_cache_sweeper_info, session_cache_get, session_cache_set,
  session_cache_delete, lock, unlock, proxy_get, proxy_set, proxy_remove,
}
use vaedb.Server.{◌>>◌, lift}
use vaedb.Server.Sessions.{World, Handler, is_set}
use vaedb.Server.Keys.{long_term_key, short_term_key, full_key}

module _ (library : JsonLibrary) (class : ResponseClass library Site) (database : Database)
    (memcached : Memcached) where
  open library use {Json, number, text, boolean, object}

  abbrev pub Stored : Type 0
  Stored = World library class database.Db memcached.Mc

  abbrev pub Call : Type 0
  Call = Handler library class database.Db memcached.Mc

  abbrev subdomain_of : Session library Site class → Bytes
  subdomain_of session = session.site.subdomain

  -- `json({ { "key", key }, { "value", value } })` and `json({ { "key", key } })`
  abbrev pub pair : Bytes → Bytes → Json
  pair key value = object ((codes "key", text key) ∷ (codes "value", text value) ∷ [])

  abbrev pub only_key : Bytes → Json
  only_key key = object ((codes "key", text key) ∷ [])

  unfoldable pub short_term_cache_get : Call
  short_term_cache_get id session params = lift (sparam library params (codes "key")) >> λ key.
      lift (iparam library params (codes "flags")) >> λ flags s.
      (done (pair key (proxy_get memcached (short_term_key (subdomain_of session) key) s.mc)), s)

  unfoldable pub short_term_cache_set : Call
  short_term_cache_set id session params = lift (sparam library params (codes "key")) >> λ key.
      lift (sparam library params (codes "value")) >> λ value.
      lift (iparam library params (codes "flags")) >> λ flags.
      lift (iparam library params (codes "expireInterval")) >> λ interval s. (
        done (pair key value),
        record s {
          mc =
              proxy_set memcached (short_term_key (subdomain_of session) key) value flags interval
                s.mc;
        },
      )

  unfoldable pub short_term_cache_delete : Call
  short_term_cache_delete id session params = lift (sparam library params (codes "key")) >> λ key s.
      (
        done (only_key key),
        record s { mc = proxy_remove memcached (short_term_key (subdomain_of session) key) s.mc },
      )

  unfoldable pub handle_session_cache_get : Call
  handle_session_cache_get id session params =
      lift (sparam library params (codes "key")) >> λ key s.
      (done (pair key (session_cache_get database (subdomain_of session) key s.db)), s)

  unfoldable pub handle_session_cache_set : Call
  handle_session_cache_set id session params = lift (sparam library params (codes "key")) >> λ key.
      lift (sparam library params (codes "value")) >> λ value s. (
        done (pair key value),
        record s { db = session_cache_set database (subdomain_of session) key value s.db },
      )

  unfoldable pub handle_session_cache_delete : Call
  handle_session_cache_delete id session params =
      lift (sparam library params (codes "key")) >> λ key s. (
        done (only_key key),
        record s { db = session_cache_delete database (subdomain_of session) key s.db },
      )

  -- The read of the database, whose value is put into memcached for a day.
  unfoldable pub read_through : Bytes → Bytes → ℤ → Stored → Bytes × Stored
  read_through subdomain key renew_expiry s =
      let (value, db) = long_term_cache_get database subdomain key renew_expiry s.db in
      (
        value,
        record s {
          db = db;
          mc = proxy_set memcached (long_term_key subdomain key) value (pos 0) (pos 86400) s.mc;
        },
      )

  -- `longTermCacheGet`: the answer of memcached counts if it is asked for and not empty.
  unfoldable pub long_term_get : Bytes → Bytes → ℤ → ℤ → Stored → Bytes × Stored
  long_term_get subdomain key renew_expiry use_short_term_cache s =
      let answer : Bytes =
        if is_set use_short_term_cache
        then proxy_get memcached (long_term_key subdomain key) s.mc
        else [] in
      if is_empty answer then read_through subdomain key renew_expiry s else (answer, s)

  unfoldable pub handle_long_term_cache_get : Call
  handle_long_term_cache_get id session params =
      lift (sparam library params (codes "key")) >> λ key.
      lift (iparam library params (codes "renewExpiry")) >> λ renew_expiry.
      lift (iparam library params (codes "useShortTermCache")) >> λ use_short_term_cache s.
      let (value, s') =
        long_term_get (subdomain_of session) key renew_expiry use_short_term_cache s in
      (done (pair key value), s')

  unfoldable pub long_term_set : Bytes → Bytes → Bytes → ℤ → ℤ → Stored → Stored
  long_term_set subdomain key value interval is_filename s = record s {
    db = long_term_cache_set database subdomain key value interval is_filename s.db;
    mc = proxy_set memcached (long_term_key subdomain key) value (pos 0) (pos 86400) s.mc;
  }

  unfoldable pub handle_long_term_cache_set : Call
  handle_long_term_cache_set id session params =
      lift (sparam library params (codes "key")) >> λ key.
      lift (sparam library params (codes "value")) >> λ value.
      lift (iparam library params (codes "expireInterval")) >> λ interval.
      lift (iparam library params (codes "isFilename")) >> λ is_filename s.
      (done (pair key value), long_term_set (subdomain_of session) key value interval is_filename s)

  unfoldable pub long_term_delete : Bytes → Bytes → Stored → Stored
  long_term_delete subdomain key s = record s {
    db = long_term_cache_delete database subdomain key s.db;
    mc = proxy_remove memcached (long_term_key subdomain key) s.mc;
  }

  unfoldable pub handle_long_term_cache_delete : Call
  handle_long_term_cache_delete id session params =
      lift (sparam library params (codes "key")) >> λ key s.
      (done (only_key key), long_term_delete (subdomain_of session) key s)

  -- `longTermCacheEmpty` leaves memcached alone.
  unfoldable pub long_term_empty : Bytes → Stored → Stored
  long_term_empty subdomain s = record s { db = long_term_cache_empty database subdomain s.db }

  unfoldable pub handle_long_term_cache_empty : Call
  handle_long_term_cache_empty id session params s =
      (done (object ((codes "empty", boolean true) ∷ [])), long_term_empty (subdomain_of session) s)

  -- `json(data)`: an object of texts.
  unfoldable pub members : List (Bytes × Bytes) → List (Bytes × Json)
  members [] = []
  members ((k, v) ∷ map_) = (k, text v) ∷ members map_

  unfoldable pub handle_long_term_cache_sweeper_info : Call
  handle_long_term_cache_sweeper_info id session params s =
      let (map_, db) = long_term_cache_sweeper_info database (subdomain_of session) s.db in
      (done (object (members map_)), record s { db = db })

  unfoldable pub sitewide_lock : Call
  sitewide_lock id session params = lift (sparam library params (codes "iden")) >> λ iden s.
      let (status, db) = lock database (full_key (subdomain_of session) iden) s.db in
      (done (object ((codes "status", number status) ∷ [])), record s { db = db })

  unfoldable pub sitewide_unlock : Call
  sitewide_unlock id session params = lift (sparam library params (codes "iden")) >> λ iden s.
      let (status, db) = unlock database (full_key (subdomain_of session) iden) s.db in
      (done (object ((codes "status", number status) ∷ [])), record s { db = db })
