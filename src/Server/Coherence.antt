-- ===== src/Server/Coherence.antt =====
-- The long-term cache of server.cpp, kept in the database and in memcached.
use vaedb.Common.{
  ◌≡◌, ◌⊎◌, inl, inr, refl, Bool, true, false, some, [], ◌∷◌, Bytes, is_empty, if◌then◌else◌,
  Option-cases,
}
use vaedb.Common.Int.{ℤ, pos}
use vaedb.Json.{JsonLibrary}
use vaedb.Site.{Site}
use vaedb.Session.{ResponseClass}
use vaedb.Storage.{
  Database, Memcached, long_term_cache_get, long_term_cache_set, proxy_get, proxy_set,
}
use vaedb.Storage.Laws.{MysqlLaws, MemcachedLaws}
use vaedb.Storage.KeyValue.{is_none, long_term_cache_get-set}
use vaedb.Server.Sessions.{is_set}
use vaedb.Server.Keys.{long_term_key}
use vaedb.Server.Handlers.{Stored, read_through, long_term_get, long_term_set, long_term_empty}

module _ (memcached : Memcached) (laws : MemcachedLaws memcached) where
  open laws use {get_set_law}

  -- After a `set` that went through, a `get` has the value or nothing.
  proxy_get-set :
      (k v : Bytes) (flags expire : ℤ) (mc mc' : memcached.Mc)
      → memcached.mc_set mc k v expire flags ≡ some mc'
      → (proxy_get memcached k (proxy_set memcached k v flags expire mc) ≡ [])
        ⊎ (proxy_get memcached k (proxy_set memcached k v flags expire mc) ≡ v)
  unfolding proxy_get proxy_set
  proxy_get-set k v flags expire mc mc' h =
      rw (h, proxy_set)
        (elim (Option-cases (memcached.mc_get mc' k)) [
          | inl e ↦ rw (e, proxy_get) (inl refl)
          | inr (bytes, e) ↦ rw (e, proxy_get) (get_set_law mc mc' k v expire flags bytes h e)
        ])

module _ (library : JsonLibrary) (class : ResponseClass library Site) (database : Database)
    (memcached : Memcached) where
  -- The answer of memcached decides: it is given out, or the database is read where it is empty.
  choose :
      (s k answer v : Bytes) (r : ℤ) (st : Stored library class database memcached)
      → (answer ≡ []) ⊎ (answer ≡ v)
      → (long_term_cache_get database s k r st.db).0 ≡ v
      → (if is_empty answer
          then read_through library class database memcached s k r st
          else (answer, st)).0
        ≡ v
  unfolding read_through is_empty long_term_cache_get
  choose s k [] v r st a d = d
  choose s k (x ∷ xs) v r st (inl e) d = absurd (cc)
  choose s k (x ∷ xs) v r st (inr e) d = e

  asked :
      (b : Bool) (answer v : Bytes)
      → (answer ≡ []) ⊎ (answer ≡ v)
      → ((if b then answer else []) ≡ []) ⊎ ((if b then answer else []) ≡ v)
  asked true answer v a = a
  asked false answer v a = inl refl

  answered :
      (s k v : Bytes) (r use_ : ℤ) (st : Stored library class database memcached)
      → (proxy_get memcached (long_term_key s k) st.mc ≡ [])
        ⊎ (proxy_get memcached (long_term_key s k) st.mc ≡ v)
      → (long_term_cache_get database s k r st.db).0 ≡ v
      → (long_term_get library class database memcached s k r use_ st).0 ≡ v
  unfolding long_term_get
  answered s k v r use_ st a d =
      choose s k (if is_set use_ then proxy_get memcached (long_term_key s k) st.mc else []) v r st
        (asked (is_set use_) _ v a) d

  -- A value set by `longTermCacheSet` is what `longTermCacheGet` answers, with and without the use of
  -- memcached, which may have forgotten it: when the statements of the database and the write to
  -- memcached go through.
  pub long_term_get-set :
      (mysql : MysqlLaws database) (laws : MemcachedLaws memcached) (s k v : Bytes)
      (days is_filename r use_ : ℤ) (st : Stored library class database memcached)
      (db1 : database.Db) (mc' : memcached.Mc)
      → database.delete_kv st.db s k ≡ some db1
      → is_none (database.insert_kv db1 k s v days is_filename) ≡ false
      → is_none (database.select_kv (long_term_cache_set database s k v days is_filename st.db) k s)
        ≡ false
      → memcached.mc_set st.mc (long_term_key s k) v (pos 86400) (pos 0) ≡ some mc'
      → (long_term_get library class database memcached s k r use_
          (long_term_set library class database memcached s k v days is_filename st)).0
        ≡ v
  unfolding long_term_set
  long_term_get-set mysql laws s k v days is_filename r use_ st db1 mc' d i q m =
      answered s k v r use_ _
        (proxy_get-set memcached laws (long_term_key s k) v (pos 0) (pos 86400) st.mc mc' m)
        (long_term_cache_get-set database mysql s k s k v days is_filename r st.db db1 d i q
          (rw (mysql.same_refl s, mysql.same_refl k) refl))

  -- `longTermCacheEmpty` removes nothing from memcached: a value that is there is still answered to
  -- each `longTermCacheGet` that asks for the short-term cache.
  pub long_term_get-stale :
      (s k w : Bytes) (r use_ : ℤ) (st : Stored library class database memcached)
      → is_set use_ ≡ true
      → is_empty w ≡ false
      → proxy_get memcached (long_term_key s k) st.mc ≡ w
      → (long_term_get library class database memcached s k r use_
          (long_term_empty library class database memcached s st)).0
        ≡ w
  unfolding long_term_get long_term_empty
  long_term_get-stale s k w r use_ st u full g = rw (u, long_term_get, g, full) refl
