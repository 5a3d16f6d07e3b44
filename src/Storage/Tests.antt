-- ===== src/Storage/Tests.antt =====
-- Runs of the storage on tables that keep the laws.
use vaedb.Common.{◌≡◌, refl, none, some, [], Bytes, codes, eqb}
use vaedb.Common.Int.{pos}
use vaedb.Storage.{
  long_term_cache_get, long_term_cache_set, session_cache_get, session_cache_set, lock, unlock,
}
use vaedb.Storage.KeyValue.{
  Reads, Wrote, long_term_cache_get-Reads, long_term_cache_set-Wrote, long_term_cache_get-set,
}
use vaedb.Storage.Sessions.{session_cache_set-lost}
use vaedb.Storage.Locks.{Unreleased, begins, locks, unlocks, lock-exclusive}
use vaedb.Storage.Model.{Tables, no_rows, kv_write, row_write, tables, tables_laws}

abbrev site : Bytes
site = codes "acme"

abbrev other_site : Bytes
other_site = codes "zeta"

abbrev k : Bytes
k = codes "k"

abbrev v : Bytes
v = codes "v"

abbrev filled : Tables
filled = kv_write site k (some v) no_rows

long_term_cache_get-Reads_run :
    Reads tables tables_laws filled v (long_term_cache_get tables site k (pos 90) filled)
unfolding eqb
long_term_cache_get-Reads_run = long_term_cache_get-Reads tables tables_laws site k (pos 90) filled

long_term_cache_set-Wrote_run :
    Wrote tables tables_laws site k
      (some v)
      no_rows
      (long_term_cache_set tables site k v (pos 30) (pos 0) no_rows)
long_term_cache_set-Wrote_run =
    long_term_cache_set-Wrote tables tables_laws site k v (pos 30) (pos 0) no_rows
      (kv_write site k none no_rows) refl

long_term_cache_get-set_run :
    (long_term_cache_get tables site k
      (pos 0)
      (long_term_cache_set tables site k v (pos 30) (pos 0) no_rows)).0
    ≡ v
unfolding eqb
long_term_cache_get-set_run =
    long_term_cache_get-set tables tables_laws site k site k v (pos 30) (pos 0) (pos 0) no_rows
      (kv_write site k none no_rows) refl refl refl refl

session_cache_set-lost_example :
    (session_cache_get tables site k
        (session_cache_set tables site k v (row_write k (some (other_site, v)) no_rows))
      ≡ [])
    × ((session_cache_set tables site k v (row_write k (some (other_site, v)) no_rows)).row k
        ≡ some (other_site, v))
unfolding eqb
session_cache_set-lost_example =
    session_cache_set-lost tables tables_laws site k other_site v v
      (row_write k (some (other_site, v)) no_rows) refl refl

-- The site is locked, another one is locked and unlocked, and a second call for the site is refused.
abbrev busy : Tables
busy =
    (lock tables site
      (unlock tables other_site (lock tables other_site (lock tables site no_rows).1).1).1).1

busy_run : Unreleased tables tables_laws site (lock tables site no_rows).1 busy
unfolding lock unlock eqb
busy_run = locks site (unlocks other_site (locks other_site begins (λ h. refl)) refl) (λ h. refl)

lock-exclusive_example : (lock tables site busy).0 ≡ pos 0
unfolding lock
lock-exclusive_example = lock-exclusive tables tables_laws site no_rows busy refl busy_run
