-- ===== src/Server/Races.antt =====
-- Calls of `getSite` of server.cpp that run at the same time as each other and as `reloadSite`: each step is one
-- critical section, or the work between two of them.
pub mod Invariant
pub mod Exclusion
mod Tests
use vaedb.Common.{
  ℕ, suc, ◌+◌, ◌<◌, ◌≡◌, ◌≢◌, refl, sym, ap, ◌∙◌, Bool, true, false, Option, none, some, List, [],
  ◌∷◌, ◌++◌, Bytes, codes, Bytes-discrete, if◌then◌else◌, ◌==◌,
}
use vaedb.Common.Map.{lookup, assign}
use vaedb.Common.Outcome.{Outcome, done, thrown, undefined, Error, ◌>>=◌}
use vaedb.Site.{Loader, Site, new_site, validate_secret_key}
use vaedb.Server.Sites.{sites_key, reload_sites}

-- The arguments of a call.
pub record Request : Type 0 where
  pub subdomain : Bytes
  pub secret_key : Bytes
  pub staging_mode : Bool

abbrev pub key_of : Request → Bytes
key_of r = sites_key r.subdomain r.staging_mode

-- Where a thread is in `getSite`: it has the mutex of its site and waits for it; it holds it; it holds it and has
-- not found the site; it has read the feed as well; it has put the new site into the map. Then it has let go.
pub data Phase : Type 0 where
  idle : Phase
  locking inside missed : Request → ℕ → Phase
  fed : Request → ℕ → Bytes → Phase
  loaded : Request → ℕ → Site → Phase
  finished : Outcome Site → Phase

-- `siteMutexes` with the addresses of the mutexes and the next one that `new` gives, `sites`, the objects of S3, and
-- the threads.
pub record Shared : Type 0 where
  pub site_mutexes : List (Bytes × ℕ)
  pub next_mutex : ℕ
  pub sites : List (Bytes × Site)
  pub objects : Bytes → Bytes
  pub threads : ℕ → Phase

-- `_get_site_mutex`: the mutex of the key, which is made if it is not there.
unfoldable pub get_site_mutex : Bytes → Shared → ℕ × Shared
get_site_mutex key s = elim (lookup Bytes-discrete key s.site_mutexes) [
  | some m ↦ (m, s)
  | none ↦ (
    s.next_mutex,
    record s {
      site_mutexes = assign Bytes-discrete key s.next_mutex s.site_mutexes;
      next_mutex = s.next_mutex + 1;
    },
  )
]

-- The mutex that a thread holds.
unfoldable pub held_by : Phase → Option ℕ
held_by idle = none
held_by (locking r m) = none
held_by (inside r m) = some m
held_by (missed r m) = some m
held_by (fed r m xml) = some m
held_by (loaded r m site) = some m
held_by (finished o) = none

abbrev pub enter : ℕ → Phase → Shared → Shared
enter t phase s = record s { threads = λ u. if t == u then phase else s.threads u }

module _ (loader : Loader) where
  open loader use {test_mode}

  -- `_getSite`, under `sitesMutex`.
  unfoldable pub found_phase : Request → ℕ → Option Site → Phase
  found_phase r m none = missed r m
  found_phase r m (some site) =
      finished (validate_secret_key loader site r.secret_key >>= λ ok. done site)

  unfoldable pub feed_of : Request → (Bytes → Bytes) → Bytes
  feed_of r objects = if test_mode then [] else objects (r.subdomain ++ codes "-feed.xml")

  pub data Step : Shared → Shared → Type 0 where
    call :
        (s : Shared) (t : ℕ) (r : Request)
        → s.threads t ≡ idle
        → Step s (let (m, s') = get_site_mutex (key_of r) s in enter t (locking r m) s')
    lock :
        (s : Shared) (t : ℕ) (r : Request) (m : ℕ)
        → s.threads t ≡ locking r m
        → ((u : ℕ) → held_by (s.threads u) ≢ some m)
        → Step s (enter t (inside r m) s)
    find :
        (s : Shared) (t : ℕ) (r : Request) (m : ℕ)
        → s.threads t ≡ inside r m
        → Step s (enter t (found_phase r m (lookup Bytes-discrete (key_of r) s.sites)) s)
    read :
        (s : Shared) (t : ℕ) (r : Request) (m : ℕ)
        → s.threads t ≡ missed r m
        → Step s (enter t (fed r m (feed_of r s.objects)) s)
    -- `_loadSite`, whose constructor may throw.
    load :
        (s : Shared) (t : ℕ) (r : Request) (m : ℕ) (xml : Bytes) (site : Site)
        → s.threads t ≡ fed r m xml
        → new_site loader r.subdomain r.staging_mode xml ≡ done site
        → Step s (
            enter t
              (loaded r m site)
              (record s { sites = assign Bytes-discrete (key_of r) site s.sites }))
    fail :
        (s : Shared) (t : ℕ) (r : Request) (m : ℕ) (xml : Bytes) (e : Error)
        → s.threads t ≡ fed r m xml
        → new_site loader r.subdomain r.staging_mode xml ≡ thrown e
        → Step s (enter t (finished (thrown e)) s)
    check :
        (s : Shared) (t : ℕ) (r : Request) (m : ℕ) (site : Site)
        → s.threads t ≡ loaded r m site
        → Step s (
            enter t (finished (validate_secret_key loader site r.secret_key >>= λ ok. done site)) s)
    -- The next call of a thread.
    again :
        (s : Shared) (t : ℕ) (o : Outcome Site) → s.threads t ≡ finished o → Step s (enter t idle s)
    -- `reloadSite` of the bus.
    reload :
        (s : Shared) (subdomain : Bytes)
        → Step s (record s { sites = reload_sites subdomain s.sites })
    -- A new object on S3.
    publish : (s : Shared) (objects : Bytes → Bytes) → Step s (record s { objects = objects })

  pub data Run (s : Shared) : Shared → Type 0 where
    start : Run s s
    next : {t u : Shared} → Run s t → Step t u → Run s u

abbrev pub fresh_server : List (Bytes × Site) → (Bytes → Bytes) → Shared
fresh_server sites objects = record {
  site_mutexes = [];
  next_mutex = 0;
  sites = sites;
  objects = objects;
  threads = λ t. idle;
}
