-- ===== src/Server/Races/Exclusion.antt =====
-- Which threads may be in `getSite` together, and what a reload does to them.
use vaedb.Common.{
  ℕ, ◌≡◌, refl, sym, ap, ◌∙◌, none, some, List, Bytes, Bytes-discrete, Option-cases, inl, inr,
  if_pos,
}
use vaedb.Common.Map.{lookup, assign, lookup-assign}
use vaedb.Common.Outcome.{done}
use vaedb.Site.{Loader, Site, new_site}
use vaedb.Server.Sites.{reload_sites}
use vaedb.Server.Races.{
  Request, key_of, idle, inside, missed, fed, loaded, finished, Shared, held_by, enter, found_phase,
  Step, call, lock, find, read, load, fail, check, again, reload, publish, Run, start, next,
  fresh_server,
}
use vaedb.Server.Races.Invariant.{
  engaged, missing_by, IsSafe, entered-IsValid, goes_on-IsSafe, called-IsSafe, reloaded_none,
  loaded-IsSafe,
}

module _ (loader : Loader) where
  Step-IsSafe : (s s' : Shared) → Step loader s s' → IsSafe s → IsSafe s'
  unfolding held_by found_phase
  Step-IsSafe s s' (call _ t r e) v = called-IsSafe s t r v
  Step-IsSafe s s' (lock _ t r m e free) v =
      entered-IsValid s.site_mutexes s.site_mutexes s.sites s.sites s.threads t (inside r m) v
        (λ k m' h. h) (λ r' m' h. v.keyed t r' m' (ap engaged e ∙ h))
        (λ u m' other h h'. free u (h' ∙ sym h)) (λ r' h. absurd (cc))
        (λ u r' other h. v.absent u r' h)
  Step-IsSafe s s' (find _ t r m e) v =
      elim (Option-cases (lookup Bytes-discrete (key_of r) s.sites)) [
        | inl there ↦
            rw (there, found_phase)
              (goes_on-IsSafe s t (missed r m) v (λ r' m' h. ap engaged e ∙ h)
                (λ m' h. ap held_by e ∙ h)
                (λ r' h.
                  let same : r ≡ r' = cc in
                  ap (λ (q : Request). lookup Bytes-discrete (key_of q) s.sites) (sym same)
                  ∙ there))
        | inr (site, there) ↦
            rw (there, found_phase)
              (goes_on-IsSafe s t (finished _) v (λ r' m' h. absurd (cc)) (λ m' h. absurd (cc))
                (λ r' h. absurd (cc)))
      ]
  Step-IsSafe s s' (read _ t r m e) v =
      goes_on-IsSafe s t (fed r m _) v (λ r' m' h. ap engaged e ∙ h) (λ m' h. ap held_by e ∙ h)
        (λ r' h. v.absent t r' (ap missing_by e ∙ h))
  Step-IsSafe s s' (load _ t r m xml site e made) v = loaded-IsSafe loader s t r m xml site v e
  Step-IsSafe s s' (fail _ t r m xml x e made) v =
      goes_on-IsSafe s t (finished _) v (λ r' m' h. absurd (cc)) (λ m' h. absurd (cc))
        (λ r' h. absurd (cc))
  Step-IsSafe s s' (check _ t r m site e) v =
      goes_on-IsSafe s t (finished _) v (λ r' m' h. absurd (cc)) (λ m' h. absurd (cc))
        (λ r' h. absurd (cc))
  Step-IsSafe s s' (again _ t o e) v =
      goes_on-IsSafe s t idle v (λ r' m' h. absurd (cc)) (λ m' h. absurd (cc)) (λ r' h. absurd (cc))
  Step-IsSafe s s' (reload _ subdomain) v = record {
    keyed = v.keyed;
    alone = v.alone;
    absent = λ t r h. reloaded_none subdomain (key_of r) s.sites (v.absent t r h);
  }
  Step-IsSafe s s' (publish _ objects) v = v

  Run-IsSafe : (s s' : Shared) → IsSafe s → Run loader s s' → IsSafe s'
  Run-IsSafe s _ v start = v
  Run-IsSafe s s' v (next {t = t} run step) = Step-IsSafe t s' step (Run-IsSafe s t v run)

  fresh-IsSafe :
      (sites : List (Bytes × Site)) (objects : Bytes → Bytes) → IsSafe (fresh_server sites objects)
  unfolding held_by
  fresh-IsSafe sites objects = record {
    keyed = λ t r m h. absurd (cc);
    alone = λ t u m h h'. absurd (cc);
    absent = λ t r h. absurd (cc);
  }

  -- However calls of `getSite` and reloads interleave from the start of the server, a thread that has read
  -- the feed of a site and is about to load it finds no site under its key, so that no loaded site is ever
  -- replaced by another copy, and no other thread is behind the mutex of the same key.
  pub fed-alone :
      (sites : List (Bytes × Site)) (objects : Bytes → Bytes) (s : Shared) (t : ℕ) (r : Request)
      (m : ℕ) (xml : Bytes)
      → Run loader (fresh_server sites objects) s
      → s.threads t ≡ fed r m xml
      → (lookup Bytes-discrete (key_of r) s.sites ≡ none)
        × ((u : ℕ) (r' : Request) (m' : ℕ)
            → engaged (s.threads u) ≡ some (r', m')
            → held_by (s.threads u) ≡ some m'
            → key_of r ≡ key_of r'
            → t ≡ u)
  unfolding held_by
  fed-alone sites objects s t r m xml run e =
      let v = Run-IsSafe (fresh_server sites objects) s (fresh-IsSafe sites objects) run in
      (
        v.absent t r (ap missing_by e),
        λ u r' m' there held same.
            let mine = v.keyed t r m (ap engaged e) in
            let other = v.keyed u r' m' there in
            let both : some m ≡ some m' =
              sym mine ∙ ap (λ (k : Bytes). lookup Bytes-discrete k s.site_mutexes) same ∙ other in
            let equal : m ≡ m' = cc in v.alone t u m' (ap held_by e ∙ ap some equal) held,
      )

  -- A reload that comes after a thread has read the feed and before it has loaded the site is lost: the
  -- thread can go on and load the site of the old feed, which then is the site of its key.
  pub reload-lost :
      (s : Shared) (t : ℕ) (r : Request) (m : ℕ) (xml : Bytes) (site : Site)
      → s.threads t ≡ fed r m xml
      → new_site loader r.subdomain r.staging_mode xml ≡ done site
      → (s' : Shared) × Run loader s s'
        × (lookup Bytes-discrete (key_of r) s'.sites ≡ some site)
        × (s'.objects ≡ s.objects)
        × (s'.sites ≡ assign Bytes-discrete (key_of r) site (reload_sites r.subdomain s.sites))
  reload-lost s t r m xml site e made =
      let reloaded : Shared = record s { sites = reload_sites r.subdomain s.sites } in
      (
        enter t (loaded r m site)
            (record reloaded { sites = assign Bytes-discrete (key_of r) site reloaded.sites }),
        next {t = reloaded} (next {t = s} start (reload s r.subdomain))
            (load reloaded t r m xml site e made),
        lookup-assign Bytes-discrete (key_of r) (key_of r) site reloaded.sites
            ∙ if_pos (Bytes-discrete (key_of r) (key_of r)) refl _ _,
        refl,
        refl,
      )
