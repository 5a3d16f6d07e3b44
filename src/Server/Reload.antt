-- ===== src/Server/Reload.antt =====
-- Which sites `getSite` and `reloadSite` of server.cpp leave loaded.
use vaedb.Common.{
  ◌≡◌, ◌≢◌, refl, sym, ap, ◌∙◌, Bool, true, false, Option, none, some, List, [], ◌++◌, Bytes, codes,
  eqb, Bytes-discrete, if◌then◌else◌, ite, if_pos, if_neg, Option-cases, inl, inr, arith,
}
use vaedb.Common.Map.{lookup, lookup-assign, lookup-erase}
use vaedb.Common.Outcome.{Outcome, done, thrown, undefined, ◌>>=◌, >>=-eq-done, done-injective}
use vaedb.Site.{Loader, Site, validate_secret_key}
use vaedb.Server.{Act, State, follow, lift}
use vaedb.Server.Sites.{sites_key, find_site, put_site, load_site, get_site, reload_sites}

-- After a reload neither the site nor its staging twin is loaded, so that the next `getSite` reads the
-- feed anew; every other site stays loaded, unless the reload is of all.
pub lookup-reload_sites :
    (subdomain q : Bytes) (sites : List (Bytes × Site))
    → lookup Bytes-discrete q (reload_sites subdomain sites)
      ≡ ite (Bytes-discrete (subdomain ++ codes ".staging") q) none (
          ite
            (Bytes-discrete subdomain q)
            none
            (if eqb subdomain (codes "all") then none else lookup Bytes-discrete q sites))
unfolding reload_sites lookup
lookup-reload_sites subdomain q sites =
    lookup-erase Bytes-discrete (subdomain ++ codes ".staging") q _
    ∙ ap (λ o. ite (Bytes-discrete (subdomain ++ codes ".staging") q) none o)
        (lookup-erase Bytes-discrete subdomain q _
          ∙ ap (λ o. ite (Bytes-discrete subdomain q) none o) (all (eqb subdomain (codes "all"))))
  where
    all :
        (b : Bool)
        → lookup Bytes-discrete q (if b then [] else sites)
          ≡ (if b then none else lookup Bytes-discrete q sites)
    all true = refl
    all false = refl

validates-true :
    (loader : Loader) (site : Site) (secret_key : Bytes) (b : Bool)
    → validate_secret_key loader site secret_key ≡ done b
    → validate_secret_key loader site secret_key ≡ done true
unfolding validate_secret_key
validates-true loader site secret_key b h = ground arith

module _ (loader : Loader) {Session Db Mc : Type 0} where
  -- The secret key was accepted, the site is loaded under its key, and nothing else has changed.
  abbrev pub IsOpened :
      Bytes → Bytes → Bytes → State Session Db Mc → State Session Db Mc → Site → Type 0
  IsOpened key secret_key q s s' site =
      (validate_secret_key loader site secret_key ≡ done true)
      × (lookup Bytes-discrete key s'.sites ≡ some site)
      × (key ≢ q → lookup Bytes-discrete q s'.sites ≡ lookup Bytes-discrete q s.sites)
      × (s'.sessions ≡ s.sessions)

  old_site :
      (key secret_key q : Bytes) (s s' : State Session Db Mc) (old site : Site)
      → lookup Bytes-discrete key s.sites ≡ some old
      → (validate_secret_key loader old secret_key >>= λ ok. done old) ≡ done site
      → s ≡ s'
      → IsOpened key secret_key q s s' site
  old_site key secret_key q s s' old site e h same =
      let (b, v, eq) = >>=-eq-done (validate_secret_key loader old secret_key) _ h in
      let is : old ≡ site = done-injective eq in
      rw (← same, ← is) (validates-true loader old secret_key b v, e, λ n. refl, refl)

  loaded_site :
      (key secret_key q : Bytes) (s s' : State Session Db Mc) (new site : Site)
      → (validate_secret_key loader new secret_key >>= λ ok. done new) ≡ done site
      → put_site loader key new s ≡ s'
      → IsOpened key secret_key q s s' site
  loaded_site key secret_key q s s' new site h same =
      let (b, v, eq) = >>=-eq-done (validate_secret_key loader new secret_key) _ h in
      let is : new ≡ site = done-injective eq in
      let at = λ (p : Bytes). lookup-assign Bytes-discrete key p new s.sites in
      rw (← same, ← is)
        (
          validates-true loader new secret_key b v,
          at key ∙ if_pos (Bytes-discrete key key) refl _ _,
          λ n. at q ∙ if_neg (Bytes-discrete key q) n _ _,
          refl,
        )

  follow-new :
      (key secret_key q : Bytes) (s s' : State Session Db Mc) (o : Outcome Site) (site : Site)
      → (follow
          (follow o s (λ x t. (done x, put_site loader key x t))).0
          (follow o s (λ x t. (done x, put_site loader key x t))).1
          (λ x. lift (validate_secret_key loader x secret_key >>= λ ok. done x)))
        ≡ (done site, s')
      → IsOpened key secret_key q s s' site
  follow-new key secret_key q s s' (done new) site h =
      loaded_site key secret_key q s s' new site (ap (λ p. p.0) h) (ap (λ p. p.1) h)
  follow-new key secret_key q s s' (thrown e) site h = absurd (cc)
  follow-new key secret_key q s s' undefined site h = absurd (cc)

  find_site-none :
      (key secret_key : Bytes) (s : State Session Db Mc)
      → lookup Bytes-discrete key s.sites ≡ none
      → find_site loader key secret_key s ≡ (done none, s)
  unfolding find_site
  find_site-none key secret_key s e = rw (e, find_site) refl

  find_site-some :
      (key secret_key : Bytes) (s : State Session Db Mc) (old : Site)
      → lookup Bytes-discrete key s.sites ≡ some old
      → find_site loader key secret_key s
        ≡ (validate_secret_key loader old secret_key >>= λ ok. done (some old), s)
  unfolding find_site
  find_site-some key secret_key s old e = rw (e, find_site) refl

  follow-old :
      (key secret_key q : Bytes) (s s' : State Session Db Mc) (old site : Site) (o : Outcome Bool)
      (K : Option Site → Act (State Session Db Mc) Site)
      → lookup Bytes-discrete key s.sites ≡ some old
      → o ≡ validate_secret_key loader old secret_key
      → ((t : State Session Db Mc) → K (some old) t ≡ (done old, t))
      → follow (o >>= λ ok. done (some old)) s K ≡ (done site, s')
      → IsOpened key secret_key q s s' site
  follow-old key secret_key q s s' old site (done b) K e v k h =
      let both = sym (k s) ∙ h in
      old_site key secret_key q s s' old site e (rw (← v) (ap (λ p. p.0) both)) (ap (λ p. p.1) both)
  follow-old key secret_key q s s' old site (thrown x) K e v k h = absurd (cc)
  follow-old key secret_key q s s' old site undefined K e v k h = absurd (cc)

  -- A site that `getSite` returns has accepted the secret key, and it is the one that is loaded under
  -- its key afterwards. The other sites and the sessions are as before.
  pub get_site-IsOpened :
      (subdomain secret_key q : Bytes) (staging : Bool) (s s' : State Session Db Mc) (site : Site)
      → get_site loader subdomain secret_key staging s ≡ (done site, s')
      → IsOpened (sites_key subdomain staging) secret_key q s s' site
  unfolding get_site load_site
  get_site-IsOpened subdomain secret_key q staging s s' site h =
      let key : Bytes = sites_key subdomain staging in
      elim (Option-cases (lookup Bytes-discrete key s.sites)) [
        | inl e ↦
            follow-new key secret_key q s s' _ site (rw (find_site-none key secret_key s e) at h)
        | inr (old, e) ↦
            follow-old key secret_key q s s' old site (validate_secret_key loader old secret_key) _
              e refl (λ t. refl) (rw (find_site-some key secret_key s old e) at h)
      ]
