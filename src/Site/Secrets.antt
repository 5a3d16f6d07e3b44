-- ===== src/Site/Secrets.antt =====
-- Which secret keys `validateSecretKey` of site.cpp accepts.
use vaedb.Common.{
  ℕ, ◌≡◌, refl, sym, ap, ◌∙◌, Bool, true, false, List, [], ◌∷◌, ◌++◌, Bytes, codes, any, eqb,
  if◌then◌else◌, Option-cases, Bool-cases, inl, inr,
}
use vaedb.Common.Outcome.{done, >>=-eq-done, done-injective}
use vaedb.Site.{
  Feed, Loader, Site, find_root, load_contexts, load_generation, unloaded, load_xml_doc, load_feed,
  new_site, validate_secret_key, fails,
}

module _ (loader : Loader) where
  -- The feed changes no secret keys.
  load_feed-secret_keys :
      (feed : Feed) (before site : Site)
      → load_feed loader feed before ≡ done site
      → site.secret_keys ≡ before.secret_keys
  unfolding load_feed
  load_feed-secret_keys feed before site h =
      let (root, _, h1) = >>=-eq-done (find_root loader _ _ _ _) _ h in
      let (design, _, h2) = >>=-eq-done (find_root loader _ _ _ _) _ h1 in
      let ((s, left, g), _, h3) =
        >>=-eq-done (load_contexts loader feed root design before.staging_mode) _ h2 in
      let (generation, _, h4) = >>=-eq-done (load_generation loader feed root design) _ h3 in
      sym (ap (λ (x : Site). x.secret_keys) (done-injective h4))

  loaded_keys :
      (rawxml : Bytes) (before site : Site)
      → loader.test_mode ≡ false
      → load_xml_doc loader rawxml before ≡ done site
      → site.secret_keys ≡ before.secret_keys
  unfolding load_xml_doc
  loaded_keys rawxml before site t h = elim (Option-cases (loader.parse_memory rawxml)) [
    | inl e ↦
        let stops : fails (codes "Could not open/parse XML file") ≡ done site =
          rw (t, e, load_xml_doc) at h in
        absurd (cc)
    | inr (feed, e) ↦
        let goes = rw (t, e, load_xml_doc) at h in load_feed-secret_keys feed _ site goes
  ]

  -- The keys of a site are the parts of its object `<subdomain>-secret`.
  pub new_site-secret_keys :
      (subdomain rawxml : Bytes) (staging : Bool) (site : Site)
      → loader.test_mode ≡ false
      → new_site loader subdomain staging rawxml ≡ done site
      → site.secret_keys ≡ loader.split (loader.read_s3 (subdomain ++ codes "-secret"))
  unfolding new_site unloaded
  new_site-secret_keys subdomain rawxml staging site t h =
      loaded_keys rawxml (unloaded loader subdomain staging) site t h ∙ rw t refl

  any-append :
      (s : Bytes) (keys : List Bytes)
      → eqb s s ≡ true
      → any (λ key. eqb key s) (keys ++ s ∷ []) ≡ true
  unfolding any
  any-append s [] e = rw e refl
  any-append s (key ∷ keys) e = elim (Bool-cases (eqb key s)) [
    | inl k ↦ rw k refl
    | inr k ↦ rw k (any-append s keys e)
  ]

  -- A site whose object of secret keys ends in a separator, such as the newline at the end of a file,
  -- accepts the empty secret key, whatever the keys before it.
  pub validate_secret_key-empty :
      (subdomain rawxml keys : Bytes) (separator : ℕ) (staging : Bool) (site : Site)
      → ((s : Bytes) → loader.split (s ++ separator ∷ []) ≡ loader.split s ++ [] ∷ [])
      → loader.test_mode ≡ false
      → loader.read_s3 (subdomain ++ codes "-secret") ≡ keys ++ separator ∷ []
      → new_site loader subdomain staging rawxml ≡ done site
      → validate_secret_key loader site [] ≡ done true
  unfolding validate_secret_key eqb
  validate_secret_key-empty subdomain rawxml keys separator staging site law t r h =
      let parts : site.secret_keys ≡ loader.split keys ++ [] ∷ [] =
        new_site-secret_keys subdomain rawxml staging site t h ∙ ap loader.split r ∙ law keys in
      let found : any (λ key. eqb key []) site.secret_keys ≡ true =
        ap (any (λ key. eqb key [])) parts ∙ any-append [] (loader.split keys) refl in
      rw (t, validate_secret_key, found) refl

  -- In production a secret key is accepted exactly when it is one of the parts of the site's object.
  pub validate_secret_key-part :
      (subdomain rawxml secret_key : Bytes) (staging : Bool) (site : Site)
      → loader.test_mode ≡ false
      → new_site loader subdomain staging rawxml ≡ done site
      → validate_secret_key loader site secret_key ≡ (
          if any
            (λ key. eqb key secret_key)
            (loader.split (loader.read_s3 (subdomain ++ codes "-secret")))
          then done true
          else fails (codes "Secret Key Mismatch"))
  unfolding validate_secret_key
  validate_secret_key-part subdomain rawxml secret_key staging site t h =
      rw (t, validate_secret_key, new_site-secret_keys subdomain rawxml staging site t h) refl
