-- ===== src/Server/Sites.antt =====
-- `getSite`, `_getSite`, `_loadSite` and `reloadSite` of server.cpp, under the locks that they take.
use vaedb.Common.{
  Bool, Option, none, some, List, [], ◌++◌, Bytes, codes, eqb, Bytes-discrete, if◌then◌else◌,
}
use vaedb.Common.Map.{lookup, assign, erase}
use vaedb.Common.Outcome.{done, ◌>>=◌}
use vaedb.Site.{Loader, Site, new_site, validate_secret_key}
use vaedb.Server.{Act, State, ◌>>◌, lift, reads}

unfoldable pub sites_key : Bytes → Bool → Bytes
sites_key subdomain staging_mode = if staging_mode then subdomain ++ codes ".staging" else subdomain

module _ (loader : Loader) {Session Db Mc : Type 0} where
  open loader use {test_mode, read_s3}

  -- `_getSite`: the site of the key, if there is one that accepts the secret key.
  unfoldable pub find_site : Bytes → Bytes → Act (State Session Db Mc) (Option Site)
  find_site key secret_key = reads (λ s. elim (lookup Bytes-discrete key s.sites) [
    | none ↦ done none
    | some site ↦ validate_secret_key loader site secret_key >>= λ ok. done (some site)
  ])

  abbrev pub put_site : Bytes → Site → State Session Db Mc → State Session Db Mc
  put_site key site s = record s { sites = assign Bytes-discrete key site s.sites }

  -- `_loadSite`
  unfoldable pub load_site : Bytes → Bool → Bytes → Act (State Session Db Mc) Site
  load_site subdomain staging_mode xml =
      lift (new_site loader subdomain staging_mode xml) >> λ site s.
      (done site, put_site (sites_key subdomain staging_mode) site s)

  -- `getSite`: a site that is loaded stays loaded, also where its secret key is then refused.
  unfoldable pub get_site : Bytes → Bytes → Bool → Act (State Session Db Mc) Site
  get_site subdomain secret_key staging_mode =
      find_site (sites_key subdomain staging_mode) secret_key >> λ found. elim found [
        | some site ↦ lift (done site)
        | none ↦
            load_site subdomain staging_mode
              (if test_mode then [] else read_s3 (subdomain ++ codes "-feed.xml"))
            >> λ site. lift (validate_secret_key loader site secret_key >>= λ ok. done site)
      ]

-- `reloadSite`, which `Bus::run` calls for each message.
unfoldable pub reload_sites : Bytes → List (Bytes × Site) → List (Bytes × Site)
reload_sites subdomain sites =
    erase Bytes-discrete (subdomain ++ codes ".staging")
      (erase Bytes-discrete subdomain (if eqb subdomain (codes "all") then [] else sites))
