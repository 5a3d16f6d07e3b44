-- ===== src/Server/Dispatch.antt =====
-- How `process` of server.cpp answers.
use vaedb.Common.{◌≡◌, ◌≢◌, refl, ◌∙◌, false, none, [], ◌∷◌, Bytes, codes, if_pos}
use vaedb.Common.Int.{ℤ, ℤ_discrete}
use vaedb.Common.Map.{lookup, erase, lookup-erase}
use vaedb.Common.Outcome.{Outcome, done, thrown, undefined, Error}
use vaedb.Json.{JsonLibrary, iparam}
use vaedb.Site.{Loader, Site}
use vaedb.Session.{ResponseClass, Session}
use vaedb.Storage.{Database, Memcached}
use vaedb.Server.Sessions.{close_session}
use vaedb.Server.Handlers.{Stored}
use vaedb.Server.Process.{
  Endpoint, FreeEndpoint, Reply, catch_all, params_of, with_session, process, process_free,
}

module _ (library : JsonLibrary) (class : ResponseClass library Site) (database : Database)
    (memcached : Memcached) (loader : Loader) where
  open library use {Json, parse, at, is_null, get_int}

  catch_all-never_throws :
      (o : Outcome Reply) (e : Error)
      → catch_all library class database memcached loader o ≢ thrown e
  unfolding catch_all
  catch_all-never_throws (done r) e h = cc
  catch_all-never_throws (thrown x) e h = cc
  catch_all-never_throws undefined e h = cc

  -- No exception leaves `process`, whatever the request and the endpoint.
  pub process-never_throws :
      (endpoint : Endpoint) (free : FreeEndpoint) (body : Bytes)
      (s : Stored library class database memcached) (e : Error)
      → ((process library class database memcached loader endpoint body s).0 ≢ thrown e)
        × ((process_free library class database memcached loader free body s).0 ≢ thrown e)
  unfolding process process_free
  process-never_throws endpoint free body s e =
      (catch_all-never_throws _ e, catch_all-never_throws _ e)

  -- The session id that parameters hold.
  abbrev pub HoldsId : Json → ℤ → Type 0
  HoldsId params id =
      (value : Json) × (at params (codes "sessionId") ≡ done value)
      × (is_null value ≡ false)
      × (get_int value ≡ done id)

  -- The parameters of a request, and the session id that they hold.
  abbrev pub Names : Bytes → Json → ℤ → Type 0
  Names body params id =
      (params_of library class database memcached loader body ≡ done params) × HoldsId params id

  -- A request for a session that the server does not have is refused with status 400, and no handler
  -- runs: the state is what it was.
  pub process-unknown_session :
      (endpoint : Endpoint) (body : Bytes) (params : Json) (id : ℤ)
      (s : Stored library class database memcached)
      → Names body params id
      → lookup ℤ_discrete id s.sessions ≡ none
      → process library class database memcached loader endpoint body s
        ≡ (done (record { status = 400; content = codes "{error:'invalid session ID'}" }), s)
  unfolding process with_session catch_all lookup
  process-unknown_session endpoint body params id s (p, (value, a, n, g)) l =
      rw (p, process, a, with_session, n, g, l) refl

  -- After `closeSession` has closed a session, the next request for any endpoint with a session, whatever its
  -- other parameters are, is refused with status 400 if it names that session, and changes nothing.
  pub process-closed :
      (endpoint : Endpoint) (body : Bytes) (closing params : Json) (own_id : ℤ) (id : ℤ)
      (own : Session library Site class) (s : Stored library class database memcached)
      → HoldsId closing id
      → Names body params id
      → let s' = (close_session library class database.Db memcached.Mc own_id own closing s).1 in
        process library class database memcached loader endpoint body s'
        ≡ (done (record { status = 400; content = codes "{error:'invalid session ID'}" }), s')
  unfolding close_session iparam
  process-closed endpoint body closing params own_id id own s (value, a, n, g) names =
      let closed : close_session library class database.Db memcached.Mc own_id own closing s ≡ (
        done (library.object ((codes "session", library.number id) ∷ [])),
        record s { sessions = erase ℤ_discrete id s.sessions },
      ) =
        rw (a, close_session, iparam, n, g) refl in
      rw closed (
        process-unknown_session endpoint body params id _ names
          (lookup-erase ℤ_discrete id id s.sessions ∙ if_pos (ℤ_discrete id id) refl _ _))
