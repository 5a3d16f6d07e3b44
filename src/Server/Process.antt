-- ===== src/Server/Process.antt =====
-- `process` of server.cpp with the two tables of endpoints that `start` fills.
use vaedb.Common.{ℕ, none, some, [], ◌∷◌, Bytes, codes, is_empty, if◌then◌else◌}
use vaedb.Common.Int.{ℤ_discrete}
use vaedb.Common.Map.{lookup}
use vaedb.Common.Outcome.{
  Outcome, done, thrown, undefined, Error, query_error, internal_error, std_exception,
  unknown_exception,
}
use vaedb.Json.{JsonLibrary}
use vaedb.Site.{Loader, Site}
use vaedb.Session.{ResponseClass}
use vaedb.Storage.{Database, Memcached}
use vaedb.Server.{Act, ◌>>◌, lift}
use vaedb.Server.Sessions.{
  open_session, close_session, handle_create_info, handle_data, handle_get, handle_structure,
}
use vaedb.Server.Handlers.{
  Stored, Call, short_term_cache_get, short_term_cache_set, short_term_cache_delete,
  handle_session_cache_get, handle_session_cache_set, handle_session_cache_delete,
  handle_long_term_cache_get, handle_long_term_cache_set, handle_long_term_cache_delete,
  handle_long_term_cache_empty, handle_long_term_cache_sweeper_info, sitewide_lock, sitewide_unlock,
}

-- `nonSessionEndpoints` and `sessionEndpoints`
pub data FreeEndpoint : Type 0 where
  ping opening : FreeEndpoint

pub data Endpoint : Type 0 where
  closing creating reading getting structuring : Endpoint
  long_get long_set long_delete long_empty long_sweep : Endpoint
  own_get own_set own_delete : Endpoint
  short_get short_set short_delete : Endpoint
  locking unlocking : Endpoint

-- The status and the body of an answer.
pub record Reply : Type 0 where
  pub status : ℕ
  pub content : Bytes

module _ (library : JsonLibrary) (class : ResponseClass library Site) (database : Database)
    (memcached : Memcached) (loader : Loader) where
  open library use {Json, parse, dump, at, is_null, get_int, empty, text, object}

  unfoldable pub handler : Endpoint → Call library class database memcached
  handler closing = close_session library class database.Db memcached.Mc
  handler creating = handle_create_info library class database.Db memcached.Mc
  handler reading = handle_data library class database.Db memcached.Mc
  handler getting = handle_get library class database.Db memcached.Mc
  handler structuring = handle_structure library class database.Db memcached.Mc
  handler long_get = handle_long_term_cache_get library class database memcached
  handler long_set = handle_long_term_cache_set library class database memcached
  handler long_delete = handle_long_term_cache_delete library class database memcached
  handler long_empty = handle_long_term_cache_empty library class database memcached
  handler long_sweep = handle_long_term_cache_sweeper_info library class database memcached
  handler own_get = handle_session_cache_get library class database memcached
  handler own_set = handle_session_cache_set library class database memcached
  handler own_delete = handle_session_cache_delete library class database memcached
  handler short_get = short_term_cache_get library class database memcached
  handler short_set = short_term_cache_set library class database memcached
  handler short_delete = short_term_cache_delete library class database memcached
  handler locking = sitewide_lock library class database memcached
  handler unlocking = sitewide_unlock library class database memcached

  unfoldable pub free_handler :
      FreeEndpoint → Json → Act (Stored library class database memcached) Json
  free_handler ping params = lift (done (object ((codes "ping", text (codes "pong")) ∷ [])))
  free_handler opening params = open_session library class database.Db memcached.Mc loader params

  abbrev pub refusal : Bytes → Outcome Reply
  refusal what = done (record { status = 400; content = what })

  unfoldable pub written : Json → Outcome Reply
  written json_ = done (record { status = 200; content = if is_null json_ then [] else dump json_ })

  -- The `catch` clauses.
  unfoldable pub caught : Error → Reply
  caught (query_error what) = record {
    status = 400;
    content = dump (object ((codes "VaedbQueryError", text what) ∷ []));
  }
  caught (internal_error what) = record {
    status = 500;
    content = dump (object ((codes "VaedbInternalError", text what) ∷ []));
  }
  caught std_exception = record { status = 500; content = codes "{error:'error'}" }
  caught unknown_exception = record { status = 500; content = codes "{error:'error'}" }

  unfoldable pub catch_all : Outcome Reply → Outcome Reply
  catch_all (done reply) = done reply
  catch_all (thrown e) = done (caught e)
  catch_all undefined = undefined

  unfoldable pub params_of : Bytes → Outcome Json
  params_of body = if is_empty body then done empty else parse body

  abbrev pub World_ : Type 0
  World_ = Stored library class database memcached

  -- With the session that the request names, or a refusal.
  unfoldable pub with_session : Endpoint → Json → Act World_ Reply
  with_session endpoint params = lift (at params (codes "sessionId")) >> λ value.
      if is_null value
      then lift (refusal (codes "{error:'missing session ID'}"))
      else (lift (get_int value) >> λ id s. elim (lookup ℤ_discrete id s.sessions) [
        | none ↦ (refusal (codes "{error:'invalid session ID'}"), s)
        | some session ↦ (handler endpoint id session params >> λ json_. lift (written json_)) s
      ])

  unfoldable pub process : Endpoint → Bytes → Act World_ Reply
  process endpoint body s =
      let (reply, s') = (lift (params_of body) >> λ params. with_session endpoint params) s in
      (catch_all reply, s')

  unfoldable pub process_free : FreeEndpoint → Bytes → Act World_ Reply
  process_free endpoint body s =
      let (reply, s') =
        (lift (params_of body) >> λ params.
        free_handler endpoint params >> λ json_. lift (written json_))
          s in
      (catch_all reply, s')
