-- ===== src/Server/Sessions.antt =====
-- `openSession`, `closeSession`, `createInfo`, `data`, `get` and `structure` of server.cpp, and one
-- round of `Reaper::Run`.
use vaedb.Common.{
  ℕ, zero, suc, Bool, true, false, Option, none, some, List, [], ◌∷◌, Bytes, codes, if◌then◌else◌,
}
use vaedb.Common.Int.{ℤ, pos, negsuc, ℤ_discrete, ◌-ℤ◌, ltb_ℤ}
use vaedb.Common.Map.{lookup, assign, erase}
use vaedb.Common.Outcome.{Outcome, done, undefined, ◌>>=◌}
use vaedb.Json.{JsonLibrary, iparam, sparam}
use vaedb.Site.{Loader, Site}
use vaedb.Session.{ResponseClass, Session, create_info, session_data, session_get, structure}
use vaedb.Server.{Act, State, ◌>>◌, lift}
use vaedb.Server.Sites.{get_site}

-- The loop of `openSession`: an id that no session has, and what `rand` has left. It has no result
-- while every value drawn is taken.
unfoldable pub free_id {ℓ} : {V : Type ℓ} → (ℤ → Option V) → ℤ → List ℤ → Option (ℤ × List ℤ)
free_id find id [] = elim (find id) [ none ↦ some (id, []) | some v ↦ none ]
free_id find id (draw ∷ draws) =
    let rest = free_id find draw draws in
    elim (find id) [ none ↦ some (id, draw ∷ draws) | some v ↦ rest ]

-- `(now - createdAt) > SESSION_REAP_TIME`
unfoldable pub is_stale : ℕ → ℕ → Bool
is_stale now created_at = ltb_ℤ (pos 62) (pos now -ℤ pos created_at)

-- An int as a bool.
abbrev pub is_set : ℤ → Bool
is_set (pos zero) = false
is_set (pos (suc n)) = true
is_set (negsuc n) = true

module _ (library : JsonLibrary) (class : ResponseClass library Site) where
  open library use {Json, at, is_null, get_map, number, object}

  unfoldable pub reap :
      ℕ → List (ℤ × Session library Site class) → List (ℤ × Session library Site class)
  reap now [] = []
  reap now ((id, session) ∷ sessions) =
      if is_stale now session.created_at
      then reap now sessions
      else (id, session) ∷ reap now sessions

  module _ (Db Mc : Type 0) where
    abbrev pub World : Type 0
    World = State (Session library Site class) Db Mc

    -- The handler of an endpoint: the session and its id, and the parameters.
    abbrev pub Handler : Type 0
    Handler = ℤ → Session library Site class → Json → Act World Json

    -- A new session under an id that is free.
    unfoldable pub add_session : Site → ℤ → Act World Json
    add_session site suggested s =
        elim (free_id (λ id. lookup ℤ_discrete id s.sessions) suggested s.draws) [
          | none ↦ (undefined, s)
          | some (id, draws) ↦ (
            done (
                object (
                  (codes "sessionId", number id)
                  ∷ (codes "generation", number site.generation)
                  ∷ [])),
            record s {
              sessions =
                  assign ℤ_discrete id
                    (record { site = site; created_at = s.clock; responses = [] }) s.sessions;
              draws = draws;
            },
          )
        ]

    unfoldable pub open_session : Loader → Json → Act World Json
    open_session loader params = lift (sparam library params (codes "subdomain")) >> λ subdomain.
        lift (sparam library params (codes "secretKey")) >> λ secret_key.
        lift (iparam library params (codes "stagingMode")) >> λ staging_mode.
        lift (iparam library params (codes "suggestedSessionId")) >> λ suggested.
        get_site loader subdomain secret_key (is_set staging_mode) >> λ site.
        add_session site suggested

    unfoldable pub close_session : Handler
    close_session own_id own params = lift (iparam library params (codes "sessionId")) >> λ id s. (
      done (object ((codes "session", number id) ∷ [])),
      record s { sessions = erase ℤ_discrete id s.sessions },
    )

    unfoldable pub handle_create_info : Handler
    handle_create_info id session params = lift (sparam library params (codes "query")) >> λ query.
        lift (iparam library params (codes "responseId")) >> λ response_id.
        lift (create_info library Site class session response_id query)

    unfoldable pub handle_data : Handler
    handle_data id session params =
        lift (iparam library params (codes "responseId")) >> λ response_id.
        lift (session_data library Site class session response_id)

    unfoldable pub handle_structure : Handler
    handle_structure id session params =
        lift (iparam library params (codes "responseId")) >> λ response_id.
        lift (structure library Site class session response_id)

    unfoldable pub options_of : Json → Outcome (List (Bytes × Bytes))
    options_of params = at params (codes "options") >>= λ options.
        if is_null options then done [] else get_map options

    -- The session that the handler has is the one in `sessions`.
    unfoldable pub handle_get : Handler
    handle_get id session params = lift (sparam library params (codes "query")) >> λ query.
        lift (iparam library params (codes "responseId")) >> λ response_id.
        lift (options_of params) >> λ options.
        lift (session_get library Site class session response_id query options)
        >> λ (res, session') s.
            (done res, record s { sessions = assign ℤ_discrete id session' s.sessions })
