-- ===== src/Server/Tests.antt =====
-- Runs of the server on a small library of values, with the tables and the cache of the storage's runs.
use vaedb.Common.{
  ℕ, suc, ◌+◌, ◌≤◌, ◌<◌, ◌≡◌, ◌≢◌, refl, Bool, true, false, none, some, List, [], ◌∷◌, ◌++◌, Bytes,
  codes, eqb, length, get_elem?, if◌then◌else◌, ite, Bytes-discrete, any, Bool-cases, is_empty,
  ℕ_discrete, inl, inr, ap,
}
use vaedb.Common.Int.{ℤ, pos, negsuc, ℤ_discrete}
use vaedb.Common.Map.{lookup}
use vaedb.Common.Outcome.{Outcome, done, thrown, undefined, std_exception, internal_error}
use vaedb.Json.{JsonLibrary}
use vaedb.Common.Map.{lookup, assign}
use vaedb.Xml.Cells.{content_of, first_text, text_of}
use vaedb.Context.Build.{
  read_id, read_type, read_permalink, unless_staging, read_attr, read_attrs, typed, made_of,
  descend, finish, register, new_context, placed, build_children, build_roots, is_association,
}
use vaedb.Context.Associations.{initialize_all}
use vaedb.Query.{
  run_raw_query, without_root, get_size, get_node, node_at, same_node, get_single_data,
}
use vaedb.Site.Samples.{sample_loader, sample_site}
use vaedb.Site.{
  Loader, Site, new_site, unloaded, load_xml_doc, load_feed, find_root, load_contexts,
  load_generation, validate_secret_key,
}
use vaedb.Site.Secrets.{validate_secret_key-empty}
use vaedb.Session.{ResponseClass, Session, response_at, session_get, element, parent_at}
use vaedb.Session.Responses.{session_get-adds, response_at-cases}
use vaedb.Storage.{proxy_get}
use vaedb.Storage.Model.{Tables, no_rows, kv_write, tables, tables_laws, cache, cache_laws}
use vaedb.Server.Sites.{get_site, sites_key, reload_sites, find_site}
use vaedb.Server.Reload.{IsOpened, get_site-IsOpened, lookup-reload_sites}
use vaedb.Server.Sessions.{World, add_session, reap, close_session}
use vaedb.Server.Open.{add_session-adds, lookup-reap}
use vaedb.Server.Keys.{long_term_key, short_term_key, keys-apart, keys-shared}
use vaedb.Server.Handlers.{long_term_get, long_term_set, long_term_empty}
use vaedb.Server.Coherence.{long_term_get-set, long_term_get-stale}
use vaedb.Server.Process.{reading, ping, process, process_free, params_of}
use vaedb.Server.Dispatch.{process-never_throws, process-unknown_session, process-closed}

-- Values that are a number, a text, or the parameters of a request for a session.
data Value : Type 0 where
  nothing : Value
  int : ℤ → Value
  word : Bytes → Value
  request : ℤ → Value

abbrev value_at : Value → Bytes → Outcome Value
value_at (request id) name = if eqb name (codes "sessionId") then done (int id) else done nothing
value_at nothing name = thrown std_exception
value_at (int n) name = thrown std_exception
value_at (word t) name = thrown std_exception

abbrev is_nothing : Value → Bool
is_nothing nothing = true
is_nothing (int n) = false
is_nothing (word t) = false
is_nothing (request id) = false

abbrev to_int : Value → Outcome ℤ
to_int (int n) = done n
to_int nothing = thrown std_exception
to_int (word t) = thrown std_exception
to_int (request id) = thrown std_exception

abbrev to_text : Value → Outcome Bytes
to_text (word t) = done t
to_text nothing = thrown std_exception
to_text (int n) = thrown std_exception
to_text (request id) = thrown std_exception

-- A body stands for the session whose id is its length.
abbrev values : JsonLibrary
values = record {
  Json = Value;
  parse = λ body. done (request (pos (length body)));
  dump = λ v. codes "{}";
  at = value_at;
  is_null = is_nothing;
  get_int = to_int;
  get_text = to_text;
  get_map = λ v. thrown std_exception;
  empty = nothing;
  number = int;
  text = word;
  boolean = λ b. nothing;
  object = λ l. word (codes "{}");
  put = λ v name w. w;
}

-- Responses that are their queries.
abbrev queries : ResponseClass values Site
queries = record {
  Response = Bytes;
  new_info = λ site parent query. done query;
  new_query = λ site parent query options. done query;
  get_create_info = λ r. done (word r);
  get_data = λ r. done (word r);
  get_json = λ r. done (word r);
  get_structure = λ r. done (word r);
}

-- Keys that are split at each newline.
abbrev split_from : Bytes → Bytes → List Bytes
split_from part [] = part ∷ []
split_from part (c ∷ s) =
    if eqb (c ∷ []) (10 ∷ []) then part ∷ split_from [] s else split_from (part ++ c ∷ []) s

abbrev loader : Loader
loader = sample_loader (codes "sesame" ++ 10 ∷ []) (split_from [])

abbrev acme : Site
acme = sample_site (codes "acme") (codes "sesame" ∷ [] ∷ [])

acme-loads : new_site loader (codes "acme") false [] ≡ done acme
unfolding new_site unloaded load_xml_doc load_feed find_root load_contexts load_generation
    run_raw_query without_root get_size get_node node_at same_node get_single_data build_roots
    build_children new_context finish descend typed made_of register placed read_attrs read_attr
    read_id read_type read_permalink unless_staging content_of is_association initialize_all assign
    eqb first_text text_of ℕ_discrete
acme-loads = refl

split_from-newline :
    (part s : Bytes) → split_from part (s ++ 10 ∷ []) ≡ split_from part s ++ [] ∷ []
unfolding eqb
split_from-newline part [] = refl
split_from-newline part (c ∷ s) = elim (Bool-cases (eqb (c ∷ []) (10 ∷ []))) [
  | inl e ↦ rw e (ap (◌∷◌ part) (split_from-newline [] s))
  | inr e ↦ rw e (split_from-newline (part ++ c ∷ []) s)
]

validate_secret_key-empty_example : validate_secret_key loader acme [] ≡ done true
validate_secret_key-empty_example =
    validate_secret_key-empty loader (codes "acme") [] (codes "sesame") 10 false acme
      (split_from-newline []) refl refl acme-loads

abbrev Here : Type 0
Here = World values queries Tables (Bytes → Bytes)

abbrev own : Session values Site queries
own = record { site = acme; created_at = 100; responses = codes "/a" ∷ [] }

abbrev idle : Here
idle = record {
  sessions = (pos 5, own) ∷ [];
  sites = (codes "acme", acme) ∷ [];
  draws = pos 5 ∷ pos 9 ∷ [];
  clock = 130;
  db = no_rows;
  mc = λ k. [];
}

get_site-IsOpened_example :
    IsOpened loader (sites_key (codes "acme") false) (codes "sesame") (codes "zeta") idle idle acme
unfolding get_site find_site lookup validate_secret_key eqb sites_key Bytes-discrete any
get_site-IsOpened_example =
    get_site-IsOpened loader (codes "acme") (codes "sesame") (codes "zeta") false idle idle acme
      refl

lookup-reload_sites_run :
    lookup Bytes-discrete
      (codes "acme.staging")
      (reload_sites (codes "acme") ((codes "acme", acme) ∷ []))
    ≡ ite (Bytes-discrete (codes "acme" ++ codes ".staging") (codes "acme.staging")) none (
        ite (Bytes-discrete (codes "acme") (codes "acme.staging")) none (
          if eqb (codes "acme") (codes "all")
          then none
          else lookup Bytes-discrete (codes "acme.staging") ((codes "acme", acme) ∷ [])))
lookup-reload_sites_run =
    lookup-reload_sites (codes "acme") (codes "acme.staging") ((codes "acme", acme) ∷ [])

-- The id 5 is taken, and so is the first value of `rand`.
add_session-adds_example :
    (id : ℤ) × (s' : Here) × (add_session values queries Tables (Bytes → Bytes) acme (pos 5) idle
      ≡ (
        done (values.object ((codes "sessionId", int id) ∷ (codes "generation", int (pos 7)) ∷ [])),
        s',
      ))
    × (lookup ℤ_discrete id idle.sessions ≡ none)
    × (lookup ℤ_discrete (pos 5) idle.sessions ≡ none → id ≡ pos 5)
    × ((taken : Session values Site queries)
        → lookup ℤ_discrete (pos 5) idle.sessions ≡ some taken
        → (j : ℕ) × (get_elem? idle.draws j ≡ some id)
          × ((i : ℕ) (d : ℤ)
              → i < j
              → get_elem? idle.draws i ≡ some d
              → (other : Session values Site queries) × (lookup ℤ_discrete d idle.sessions
                  ≡ some other)))
    × ((q : ℤ)
        → lookup ℤ_discrete q s'.sessions
          ≡ ite
              (ℤ_discrete id q)
              (some (record { site = acme; created_at = 130; responses = [] }))
              (lookup ℤ_discrete q idle.sessions))
unfolding lookup ℤ_discrete ℕ_discrete
add_session-adds_example =
    add_session-adds values queries Tables (Bytes → Bytes) acme (pos 5) idle 1 (pos 9) refl refl

lookup-reap_run :
    (lookup ℤ_discrete (pos 5) (reap values queries 163 idle.sessions) ≡ some own → 163 ≤ 162)
    × (lookup ℤ_discrete (pos 5) idle.sessions ≡ some own
        → 163 ≤ 162
        → lookup ℤ_discrete (pos 5) (reap values queries 163 idle.sessions) ≡ some own)
lookup-reap_run = lookup-reap values queries 163 (pos 5) idle.sessions own

keys-apart_run :
    (short_term_key (codes "acme") (codes "k") ≢ long_term_key (codes "acme") (codes "j"))
    × (long_term_key (codes "acme") (codes "k") ≡ long_term_key (codes "acme") (codes "j")
        → codes "k" ≡ codes "j")
    × (short_term_key (codes "acme") (codes "k") ≡ short_term_key (codes "acme") (codes "j")
        → codes "k" ≡ codes "j")
keys-apart_run = keys-apart (codes "acme") (codes "k") (codes "j")

keys-shared_run :
    short_term_key (codes "acmeLongTerm2") (codes "k") ≡ long_term_key (codes "acme") (codes "k")
keys-shared_run = keys-shared (codes "acme") (codes "k")

long_term_get-set_example :
    (long_term_get values queries tables cache (codes "acme") (codes "k") (pos 0) (pos 1) (
      long_term_set values queries tables cache
        (codes "acme")
        (codes "k")
        (codes "v")
        (pos 30)
        (pos 0)
        idle)).0
    ≡ codes "v"
long_term_get-set_example =
    long_term_get-set values queries tables cache tables_laws cache_laws (codes "acme") (codes "k")
      (codes "v") (pos 30) (pos 0) (pos 0) (pos 1) idle
      (kv_write (codes "acme") (codes "k") none no_rows) _ refl refl refl refl

long_term_get-stale_example :
    (long_term_get values queries tables cache (codes "acme") (codes "k") (pos 0) (pos 1) (
      long_term_empty values queries tables cache
        (codes "acme")
        (record idle { mc = λ j. codes "v" }))).0
    ≡ codes "v"
unfolding is_empty proxy_get
long_term_get-stale_example =
    long_term_get-stale values queries tables cache (codes "acme") (codes "k") (codes "v") (pos 0)
      (pos 1) (record idle { mc = λ j. codes "v" }) refl refl refl

process-never_throws_run :
    ((process values queries tables cache loader reading (codes "x") idle).0 ≢ thrown std_exception)
    × ((process_free values queries tables cache loader ping (codes "x") idle).0
        ≢ thrown std_exception)
process-never_throws_run =
    process-never_throws values queries tables cache loader reading ping (codes "x") idle
      std_exception

process-unknown_session_run :
    process values queries tables cache loader reading (codes "x") idle
    ≡ (done (record { status = 400; content = codes "{error:'invalid session ID'}" }), idle)
unfolding lookup ℤ_discrete ℕ_discrete params_of is_empty eqb
process-unknown_session_run =
    process-unknown_session values queries tables cache loader reading (codes "x") (request (pos 1))
      (pos 1) idle (refl, (int (pos 1), refl, refl, refl)) refl

process-closed_example :
    process values queries tables cache loader reading
      (codes "12345")
      (close_session values queries Tables (Bytes → Bytes) (pos 5) own (request (pos 5)) idle).1
    ≡ (
      done (record { status = 400; content = codes "{error:'invalid session ID'}" }),
      (close_session values queries Tables (Bytes → Bytes) (pos 5) own (request (pos 5)) idle).1,
    )
unfolding params_of is_empty eqb
process-closed_example =
    process-closed values queries tables cache loader reading (codes "12345") (request (pos 5))
      (request (pos 5)) (pos 5) (pos 5) own idle (int (pos 5), refl, refl, refl)
      (refl, (int (pos 5), refl, refl, refl))

response_at-cases_example :
    ((n : ℕ)
      → n < length own.responses
      → (r : Bytes) × (get_elem? own.responses n ≡ some r)
        × (response_at values Site queries own (pos (suc n)) ≡ done r))
    × ((n : ℕ)
        → length own.responses ≤ n
        → response_at values Site queries own (pos (suc n))
          ≡ thrown (internal_error (codes "Invalid responseId")))
    × ((n : ℕ)
        → response_at values Site queries own (negsuc n)
          ≡ thrown (internal_error (codes "Invalid responseId")))
    × (response_at values Site queries own (pos 0) ≡ undefined)
response_at-cases_example = response_at-cases values Site queries own

abbrev longer : Session values Site queries
longer = record own { responses = codes "/a" ∷ codes "/b" ∷ [] }

session_get-adds_example :
    (r : Bytes) × (json_ : Value) × (done (word r) ≡ done json_)
    × (int (pos 2) ≡ int (pos (length own.responses + 1)))
    × (response_at values Site queries longer (pos 2) ≡ done r)
    × ((n : ℕ)
        → n < 1
        → response_at values Site queries longer (pos (suc n))
          ≡ response_at values Site queries own (pos (suc n)))
unfolding session_get parent_at element
session_get-adds_example =
    session_get-adds values Site queries own longer (pos 1) (codes "/b") [] (int (pos 2)) refl
