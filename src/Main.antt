-- ===== src/Main.antt =====
-- main.cpp and the levels of logger.h: the options of the command line and the environment, and whether the server
-- starts.
mod Tests
use vaedb.Common.{
  ℕ, ◌+◌, ◌≤◌, ◌≡◌, refl, Bool, true, false, Option, none, some, List, [], ◌∷◌, ◌++◌, Bytes, codes,
  eqb, leb, arith, Bool-cases, Option-cases, inl, inr, if◌then◌else◌,
}
use vaedb.Common.Int.{ℤ, pos, negsuc}

-- `LogLevel`, in the order of the enumeration.
pub data LogLevel : Type 0 where
  error_level warning_level info_level debug_level : LogLevel

unfoldable pub rank : LogLevel → ℕ
rank error_level = 0
rank warning_level = 1
rank info_level = 2
rank debug_level = 3

-- The macro `L`: a message above the display level is not written.
unfoldable pub is_written : LogLevel → LogLevel → Bool
is_written level display = leb (rank level) (rank display)

-- The option `log_level`: the display level, and whether there is a warning of an invalid name.
unfoldable pub named_level : Bytes → Option LogLevel
named_level name =
    if eqb name (codes "error")
    then some error_level
    else (if eqb name (codes "warning")
        then some warning_level
        else (if eqb name (codes "info")
            then some info_level
            else (if eqb name (codes "debug") then some debug_level else none)))

unfoldable pub set_level : Option Bytes → LogLevel → LogLevel × Bool
set_level none display = (display, false)
set_level (some name) display = elim (named_level name) [
  | some level ↦ (level, false)
  | none ↦ (display, true)
]

-- `getenv`, and the options that boost::program_options finds on the command line: those with a text, those with a
-- number, and whether an option without a value is there.
pub record Invocation : Type 0 where
  pub getenv : Bytes → Option Bytes
  pub given : Bytes → Option Bytes
  pub given_int : Bytes → Option ℤ
  pub has : Bytes → Bool

-- What the server is started with.
pub record Config : Type 0 where
  pub test_mode : Bool
  pub display_level : LogLevel
  pub port : ℤ
  pub workers : ℤ
  pub bus_bindaddress : Bytes
  pub aws_access_key : Bytes
  pub aws_secret_key : Bytes
  pub aws_bucket : Bytes
  pub feed_cache_path : Bytes
  pub mysql_username : Bytes
  pub mysql_password : Bytes
  pub mysql_database : Bytes
  pub mysql_host : Bytes
  pub memcached_host : Bytes
  pub query_log : Option Bytes

unfoldable pub or_default {ℓ} : {A : Type ℓ} → Option A → A → A
or_default none d = d
or_default (some a) d = a

module _ (call : Invocation) where
  open call use {getenv, given, given_int, has}

  -- An option of the command line, the environment, or a text that is built in.
  unfoldable pub setting : Bytes → Bytes → Bytes → Bytes
  setting option variable built_in =
      or_default (given option) (or_default (getenv variable) built_in)

  -- `opens` is whether the file of the query log can be written.
  unfoldable pub query_log_of : (Bytes → Bool) → Option Bytes
  query_log_of opens = elim (given (codes "query_log")) [
    | none ↦ none
    | some file ↦ if opens file then some file else none
  ]

  unfoldable pub config : (Bytes → Bool) → Config
  config opens = record {
    test_mode = has (codes "test");
    display_level = (set_level (given (codes "log_level")) info_level).0;
    port = or_default (given_int (codes "port")) (pos 9094);
    workers = or_default (given_int (codes "workers")) (pos 128);
    bus_bindaddress = or_default (given (codes "busaddress")) (codes "tcp://*:5091");
    aws_access_key = setting (codes "aws_access_key") (codes "AWS_ACCESS_KEY") [];
    aws_secret_key = setting (codes "aws_secret_key") (codes "AWS_SECRET_KEY") [];
    aws_bucket = setting (codes "aws_bucket") (codes "AWS_BUCKET_PRIVATE") [];
    feed_cache_path = or_default (given (codes "feed_cache_path")) (codes "/tmp");
    mysql_username = setting (codes "mysql_username") (codes "MYSQL_USERNAME") (codes "root");
    mysql_password = setting (codes "mysql_password") (codes "MYSQL_PASSWORD") [];
    mysql_database = setting (codes "mysql_database") (codes "MYSQL_DATABASE") (codes "vaedb");
    mysql_host = setting (codes "mysql_host") (codes "MYSQL_HOST") (codes "localhost");
    memcached_host = setting (codes "memcached_host") (codes "MEMCACHED_HOST") (codes "127.0.0.1");
    query_log = query_log_of opens;
  }

  -- What `main` comes to: it returns a code, or it starts the server with a configuration.
  pub data Ending : Type 0 where
    returns : ℤ → Ending
    starts : Config → Ending

  -- `s3_ready` is what `initialize_s3` returns for the two keys, the bucket and the path.
  unfoldable pub main_ending : (Bytes → Bool) → (Bytes → Bytes → Bytes → Bytes → Bool) → Ending
  main_ending opens s3_ready =
      let c = config opens in
      if has (codes "help")
      then returns (pos 1)
      else (if s3_ready c.aws_access_key c.aws_secret_key c.aws_bucket c.feed_cache_path
          then starts c
          else returns (negsuc 0))

  -- Without `help` and with S3 ready the server starts, and which messages it writes is decided by the level
  -- alone that is named on the command line: those of this level and of the more serious ones. If no level
  -- is named, or one that is not known, errors, warnings and infos are written.
  pub main_ending-written :
      (opens : Bytes → Bool) (s3_ready : Bytes → Bytes → Bytes → Bytes → Bool) (level : LogLevel)
      → has (codes "help") ≡ false
      → s3_ready
          (setting (codes "aws_access_key") (codes "AWS_ACCESS_KEY") [])
          (setting (codes "aws_secret_key") (codes "AWS_SECRET_KEY") [])
          (setting (codes "aws_bucket") (codes "AWS_BUCKET_PRIVATE") [])
          (or_default (given (codes "feed_cache_path")) (codes "/tmp"))
        ≡ true
      → (c : Config) × (main_ending opens s3_ready ≡ starts c)
        × (is_written level c.display_level
            ≡ leb (rank level) (elim (given (codes "log_level")) as (λ _. ℕ) [
              | none ↦ 2
              | some name ↦ elim (named_level name) as (λ _. ℕ) [ none ↦ 2 | some l ↦ rank l ]
            ]))
  unfolding main_ending config is_written set_level rank
  main_ending-written opens s3_ready level no_help ready = (
    config opens,
    rw (no_help, ready) refl,
    elim (Option-cases (given (codes "log_level"))) [
      | inl e ↦ rw (e, set_level) refl
      | inr (name, e) ↦ elim (Option-cases (named_level name)) [
        | inl e' ↦ rw (e, set_level, e') refl
        | inr (l, e') ↦ rw (e, set_level, e') refl
      ]
    ],
  )
