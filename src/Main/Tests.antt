-- ===== src/Main/Tests.antt =====
-- Runs of main.cpp.
use vaedb.Common.{ℕ, ◌≡◌, refl, true, false, none, some, codes, eqb, leb, if◌then◌else◌}
use vaedb.Main.{
  debug_level, rank, is_written, named_level, Invocation, Config, or_default, setting, config,
  starts, main_ending, main_ending-written,
}

abbrev call : Invocation
call = record {
  getenv = λ name. if eqb name (codes "MYSQL_HOST") then some (codes "db1") else none;
  given = λ name. if eqb name (codes "log_level") then some (codes "loud") else none;
  given_int = λ name. none;
  has = λ name. false;
}

host_run : (config call (λ file. true)).mysql_host ≡ codes "db1"
unfolding config setting or_default eqb
host_run = refl

main_ending-written_example :
    (c : Config) × (main_ending call (λ file. true) (λ a b c d. true) ≡ starts c)
    × (is_written debug_level c.display_level
        ≡ leb (rank debug_level) (elim (call.given (codes "log_level")) as (λ _. ℕ) [
          | none ↦ 2
          | some name ↦ elim (named_level name) as (λ _. ℕ) [ none ↦ 2 | some l ↦ rank l ]
        ]))
main_ending-written_example =
    main_ending-written call (λ file. true) (λ a b c d. true) debug_level refl refl
