-- ===== src/Bus/Tests.antt =====
-- Runs of the bus.
use vaedb.Common.{
  ◌+◌, ◌≡◌, true, false, none, [], ◌∷◌, ◌++◌, codes, eqb, length, Bytes-discrete, ite,
  if◌then◌else◌,
}
use vaedb.Common.Map.{lookup}
use vaedb.Bus.{Bus, handle_message, running, run_thread, handle_message-threads, run_thread-again}

abbrev busy : Bus
busy = record {
  sites = [];
  threads =
      record { subdomain = codes "a"; is_ended = true }
      ∷ record { subdomain = codes "b"; is_ended = false }
      ∷ [];
}

handle_message-threads_example :
    length (handle_message (codes "c") busy).threads ≡ running busy.threads + 1
handle_message-threads_example = handle_message-threads (codes "c") busy

run_thread-again_example :
    (lookup Bytes-discrete
        (codes "a")
        (run_thread (codes "c") (handle_message (codes "c") busy)).sites
      ≡ lookup Bytes-discrete (codes "a") (handle_message (codes "c") busy).sites)
    × (lookup Bytes-discrete (codes "a") (handle_message (codes "c") busy).sites
        ≡ ite (Bytes-discrete (codes "c" ++ codes ".staging") (codes "a")) none (
            ite (Bytes-discrete (codes "c") (codes "a")) none (
              if eqb (codes "c") (codes "all")
              then none
              else lookup Bytes-discrete (codes "a") busy.sites)))
run_thread-again_example = run_thread-again (codes "c") (codes "a") busy
