-- ===== src/QueryLog/Tests.antt =====
-- Runs of the query log.
use vaedb.Common.{ℕ, ◌+◌, ◌≡◌, true, none, some, [], ◌∷◌, ◌++◌, Bytes, codes, any}
use vaedb.QueryLog.{QueryLog, value_rep, end_line}
use vaedb.QueryLog.Types.{
  LogValue, string_value, map_value, no_pairs, pair, rep_of, is_plain, rep_of-ends,
}
use vaedb.Common.Int.{ℤ}
use vaedb.Common.{Bytes}
use vaedb.QueryLog.Escape.{value_rep-ends}
use vaedb.QueryLog.Entry.{life, life-written, lines, head_lines}

value_rep-ends_run : value_rep 9 (b'a' ∷ b'"' ∷ []) ≡ none
unfolding any
value_rep-ends_run = value_rep-ends 8 (b'a' ∷ b'"' ∷ [])

plain_value : value_rep 1 (codes "abc") ≡ some (b'"' ∷ (codes "abc" ++ b'"' ∷ []))
unfolding any
plain_value = value_rep-ends 0 (codes "abc")

abbrev digit : ℕ → Bytes
digit n = (48 + n) ∷ []

abbrev log : QueryLog
log = record { is_logging = true; written = []; query_id = 3 }

life-written_run :
    ((life digit 0 (codes "ping") [] [] 7 log).written ≡ (
      (head_lines digit 3 (codes "ping") ++ lines digit [])
      ++ end_line digit 7 (record {
        id = 3;
        start_time = 0;
        sslog = [];
        subdomain = [];
        method_name = codes "ping";
      })))
    × ((life digit 0 (codes "ping") [] [] 7 log).query_id ≡ 4)
life-written_run = life-written digit 0 7 (codes "ping") [] [] log

-- A map with one pair, whose value has a double quote.
abbrev quoted_map : LogValue
quoted_map =
    map_value (pair (string_value (codes "paginate")) (string_value (b'a' ∷ b'"' ∷ [])) no_pairs)

abbrev show_one : ℤ → Bytes
show_one n = codes "1"

rep_of-ends_example : rep_of show_one 9 quoted_map ≡ none
unfolding any is_plain
rep_of-ends_example = rep_of-ends show_one 8 quoted_map
