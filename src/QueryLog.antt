-- ===== src/QueryLog.antt =====
-- query_log.h and query_log.cpp: the texts of values, and an entry of the log from its constructor to
-- its destructor.
pub mod Escape
pub mod Entry
pub mod Types
mod Tests
use vaedb.Common.{
  ℕ, zero, suc, ◌+◌, ◌*◌, ◌%◌, ◌^◌, Bool, true, false, Option, none, some, List, [], ◌∷◌, ◌++◌,
  Bytes, codes, length, take, drop, leb, is_empty, ◌==◌, if◌then◌else◌, ◌>>=◌,
}

-- `std::string::find` from the position `at` on, where `rest` is the text behind it.
unfoldable pub starts : Bytes → Bytes → Bool
starts [] s = true
starts (d ∷ search) [] = false
starts (d ∷ search) (c ∷ s) = if c == d then starts search s else false

unfoldable pub find_in : Bytes → Bytes → ℕ → Option ℕ
find_in search [] at = if is_empty search then some at else none
find_in search (c ∷ s) at = if starts search (c ∷ s) then some at else find_in search s (suc at)

unfoldable pub find : Bytes → Bytes → ℕ → Option ℕ
find str search loc = if leb loc (length str) then find_in search (drop loc str) loc else none

-- `std::string::replace`
unfoldable pub splice : Bytes → ℕ → ℕ → Bytes → Bytes
splice str loc n replacement = take loc str ++ (replacement ++ drop (loc + n) str)

-- `str_replace` of query_log.h from the position `loc` on, at most `fuel` rounds of its loop.
unfoldable pub replace_from : ℕ → Bytes → Bytes → Bytes → ℕ → Option Bytes
replace_from zero str search replacement loc = none
replace_from (suc fuel) str search replacement loc = elim (find str search loc) [
  | none ↦ some str
  | some at ↦
      replace_from fuel (splice str at (length search) replacement) search replacement (suc at)
]

-- `TypeHelper<std::string>::ValueRep`, with its two calls of `str_replace`.
unfoldable pub value_rep : ℕ → Bytes → Option Bytes
value_rep fuel val = replace_from fuel val (b'\\' ∷ []) (b'\\' ∷ b'\\' ∷ []) 0 >>= λ escaped.
    replace_from fuel escaped (b'"' ∷ []) (b'\\' ∷ b'"' ∷ []) 0 >>= λ quoted.
    some (b'"' ∷ (quoted ++ b'"' ∷ []))

-- `QueryLog`: whether there is a stream, what was written to it, and the counter.
pub record QueryLog : Type 0 where
  pub is_logging : Bool
  pub written : Bytes
  pub query_id : ℕ

pub record QueryLogEntry : Type 0 where
  pub id : ℕ
  pub start_time : ℕ
  pub sslog : Bytes
  pub subdomain : Bytes
  pub method_name : Bytes

-- Numbers are written by `show`.
module _ (show : ℕ → Bytes) where
  -- The constructor; `unsigned` wraps around.
  unfoldable pub new_entry : QueryLog → QueryLogEntry × QueryLog
  new_entry log = (
    record { id = log.query_id; start_time = 0; sslog = []; subdomain = []; method_name = [] },
    record log { query_id = (log.query_id + 1) % 2 ^ 32 },
  )

  unfoldable pub set_subdomain : Bytes → QueryLogEntry → QueryLogEntry
  set_subdomain subdomain entry = record entry { subdomain = subdomain }

  unfoldable pub method_call : QueryLog → ℕ → Bytes → QueryLogEntry → QueryLogEntry
  method_call log now method_name entry =
      if log.is_logging
      then record entry {
        method_name = method_name;
        sslog =
            entry.sslog
            ++ (codes "# begin query "
                ++ (show entry.id
                    ++ (10 ∷ (codes "method_call(" ++ (method_name ++ (codes "):" ++ 10 ∷ []))))));
        start_time = now;
      }
      else entry

  -- `operator<<`, given the name of the value's type and the text of the value.
  unfoldable pub put_value : QueryLog → Bytes → Bytes → QueryLogEntry → QueryLogEntry
  put_value log type_name rep entry =
      if log.is_logging
      then record entry {
        sslog = entry.sslog ++ (codes "  " ++ (type_name ++ (codes ":" ++ (rep ++ 10 ∷ []))));
      }
      else entry

  unfoldable pub flush : QueryLogEntry → QueryLog → QueryLogEntry × QueryLog
  flush entry log =
      if log.is_logging
      then (record entry { sslog = [] }, record log { written = log.written ++ entry.sslog })
      else (entry, log)

  unfoldable pub end_line : ℕ → QueryLogEntry → Bytes
  end_line micros entry =
      codes "# end "
      ++ (entry.method_name
          ++ (codes " query "
              ++ (show entry.id
                  ++ (codes " after "
                      ++ (show micros
                          ++ (codes " microseconds"
                              ++ ((if is_empty entry.subdomain
                                    then []
                                    else codes " for " ++ entry.subdomain)
                                  ++ (codes "." ++ (10 ∷ 10 ∷ [])))))))))

  -- The destructor, `micros` after the call of the method.
  unfoldable pub destroy : ℕ → QueryLogEntry → QueryLog → QueryLog
  destroy micros entry log =
      if log.is_logging
      then (flush (record entry { sslog = entry.sslog ++ end_line micros entry }) log).1
      else log
