-- ===== src/QueryLog/Entry.antt =====
-- What an entry of query_log.cpp has written when it is destroyed.
use vaedb.Common.{
  ℕ, ◌+◌, ◌%◌, ◌^◌, ◌≡◌, refl, sym, ap, ◌∙◌, Bool, true, false, List, [], ◌∷◌, ◌++◌, Bytes, codes,
  append_assoc, append-nil, if◌then◌else◌, Bool-cases, inl, inr,
}
use vaedb.QueryLog.{
  QueryLog, QueryLogEntry, new_entry, set_subdomain, method_call, put_value, end_line, destroy,
  flush,
}

chosen_true : (x y : Bytes) (b : Bool) → b ≡ true → x ≡ (if b then x else y)
chosen_true x y true e = refl
chosen_true x y false e = absurd (cc)

chosen_false : (x y : Bytes) (b : Bool) → b ≡ false → y ≡ (if b then x else y)
chosen_false x y true e = absurd (cc)
chosen_false x y false e = refl

module _ (show : ℕ → Bytes) where
  -- The values that are put into an entry, one after the other.
  unfoldable pub put_all : QueryLog → List (Bytes × Bytes) → QueryLogEntry → QueryLogEntry
  put_all log [] entry = entry
  put_all log ((name, rep) ∷ values) entry = put_all log values (put_value show log name rep entry)

  -- The lines of the values.
  unfoldable pub lines : List (Bytes × Bytes) → Bytes
  lines [] = []
  lines ((name, rep) ∷ values) =
      (codes "  " ++ (name ++ (codes ":" ++ (rep ++ 10 ∷ [])))) ++ lines values

  put_all-lines :
      (log : QueryLog) (values : List (Bytes × Bytes)) (entry : QueryLogEntry)
      → log.is_logging ≡ true
      → put_all log values entry ≡ record entry { sslog = entry.sslog ++ lines values }
  unfolding put_all put_value lines
  put_all-lines log [] entry h =
      ap (λ (b : Bytes). record entry { sslog = b }) (sym (append-nil entry.sslog))
  put_all-lines log ((name, rep) ∷ values) entry h =
      let line : Bytes = codes "  " ++ (name ++ (codes ":" ++ (rep ++ 10 ∷ []))) in
      let one : put_value show log name rep entry ≡ record entry { sslog = entry.sslog ++ line } =
        rw (h, put_value) refl in
      rw one (
        put_all-lines log values (record entry { sslog = entry.sslog ++ line }) h
        ∙ ap (λ (b : Bytes). record entry { sslog = b })
            (append_assoc entry.sslog line (lines values)))

  -- An entry from its constructor to its destructor, with the values put in between.
  unfoldable pub life : ℕ → Bytes → Bytes → List (Bytes × Bytes) → ℕ → QueryLog → QueryLog
  life now method_name subdomain values micros log =
      let (entry, log1) = new_entry show log in
      let begun = method_call show log1 now method_name entry in
      destroy show micros (set_subdomain show subdomain (put_all log1 values begun)) log1

  -- The first two lines of an entry.
  unfoldable pub head_lines : ℕ → Bytes → Bytes
  head_lines id method_name =
      codes "# begin query "
      ++ (show id ++ (10 ∷ (codes "method_call(" ++ (method_name ++ (codes "):" ++ 10 ∷ [])))))

  destroy-on :
      (micros : ℕ) (entry : QueryLogEntry) (log : QueryLog)
      → log.is_logging ≡ true
      → destroy show micros entry log
        ≡ record log { written = log.written ++ (entry.sslog ++ end_line show micros entry) }
  unfolding destroy flush
  destroy-on micros entry log h = rw (h, destroy, flush) refl

  destroy-off :
      (micros : ℕ) (entry : QueryLogEntry) (log : QueryLog)
      → log.is_logging ≡ false
      → destroy show micros entry log ≡ log
  unfolding destroy
  destroy-off micros entry log h = rw (h, destroy) refl

  method_call-on :
      (log : QueryLog) (now : ℕ) (method_name : Bytes) (entry : QueryLogEntry)
      → log.is_logging ≡ true
      → method_call show log now method_name entry ≡ record entry {
        method_name = method_name;
        sslog = entry.sslog ++ head_lines entry.id method_name;
        start_time = now;
      }
  unfolding method_call head_lines
  method_call-on log now method_name entry h = rw (h, method_call) refl

  -- The last line reads the number, the method and the subdomain only.
  end_line-sslog :
      (micros : ℕ) (entry : QueryLogEntry) (b : Bytes)
      → end_line show micros (record entry { sslog = b }) ≡ end_line show micros entry
  unfolding end_line
  end_line-sslog micros entry b = refl

  -- While there is a stream, an entry writes one block behind what is there: the number of the query
  -- and the method, a line for each value in order, and the last line; without a stream it writes
  -- nothing. The next entry has the next number, modulo 2 ^ 32.
  pub life-written :
      (now micros : ℕ) (method_name subdomain : Bytes) (values : List (Bytes × Bytes))
      (log : QueryLog)
      → ((life now method_name subdomain values micros log).written ≡ (
          if log.is_logging
          then log.written
            ++ ((head_lines log.query_id method_name ++ lines values)
                ++ end_line show micros (record {
                  id = log.query_id;
                  start_time = now;
                  sslog = [];
                  subdomain = subdomain;
                  method_name = method_name;
                }))
          else log.written))
        × ((life now method_name subdomain values micros log).query_id
            ≡ (log.query_id + 1) % 2 ^ 32)
  unfolding life new_entry set_subdomain
  life-written now micros method_name subdomain values log = elim (Bool-cases log.is_logging) [
    | inl on ↦
        let log1 : QueryLog = (new_entry show log).1 in
        let named : QueryLogEntry = record {
          id = log.query_id;
          start_time = now;
          sslog = head_lines log.query_id method_name;
          subdomain = [];
          method_name = method_name;
        } in
        let begun = method_call-on log1 now method_name (new_entry show log).0 on in
        let full = put_all-lines log1 values named on in
        let out =
          destroy-on micros
            (record named {
              subdomain = subdomain;
              sslog = head_lines log.query_id method_name ++ lines values;
            })
            log1 on in
        let filled : QueryLogEntry = record named { subdomain = subdomain; sslog = [] } in
        let block : Bytes = head_lines log.query_id method_name ++ lines values in
        let whole : life now method_name subdomain values micros log
            ≡ record log1 { written = log.written ++ (block ++ end_line show micros filled) } =
          ap (λ (e : QueryLogEntry). destroy show micros (record e { subdomain = subdomain }) log1)
            (ap (put_all log1 values) begun ∙ full)
          ∙ out
          ∙ ap (λ (l : Bytes). record log1 { written = log.written ++ (block ++ l) })
              (end_line-sslog micros filled block) in
        (
          ap (λ (l : QueryLog). l.written) whole ∙ chosen_true _ _ log.is_logging on,
          ap (λ (l : QueryLog). l.query_id) whole,
        )
    | inr off ↦
        let log1 : QueryLog = (new_entry show log).1 in
        let whole : life now method_name subdomain values micros log ≡ log1 =
          destroy-off micros _ log1 off in
        (
          ap (λ (l : QueryLog). l.written) whole ∙ chosen_false _ _ log.is_logging off,
          ap (λ (l : QueryLog). l.query_id) whole,
        )
  ]
