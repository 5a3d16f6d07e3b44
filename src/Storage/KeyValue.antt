-- ===== src/Storage/KeyValue.antt =====
-- The long-term cache of mysql_proxy.cpp.
use vaedb.Common.{
  ◌≡◌, refl, sym, ap, ◌∙◌, inl, inr, Bool, true, false, Option, none, some, List, [], ◌∷◌, map,
  Bytes, if◌then◌else◌, subst, Option-cases,
}
use vaedb.Common.Int.{ℤ, pos, ltb_ℤ}
use vaedb.Storage.{
  Database, get_loop, long_term_cache_get, long_term_cache_set, long_term_cache_empty,
}
use vaedb.Storage.Laws.{MysqlLaws, both, as_rows}

abbrev pub is_none {ℓ} : {A : Type ℓ} → Option A → Bool
is_none none = true
is_none (some a) = false

module _ (database : Database) (laws : MysqlLaws database) where
  open laws use {
    same, same_refl, stored, select_kv_law, update_kv_law, delete_kv_law, insert_kv_law,
    empty_kv_law,
  }

  same_row : (s k : Bytes) → both (same s s) (same k k) ≡ true
  same_row s k = rw (same_refl s, same_refl k) refl

  -- What a read yields for a stored value, or for none.
  abbrev pub value_of : Option Bytes → Bytes
  value_of none = []
  value_of (some v) = v

  -- A read yields `v` and leaves every stored value as it was.
  abbrev pub Reads : database.Db → Bytes → Bytes × database.Db → Type 0
  Reads db v result = (result.0 ≡ v) × ((t j : Bytes) → stored result.1 t j ≡ stored db t j)

  get_loop-Reads :
      (s k : Bytes) (r : ℤ) (db : database.Db) (row : Bytes × ℤ)
      → Reads db (row.0) (get_loop database s k r db (row ∷ []) [])
  unfolding get_loop
  get_loop-Reads s k r db (v, days) =
      let due : Bool = if ltb_ℤ (pos 0) r then ltb_ℤ days (pos 10) else false in
      decide (if due then database.update_kv db r k s else some db) (renewed due)
    where
      renewed :
          (b : Bool) (db' : database.Db)
          → (if b then database.update_kv db r k s else some db) ≡ some db'
          → (t j : Bytes) → stored db' t j ≡ stored db t j
      renewed true db' e t j = update_kv_law db db' r k s t j e
      renewed false db' e t j = let same_db : db ≡ db' = cc in ap (λ d. stored d t j) (sym same_db)

      decide :
          (o : Option database.Db)
          → ((db' : database.Db) → o ≡ some db' → (t j : Bytes) → stored db' t j ≡ stored db t j)
          → Reads db v (elim o [ none ↦ (v, db) | some db' ↦ (v, db') ])
      decide none h = (refl, λ t j. refl)
      decide (some db') h = (refl, h db' refl)

  -- A read of the long-term cache yields the stored value, or nothing where there is none or where the
  -- `SELECT` fails, and changes no stored value, whether or not it renews the expiry and whether or not
  -- that succeeds.
  pub long_term_cache_get-Reads :
      (s k : Bytes) (r : ℤ) (db : database.Db)
      → Reads db
          (if is_none (database.select_kv db k s) then [] else value_of (stored db s k))
          (long_term_cache_get database s k r db)
  unfolding long_term_cache_get get_loop
  long_term_cache_get-Reads s k r db = elim (Option-cases (database.select_kv db k s)) [
    | inl e ↦ rw (e, long_term_cache_get) (refl, λ t j. refl)
    | inr (rows, e) ↦
        rw (e, long_term_cache_get) (of_rows rows (stored db s k) (select_kv_law db k s rows e))
  ]
    where
      of_rows :
          (rows : List (Bytes × ℤ)) (o : Option Bytes)
          → map (λ row. row.0) rows ≡ as_rows o
          → Reads db (value_of o) (get_loop database s k r db rows [])
      of_rows [] none h = (refl, λ t j. refl)
      of_rows [] (some v) h = absurd (cc)
      of_rows (row ∷ rows) none h = absurd (cc)
      of_rows (row ∷ []) (some v) h =
          let first : row.0 ≡ v = cc in
          subst (λ w. Reads db w (get_loop database s k r db (row ∷ []) [])) first
            (get_loop-Reads s k r db row)
      of_rows (row ∷ row' ∷ rows) (some v) h = absurd (cc)

  -- The values behind a write: `o` at the rows of the key, everything else as before.
  abbrev pub Wrote : Bytes → Bytes → Option Bytes → database.Db → database.Db → Type 0
  Wrote s k o db db' =
      (t j : Bytes) → stored db' t j ≡ (if both (same s t) (same k j) then o else stored db t j)

  -- What a write does once its `DELETE` has gone through: if the `INSERT` fails the old value of the
  -- key is gone, and otherwise the key has the new value. No other key changes.
  pub long_term_cache_set-Wrote :
      (s k v : Bytes) (days is_filename : ℤ) (db db1 : database.Db)
      → database.delete_kv db s k ≡ some db1
      → Wrote s k
          (if is_none (database.insert_kv db1 k s v days is_filename) then none else some v)
          db
          (long_term_cache_set database s k v days is_filename db)
  unfolding long_term_cache_set
  long_term_cache_set-Wrote s k v days is_filename db db1 e t j =
      elim (Option-cases (database.insert_kv db1 k s v days is_filename)) [
        | inl fails ↦ rw (e, long_term_cache_set, fails) (delete_kv_law db db1 s k t j e)
        | inr (db2, i) ↦
            rw (e, long_term_cache_set, i)
              (insert_kv_law db1 db2 k s v days is_filename t j i
                ∙ ap (λ o. if both (same s t) (same k j) then some v else o)
                    (delete_kv_law db db1 s k t j e)
                ∙ twice (both (same s t) (same k j)))
      ]
    where
      twice :
          (b : Bool)
          → (if b then some v else (if b then none else stored db t j))
            ≡ (if b then some v else stored db t j)
      twice true = refl
      twice false = refl

  -- A value that was set is read back, for a key and a subdomain that the collation does not tell
  -- apart from those of the write, when none of the statements fails.
  pub long_term_cache_get-set :
      (s k t j v : Bytes) (days is_filename r : ℤ) (db db1 : database.Db)
      → database.delete_kv db s k ≡ some db1
      → is_none (database.insert_kv db1 k s v days is_filename) ≡ false
      → is_none (database.select_kv (long_term_cache_set database s k v days is_filename db) j t)
        ≡ false
      → both (same s t) (same k j) ≡ true
      → (long_term_cache_get database t j r
          (long_term_cache_set database s k v days is_filename db)).0
        ≡ v
  long_term_cache_get-set s k t j v days is_filename r db db1 d i q e =
      let db' = long_term_cache_set database s k v days is_filename db in
      let wrote = long_term_cache_set-Wrote s k v days is_filename db db1 d t j in
      let reads = long_term_cache_get-Reads t j r db' in
      let found : stored db' t j ≡ some v = rw (e, i) at wrote in (rw (q, found) at reads.0)

  -- After the cache of a subdomain is emptied without error, each read of it yields nothing, and the
  -- other subdomains keep their values.
  pub long_term_cache_get-empty :
      (s t j : Bytes) (r : ℤ) (db db1 : database.Db)
      → database.empty_kv db s ≡ some db1
      → ((same s t ≡ true
            → (long_term_cache_get database t j r (long_term_cache_empty database s db)).0 ≡ [])
          × (same s t ≡ false → stored (long_term_cache_empty database s db) t j ≡ stored db t j))
  unfolding long_term_cache_empty
  long_term_cache_get-empty s t j r db db1 e =
      let gone = empty_kv_law db db1 s t j e in
      rw (e, long_term_cache_empty)
        (
          λ m.
              let none_left : stored db1 t j ≡ none = rw m at gone in
              let reads = long_term_cache_get-Reads t j r db1 in
              nothing (is_none (database.select_kv db1 j t)) (rw none_left at reads.0),
          λ m. rw m at gone,
        )
    where
      nothing : (b : Bool) {out : Bytes} → out ≡ (if b then [] else []) → out ≡ []
      nothing true h = h
      nothing false h = h
