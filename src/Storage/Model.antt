-- ===== src/Storage/Model.antt =====
-- A database and a memcached that keep their laws and never fail, for the runs of the storage.
use vaedb.Common.{
  ◌≡◌, inr, refl, sym, ◌∙◌, Bool, true, false, Option, none, some, List, [], ◌∷◌, map, Bytes, eqb,
  eqb_refl, if◌then◌else◌,
}
use vaedb.Common.Int.{ℤ, pos}
use vaedb.Storage.{Database, Memcached}
use vaedb.Storage.Laws.{MysqlLaws, MemcachedLaws, both, as_rows}

-- The tables as functions of their keys.
pub record Tables : Type 0 where
  pub kv : Bytes → Bytes → Option Bytes
  pub row : Bytes → Option (Bytes × Bytes)
  pub locked : Bytes → Bool
  pub old : Bytes → Bool

abbrev pub no_rows : Tables
no_rows = record { kv = λ s k. none; row = λ k. none; locked = λ s. false; old = λ s. false }

abbrev pub kv_write : Bytes → Bytes → Option Bytes → Tables → Tables
kv_write s k o db = record db { kv = λ t j. if both (eqb s t) (eqb k j) then o else db.kv t j }

abbrev pub with_days : List Bytes → List (Bytes × ℤ)
with_days [] = []
with_days (v ∷ vs) = (v, pos 30) ∷ with_days vs

map-with_days : (o : Option Bytes) → map (λ row. row.0) (with_days (as_rows o)) ≡ as_rows o
map-with_days none = refl
map-with_days (some v) = refl

abbrev pub owned : Bytes → Option (Bytes × Bytes) → List Bytes
owned s none = []
owned s (some (owner, v)) = if eqb owner s then v ∷ [] else []

abbrev pub disowned : Bytes → Option (Bytes × Bytes) → Option (Bytes × Bytes)
disowned s none = none
disowned s (some (owner, v)) = if eqb owner s then none else some (owner, v)

abbrev pub row_write : Bytes → Option (Bytes × Bytes) → Tables → Tables
row_write k o db = record db { row = λ j. if eqb k j then o else db.row j }

abbrev pub new_row : Option (Bytes × Bytes) → Bytes → Bytes → Bytes → Tables → Option Tables
new_row none k s v db = some (row_write k (some (s, v)) db)
new_row (some r) k s v db = none

abbrev pub tables : Database
tables = record {
  Db = Tables;
  select_kv = λ db k s. some (with_days (as_rows (db.kv s k)));
  update_kv = λ db days k s. some db;
  delete_kv = λ db s k. some (kv_write s k none db);
  insert_kv = λ db k s v days f. some (kv_write s k (some v) db);
  empty_kv = λ db s. some (record db { kv = λ t j. if eqb s t then none else db.kv t j });
  delete_expired_kv = λ db s. some db;
  select_files = λ db s. some [];
  select_session = λ db k s. some (owned s (db.row k));
  delete_session = λ db k s. some (row_write k (disowned s (db.row k)) db);
  insert_session = λ db k s v n. new_row (db.row k) k s v db;
  delete_expired_sessions = λ db. some db;
  insert_lock = λ db s.
      if db.locked s
      then none
      else some (record db { locked = λ t. if eqb s t then true else db.locked t });
  delete_old_locks =
      λ db. some (record db { locked = λ t. if db.old t then false else db.locked t });
  delete_lock = λ db s. some (record db { locked = λ t. if eqb s t then false else db.locked t });
}

pub some-eq : {A : Type 0} {a b : A} → some a ≡ some b → a ≡ b
some-eq h = cc

pub tables-select_session :
    (o : Option (Bytes × Bytes)) (s : Bytes)
    → owned s o ≡ elim o [ none ↦ [] | some (owner, v) ↦ if eqb owner s then v ∷ [] else [] ]
tables-select_session none s = refl
tables-select_session (some (owner, v)) s = refl

pub tables-delete_session :
    (o : Option (Bytes × Bytes)) (s : Bytes)
    → disowned s o
      ≡ elim o [ none ↦ none | some (owner, v) ↦ if eqb owner s then none else some (owner, v) ]
tables-delete_session none s = refl
tables-delete_session (some (owner, v)) s = refl

pub written-row :
    (k : Bytes) (o : Option (Bytes × Bytes)) (db : Tables) → (row_write k o db).row k ≡ o
written-row k o db = rw (eqb_refl k) refl

pub new_row-law :
    (o : Option (Bytes × Bytes)) (k s v : Bytes) (db db' : Tables)
    → new_row o k s v db ≡ some db'
    → (o ≡ none) × (db'.row k ≡ some (s, v))
new_row-law none k s v db db' h =
    let e : row_write k (some (s, v)) db ≡ db' = some-eq h in
    (refl, rw (← e) (written-row k (some (s, v)) db))
new_row-law (some r) k s v db db' h = absurd (cc)

pub lock-law :
    (b : Bool) (s t : Bytes) (db db' : Tables)
    → (if b then none else some (record db { locked = λ t. if eqb s t then true else db.locked t }))
      ≡ some db'
    → (b ≡ false) × (db'.locked t ≡ (if eqb s t then true else db.locked t))
lock-law true s t db db' h = absurd (cc)
lock-law false s t db db' h =
    let e : record db { locked = λ t. if eqb s t then true else db.locked t } ≡ db' = some-eq h in
    (refl, rw (← e) refl)

pub tables-select_kv :
    (db : Tables) (k s : Bytes) (rows : List (Bytes × ℤ))
    → some (with_days (as_rows (db.kv s k))) ≡ some rows
    → map (λ row. row.0) rows ≡ as_rows (db.kv s k)
tables-select_kv db k s rows h =
    let e : with_days (as_rows (db.kv s k)) ≡ rows = some-eq h in
    rw (← e) (map-with_days (db.kv s k))

pub kv_at : {db db' : Tables} (t j : Bytes) → some db ≡ some db' → db'.kv t j ≡ db.kv t j
kv_at t j h = let e = some-eq h in rw e refl

pub row_at : {db db' : Tables} (j : Bytes) → some db ≡ some db' → db'.row j ≡ db.row j
row_at j h = let e = some-eq h in rw e refl

pub locked_at : {db db' : Tables} (t : Bytes) → some db ≡ some db' → db'.locked t ≡ db.locked t
locked_at t h = let e = some-eq h in rw e refl

abbrev pub tables_laws : MysqlLaws tables
tables_laws = record {
  same = eqb;
  same_refl = eqb_refl;
  stored = λ db s k. db.kv s k;
  select_kv_law = tables-select_kv;
  update_kv_law = λ db db' days k s t j h. kv_at t j h;
  delete_kv_law = λ db db' s k t j h. kv_at t j h;
  insert_kv_law = λ db db' k s v days f t j h. kv_at t j h;
  empty_kv_law = λ db db' s t j h. kv_at t j h;
  row = λ db k. db.row k;
  select_session_law =
      λ db k s rows h. let e = some-eq h in rw (← e) (tables-select_session (db.row k) s);
  delete_session_law = λ db db' k s h.
      row_at k h ∙ written-row k (disowned s (db.row k)) db ∙ tables-delete_session (db.row k) s;
  insert_session_law = λ db db' k s v n h. new_row-law (db.row k) k s v db db' h;
  locked = λ db s. db.locked s;
  insert_lock_law = λ db db' s t h. lock-law (db.locked s) s t db db' h;
  delete_lock_law = λ db db' s t h. locked_at t h;
  old = λ db s. db.old s;
  delete_old_locks_law = λ db db' t h. locked_at t h;
}

-- The memcached as a function of its keys.
abbrev pub cache : Memcached
cache = record {
  Mc = Bytes → Bytes;
  mc_get = λ mc k. some (mc k);
  mc_set = λ mc k v expire flags. some (λ j. if eqb k j then v else mc j);
  mc_remove = λ mc k. some (λ j. if eqb k j then [] else mc j);
}

pub put_at :
    (k v : Bytes) (mc mc' : Bytes → Bytes) (bytes : Bytes)
    → some (λ (j : Bytes). if eqb k j then v else mc j) ≡ some mc'
    → some (mc' k) ≡ some bytes
    → bytes ≡ v
put_at k v mc mc' bytes h g =
    let e = some-eq h in
    let at : mc' k ≡ bytes = some-eq g in
    let now : mc' k ≡ v = rw (← e) (rw (eqb_refl k) refl) in sym at ∙ now

abbrev pub cache_laws : MemcachedLaws cache
cache_laws = record {
  get_set_law = λ mc mc' k v expire flags bytes h g. inr (put_at k v mc mc' bytes h g);
  get_remove_law = λ mc mc' k bytes h g. put_at k [] mc mc' bytes h g;
}
