-- ===== src/Storage/Laws.antt =====
-- What the code relies on from MySQL with the tables of db/schema.sql, and from memcached.
use vaedb.Common.{
  ◌≡◌, ◌⊎◌, Bool, true, false, Option, none, some, List, [], ◌∷◌, map, Bytes, if◌then◌else◌,
}
use vaedb.Common.Int.{ℤ}
use vaedb.Storage.{Database, Memcached}

abbrev pub both : Bool → Bool → Bool
both a b = if a then b else false

abbrev pub as_rows {ℓ} : {A : Type ℓ} → Option A → List A
as_rows none = []
as_rows (some a) = a ∷ []

-- The tables, and how the statements change them. `same` is the equality of the tables' collation.
pub record MysqlLaws (database : Database) : Type 0 where
  pub same : Bytes → Bytes → Bool
  pub same_refl : (s : Bytes) → same s s ≡ true
  -- kvstore: the primary key is (subdomain, k).
  pub stored : database.Db → Bytes → Bytes → Option Bytes
  pub select_kv_law :
      (db : database.Db) (k subdomain : Bytes) (rows : List (Bytes × ℤ))
      → database.select_kv db k subdomain ≡ some rows
      → map (λ row. row.0) rows ≡ as_rows (stored db subdomain k)
  pub update_kv_law :
      (db db' : database.Db) (days : ℤ) (k subdomain t j : Bytes)
      → database.update_kv db days k subdomain ≡ some db'
      → stored db' t j ≡ stored db t j
  pub delete_kv_law :
      (db db' : database.Db) (subdomain k t j : Bytes)
      → database.delete_kv db subdomain k ≡ some db'
      → stored db' t j ≡ (if both (same subdomain t) (same k j) then none else stored db t j)
  pub insert_kv_law :
      (db db' : database.Db) (k subdomain v : Bytes) (days is_filename : ℤ) (t j : Bytes)
      → database.insert_kv db k subdomain v days is_filename ≡ some db'
      → stored db' t j ≡ (if both (same subdomain t) (same k j) then some v else stored db t j)
  pub empty_kv_law :
      (db db' : database.Db) (subdomain t j : Bytes)
      → database.empty_kv db subdomain ≡ some db'
      → stored db' t j ≡ (if same subdomain t then none else stored db t j)
  -- session_data: the primary key is `id` alone. The owner and the data of a row.
  pub row : database.Db → Bytes → Option (Bytes × Bytes)
  pub select_session_law :
      (db : database.Db) (id subdomain : Bytes) (rows : List Bytes)
      → database.select_session db id subdomain ≡ some rows
      → rows ≡ elim (row db id) [
        | none ↦ []
        | some (owner, v) ↦ if same owner subdomain then v ∷ [] else []
      ]
  pub delete_session_law :
      (db db' : database.Db) (id subdomain : Bytes)
      → database.delete_session db id subdomain ≡ some db'
      → row db' id ≡ elim (row db id) [
        | none ↦ none
        | some (owner, v) ↦ if same owner subdomain then none else some (owner, v)
      ]
  pub insert_session_law :
      (db db' : database.Db) (id subdomain v : Bytes) (seconds : ℤ)
      → database.insert_session db id subdomain v seconds ≡ some db'
      → (row db id ≡ none) × (row db' id ≡ some (subdomain, v))
  -- locks: the unique key is `subdomain`.
  pub locked : database.Db → Bytes → Bool
  -- whether the row was created more than a minute ago
  pub old : database.Db → Bytes → Bool
  pub insert_lock_law :
      (db db' : database.Db) (s t : Bytes)
      → database.insert_lock db s ≡ some db'
      → (locked db s ≡ false) × (locked db' t ≡ (if same s t then true else locked db t))
  pub delete_lock_law :
      (db db' : database.Db) (s t : Bytes)
      → database.delete_lock db s ≡ some db'
      → locked db' t ≡ (if same s t then false else locked db t)
  pub delete_old_locks_law :
      (db db' : database.Db) (t : Bytes)
      → database.delete_old_locks db ≡ some db'
      → locked db' t ≡ (if old db t then false else locked db t)

-- memcached may forget a key at any time, so that a `get` then finds nothing.
pub record MemcachedLaws (memcached : Memcached) : Type 0 where
  pub get_set_law :
      (mc mc' : memcached.Mc) (k v : Bytes) (expire flags : ℤ) (bytes : Bytes)
      → memcached.mc_set mc k v expire flags ≡ some mc'
      → memcached.mc_get mc' k ≡ some bytes
      → (bytes ≡ []) ⊎ (bytes ≡ v)
  pub get_remove_law :
      (mc mc' : memcached.Mc) (k bytes : Bytes)
      → memcached.mc_remove mc k ≡ some mc'
      → memcached.mc_get mc' k ≡ some bytes
      → bytes ≡ []
