-- ===== src/Storage/Sessions.antt =====
-- The session cache of mysql_proxy.cpp, in a table whose primary key is the session's id alone.
use vaedb.Common.{◌≡◌, refl, inl, inr, false, some, List, [], ◌∷◌, Bytes, Option-cases}
use vaedb.Common.Int.{pos}
use vaedb.Storage.{Database, session_cache_get, session_cache_set}
use vaedb.Storage.Laws.{MysqlLaws}

module _ (database : Database) (laws : MysqlLaws database) where
  open laws use {same, same_refl, row, select_session_law, delete_session_law, insert_session_law}

  get-row :
      (subdomain id owner v out : Bytes) (db : database.Db)
      → row db id ≡ some (owner, v)
      → same owner subdomain ≡ false
      → session_cache_get database subdomain id db ≡ []
  unfolding session_cache_get
  get-row subdomain id owner v out db e other =
      elim (Option-cases (database.select_session db id subdomain)) [
        | inl fails ↦ rw (fails, session_cache_get) refl
        | inr (rows, found) ↦
            let empty : rows ≡ [] =
              rw (e, other) at (select_session_law db id subdomain rows found) in
            rw (found, session_cache_get, empty) refl
      ]

  -- A session id that another site has in the table: what this site writes under it is lost without an
  -- error, whichever statements fail, and the row of the other site stays.
  pub session_cache_set-lost :
      (subdomain id owner v w : Bytes) (db : database.Db)
      → row db id ≡ some (owner, w)
      → same owner subdomain ≡ false
      → (session_cache_get database subdomain id (session_cache_set database subdomain id v db)
          ≡ [])
        × (row (session_cache_set database subdomain id v db) id ≡ some (owner, w))
  unfolding session_cache_set
  session_cache_set-lost subdomain id owner v w db e other =
      elim (Option-cases (database.delete_session db id subdomain)) [
        | inl fails ↦ rw (fails, session_cache_set) (get-row subdomain id owner w [] db e other, e)
        | inr (db1, deleted) ↦
            let kept : row db1 id ≡ some (owner, w) =
              rw (e, other) at (delete_session_law db db1 id subdomain deleted) in
            elim (Option-cases (database.insert_session db1 id subdomain v (pos 172800))) [
              | inl fails ↦
                  rw (deleted, session_cache_set, fails)
                    (get-row subdomain id owner w [] db1 kept other, kept)
              | inr (db2, inserted) ↦
                  let law = insert_session_law db1 db2 id subdomain v (pos 172800) inserted in
                  let free_ = law.0 in absurd (cc)
            ]
      ]

  -- What a site stores under a session id is read back, when none of the statements fails.
  pub session_cache_get-set :
      (subdomain id v : Bytes) (db db1 db2 : database.Db) (rows : List Bytes)
      → database.delete_session db id subdomain ≡ some db1
      → database.insert_session db1 id subdomain v (pos 172800) ≡ some db2
      → database.select_session db2 id subdomain ≡ some rows
      → session_cache_get database subdomain id (session_cache_set database subdomain id v db) ≡ v
  unfolding session_cache_set session_cache_get
  session_cache_get-set subdomain id v db db1 db2 rows d i q =
      let law = insert_session_law db1 db2 id subdomain v (pos 172800) i in
      let one : rows ≡ v ∷ [] =
        rw (law.1, same_refl subdomain) at (select_session_law db2 id subdomain rows q) in
      rw (d, session_cache_set, i, q, session_cache_get, one) refl
