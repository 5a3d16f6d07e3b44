-- ===== src/Storage/Locks.antt =====
-- The locks of mysql_proxy.cpp.
use vaedb.Common.{arith, ◌≡◌, refl, ◌∙◌, inl, inr, true, false, Bytes, if◌then◌else◌, Option-cases}
use vaedb.Common.Int.{pos}
use vaedb.Storage.{Database, lock, unlock, or_same}
use vaedb.Storage.Laws.{MysqlLaws}

module _ (database : Database) (laws : MysqlLaws database) where
  open laws use {
    same, same_refl, locked, old, insert_lock_law, delete_lock_law, delete_old_locks_law,
  }

  -- A lock that is held is refused. The refusal gives no lock to anybody: at most it removes old ones.
  pub lock-refused :
      (s t : Bytes) (db : database.Db)
      → locked db s ≡ true
      → ((lock database s db).0 ≡ pos 0)
        × (locked (lock database s db).1 t ≡ true → locked db t ≡ true)
  unfolding lock
  lock-refused s t db h = elim (Option-cases (database.insert_lock db s)) [
    | inl refused ↦ rw (refused, lock) (refl, purge)
    | inr (db1, e) ↦ let law = insert_lock_law db db1 s t e in let was = law.0 in absurd (cc)
  ]
    where
      purge : locked (or_same db (database.delete_old_locks db)) t ≡ true → locked db t ≡ true
      purge = elim (Option-cases (database.delete_old_locks db)) [
        | inl e ↦ rw e (λ l. l)
        | inr (db1, e) ↦
            rw e (λ l. let law = delete_old_locks_law db db1 t e in ground (arith, law, l))
      ]

  -- What may happen while the lock `s` is not given back: calls of `lock` for any name, of which a refused one
  -- meets `s` before it is a minute old, calls of `unlock` for other names, and whatever leaves the locks as they
  -- are, such as time.
  pub data Unreleased (s : Bytes) : database.Db → database.Db → Type 0 where
    begins : {db : database.Db} → Unreleased s db db
    locks :
        {db db1 : database.Db} (t : Bytes)
        → Unreleased s db db1
        → ((lock database t db1).0 ≡ pos 0 → old db1 s ≡ false)
        → Unreleased s db (lock database t db1).1
    unlocks :
        {db db1 : database.Db} (t : Bytes)
        → Unreleased s db db1
        → same t s ≡ false
        → Unreleased s db (unlock database t db1).1
    passes :
        {db db1 : database.Db} (db2 : database.Db)
        → Unreleased s db db1
        → locked db2 s ≡ locked db1 s
        → Unreleased s db db2

  lock-keeps :
      (s t : Bytes) (db : database.Db)
      → locked db s ≡ true
      → ((lock database t db).0 ≡ pos 0 → old db s ≡ false)
      → locked (lock database t db).1 s ≡ true
  unfolding lock
  lock-keeps s t db held young = elim (Option-cases (database.insert_lock db t)) [
    | inr (db1, e) ↦
        let law = insert_lock_law db db1 t s e in rw (e, lock) (ground (arith, law.1, held))
    | inl refused ↦
        let answer : (lock database t db).0 ≡ pos 0 = rw (refused, lock) refl in
        let not_old = young answer in
        rw (refused, lock)
          (elim (Option-cases (database.delete_old_locks db)) [
            | inl e ↦ rw e held
            | inr (db1, e) ↦
                let law = delete_old_locks_law db db1 s e in
                rw e (ground (arith, law, not_old, held))
          ])
  ]

  unlock-keeps :
      (s t : Bytes) (db : database.Db)
      → same t s ≡ false
      → locked db s ≡ true
      → locked (unlock database t db).1 s ≡ true
  unfolding unlock
  unlock-keeps s t db other held = elim (Option-cases (database.delete_lock db t)) [
    | inl fails ↦ rw (fails, unlock) held
    | inr (db1, e) ↦
        let law = delete_lock_law db db1 t s e in rw (e, unlock) (ground (arith, law, other, held))
  ]

  Unreleased-locked :
      (s : Bytes) {db db' : database.Db}
      → Unreleased s db db'
      → locked db s ≡ true
      → locked db' s ≡ true
  Unreleased-locked s begins held = held
  Unreleased-locked s (locks t run young) held =
      lock-keeps s t _ (Unreleased-locked s run held) young
  Unreleased-locked s (unlocks t run other) held =
      unlock-keeps s t _ other (Unreleased-locked s run held)
  Unreleased-locked s (passes db2 run same_) held = same_ ∙ Unreleased-locked s run held

  -- Mutual exclusion: after a call of `lock` has answered 1, every later call for the same name answers 0, as long
  -- as no call of `unlock` names it, no call of `lock` for any name was refused when the lock was older than a minute,
  -- and nothing but these calls changes the lock.
  pub lock-exclusive :
      (s : Bytes) (db db' : database.Db)
      → (lock database s db).0 ≡ pos 1
      → Unreleased s (lock database s db).1 db'
      → (lock database s db').0 ≡ pos 0
  unfolding lock
  lock-exclusive s db db' h run = elim (Option-cases (database.insert_lock db s)) [
    | inl refused ↦ let zero_ : pos 0 ≡ pos 1 = rw (refused, lock) at h in absurd (cc)
    | inr (db1, e) ↦
        let law = insert_lock_law db db1 s s e in
        let held : locked db1 s ≡ true = rw (same_refl s) at law.1 in
        let first : lock database s db ≡ (pos 1, db1) = rw (e, lock) refl in
        let after : locked (lock database s db).1 s ≡ true = rw first held in
        (lock-refused s s db' (Unreleased-locked s run after)).0
  ]

  -- A lock that was given back is not held, and the locks of other names are as before.
  pub unlock-releases :
      (s t : Bytes) (db : database.Db)
      → (unlock database s db).0 ≡ pos 1
      → locked (unlock database s db).1 t ≡ (if same s t then false else locked db t)
  unfolding unlock
  unlock-releases s t db h = elim (Option-cases (database.delete_lock db s)) [
    | inl fails ↦ let zero_ : pos 0 ≡ pos 1 = rw (fails, unlock) at h in absurd (cc)
    | inr (db1, e) ↦ rw (e, unlock) (delete_lock_law db db1 s t e)
  ]
