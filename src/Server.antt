-- ===== src/Server.antt =====
-- The state of server.cpp: its sessions and sites, with the storage behind it.
pub mod Sites
pub mod Reload
pub mod Sessions
pub mod Open
pub mod Handlers
pub mod Keys
pub mod Process
pub mod Dispatch
pub mod Coherence
pub mod Races
mod Tests
use vaedb.Common.{ℕ, List, Bytes}
use vaedb.Common.Int.{ℤ}
use vaedb.Common.Outcome.{Outcome, done, thrown, undefined}
use vaedb.Site.{Site}

-- A call that changes the state `S`: an exception leaves the changes made before it.
abbrev pub Act : Type 0 → Type 0 → Type 0
Act S A = S → Outcome A × S

module _ {S : Type 0} where
  abbrev pub follow : {A B : Type 0} → Outcome A → S → (A → Act S B) → Outcome B × S
  follow (done a) s f = f a s
  follow (thrown e) s f = (thrown e, s)
  follow undefined s f = (undefined, s)

  infixl 5 ◌>>◌
  abbrev pub ◌>>◌ : {A B : Type 0} → Act S A → (A → Act S B) → Act S B
  (m >> f) s = follow (m s).0 (m s).1 f

  abbrev pub lift : {A : Type 0} → Outcome A → Act S A
  lift o s = (o, s)

  abbrev pub reads : {A : Type 0} → (S → Outcome A) → Act S A
  reads f s = (f s, s)

-- `sessions`, `sites`, the values that `rand` will return, the time, and the servers of the storage.
pub record State (Session Db Mc : Type 0) : Type 0 where
  pub sessions : List (ℤ × Session)
  pub sites : List (Bytes × Site)
  pub draws : List ℤ
  pub clock : ℕ
  pub db : Db
  pub mc : Mc
