-- ===== src/S3.antt =====
-- s3.cpp: a transfer of an object, as libs3 drives it by its callbacks, with the copies on disk.
pub mod Cache
mod Tests
use vaedb.Common.{
  ℕ, Bool, true, false, Option, none, some, List, [], ◌∷◌, ◌++◌, Bytes, codes, Bytes-discrete,
  if◌then◌else◌,
}
use vaedb.Common.Map.{lookup, assign, erase}

-- The calls of `readObjectDataCallback` and of `responseCompleteCallback`, with whether the status is
-- `S3StatusOK` and the message of the error.
pub data Callback : Type 0 where
  chunk : Bytes → Callback
  complete : Bool → Option Bytes → Callback

-- `transfer`: the temporary file is there while `tempfs` is open.
pub record Transfer : Type 0 where
  pub failed : Bool
  pub tempfs : Option Bytes
  pub ss : Bytes
  pub error_message : Bytes

-- The cached objects by their names.
abbrev pub Disk : Type 0
Disk = List (Bytes × Bytes)

-- The constructor; the temporary file may not open.
unfoldable pub new_transfer : Bool → Transfer
new_transfer opens = record {
  failed = false;
  tempfs = if opens then some [] else none;
  ss = [];
  error_message = codes "unknown error.";
}

abbrev pub append_to : Option Bytes → Bytes → Option Bytes
append_to none bytes = none
append_to (some before) bytes = some (before ++ bytes)

unfoldable pub commit_buffer : Bytes → Transfer → Transfer
commit_buffer bfr t = record t { ss = t.ss ++ bfr; tempfs = append_to t.tempfs bfr }

unfoldable pub response_complete : Bool → Option Bytes → Transfer → Transfer
response_complete ok message t =
    let t' = if ok then t else record t { failed = true } in
    elim message [ none ↦ t' | some text ↦ record t' { error_message = text } ]

unfoldable pub callbacks : List Callback → Transfer → Transfer
callbacks [] t = t
callbacks (chunk bfr ∷ rest) t = callbacks rest (commit_buffer bfr t)
callbacks (complete ok message ∷ rest) t = callbacks rest (response_complete ok message t)

-- `finalize`: the old copy goes before the new one is moved into place, which may fail.
unfoldable pub finalize : Bytes → Bool → Transfer → Disk → Disk
finalize objectname renames t disk = elim t.tempfs [
  | none ↦ disk
  | some content ↦
      if t.failed
      then disk
      else (if renames
          then assign Bytes-discrete objectname content (erase Bytes-discrete objectname disk)
          else erase Bytes-discrete objectname disk)
]

unfoldable pub get_value : Bytes → Transfer → Disk → Bytes
get_value objectname t disk =
    if t.failed
    then elim (lookup Bytes-discrete objectname disk) [ none ↦ [] | some content ↦ content ]
    else t.ss

-- `read_s3`, given whether the temporary file opens, what `S3_get_object` calls, and whether the
-- rename succeeds.
unfoldable pub read_s3 : Bytes → Bool → List Callback → Bool → Disk → Bytes × Disk
read_s3 objectname opens calls renames disk =
    let t = callbacks calls (new_transfer opens) in
    let disk' = finalize objectname renames t disk in (get_value objectname t disk', disk')
