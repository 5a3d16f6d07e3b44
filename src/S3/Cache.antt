-- ===== src/S3/Cache.antt =====
-- What `read_s3` of s3.cpp returns, and what it leaves on disk.
use vaedb.Common.{
  ◌≡◌, refl, sym, ap, ◌∙◌, Bool, true, false, Option, none, some, List, [], ◌∷◌, ◌++◌, Bytes,
  Bytes-discrete, append_assoc, append-nil, if_pos, arith, if◌then◌else◌,
}
use vaedb.Common.Map.{lookup, assign, erase, lookup-assign}
use vaedb.S3.{
  Callback, chunk, complete, Transfer, Disk, new_transfer, append_to, commit_buffer,
  response_complete, callbacks, finalize, get_value, read_s3,
}

-- The calls of a transfer: some parts of the object, and then its end.
abbrev pub transfer_of : List Bytes → Bool → Option Bytes → List Callback
transfer_of [] ok message = complete ok message ∷ []
transfer_of (part ∷ parts) ok message = chunk part ∷ transfer_of parts ok message

abbrev pub joined : List Bytes → Bytes
joined [] = []
joined (part ∷ parts) = part ++ joined parts

append_to-append :
    (o : Option Bytes) (a b : Bytes) → append_to (append_to o a) b ≡ append_to o (a ++ b)
append_to-append none a b = refl
append_to-append (some s) a b = ap some (append_assoc s a b)

append_to-nil : (o : Option Bytes) → append_to o [] ≡ o
append_to-nil none = refl
append_to-nil (some s) = ap some (append-nil s)

-- All parts are in the buffer and in the temporary file, and the transfer has failed if it says so.
callbacks-parts :
    (parts : List Bytes) (ok : Bool) (message : Option Bytes) (t : Transfer)
    → t.failed ≡ false
    → ((callbacks (transfer_of parts ok message) t).ss ≡ t.ss ++ joined parts)
      × ((callbacks (transfer_of parts ok message) t).tempfs ≡ append_to t.tempfs (joined parts))
      × ((callbacks (transfer_of parts ok message) t).failed ≡ (if ok then false else true))
unfolding callbacks commit_buffer response_complete
callbacks-parts [] true none t h = (sym (append-nil t.ss), sym (append_to-nil t.tempfs), h)
callbacks-parts [] true (some m) t h = (sym (append-nil t.ss), sym (append_to-nil t.tempfs), h)
callbacks-parts [] false none t h = (sym (append-nil t.ss), sym (append_to-nil t.tempfs), refl)
callbacks-parts [] false (some m) t h = (sym (append-nil t.ss), sym (append_to-nil t.tempfs), refl)
callbacks-parts (part ∷ parts) ok message t h =
    let ih = callbacks-parts parts ok message (commit_buffer part t) h in
    (
      ih.0 ∙ append_assoc t.ss part (joined parts),
      ih.1 ∙ append_to-append t.tempfs part (joined parts),
      ih.2,
    )

-- What the copies on disk have for a name.
abbrev pub cached : Option Bytes → Bytes
cached none = []
cached (some content) = content

get_ok :
    (name : Bytes) (t : Transfer) (disk : Disk) → t.failed ≡ false → get_value name t disk ≡ t.ss
unfolding get_value
get_ok name t disk h = ground arith

get_failed :
    (name : Bytes) (t : Transfer) (disk : Disk)
    → t.failed ≡ true
    → get_value name t disk ≡ cached (lookup Bytes-discrete name disk)
unfolding get_value
get_failed name t disk h = rw (h, get_value) (same (lookup Bytes-discrete name disk))
  where
    same : (o : Option Bytes) → elim o [ none ↦ [] | some content ↦ content ] ≡ cached o
    same none = refl
    same (some content) = refl

finalize_failed :
    (name : Bytes) (renames : Bool) (t : Transfer) (disk : Disk)
    → t.failed ≡ true
    → finalize name renames t disk ≡ disk
unfolding finalize
finalize_failed name renames t disk h = ground arith

finalize_ok :
    (name content : Bytes) (renames : Bool) (t : Transfer) (disk : Disk)
    → t.failed ≡ false
    → t.tempfs ≡ some content
    → renames ≡ true
    → lookup Bytes-discrete name (finalize name renames t disk) ≡ some content
unfolding finalize
finalize_ok name content renames t disk h o r =
    let moved : finalize name renames t disk
        ≡ assign Bytes-discrete name content (erase Bytes-discrete name disk) =
      ground arith in
    ap (lookup Bytes-discrete name) moved
    ∙ lookup-assign Bytes-discrete name name content (erase Bytes-discrete name disk)
    ∙ if_pos (Bytes-discrete name name) refl _ _

-- A transfer that succeeds yields the parts of the object in order. With its temporary file moved into
-- place, the copy on disk is the same text.
pub read_s3-joined :
    (name : Bytes) (parts : List Bytes) (message : Option Bytes) (opens renames : Bool)
    (disk : Disk)
    → ((read_s3 name opens (transfer_of parts true message) renames disk).0 ≡ joined parts)
      × (opens ≡ true
          → renames ≡ true
          → lookup Bytes-discrete name
              (read_s3 name opens (transfer_of parts true message) renames disk).1
            ≡ some (joined parts))
unfolding read_s3 new_transfer
read_s3-joined name parts message opens renames disk =
    let (all, file, ok) = callbacks-parts parts true message (new_transfer opens) refl in
    let t = callbacks (transfer_of parts true message) (new_transfer opens) in
    (
      get_ok name t _ ok ∙ all,
      λ o r.
          let opened : append_to (if opens then some [] else none) (joined parts)
              ≡ some (joined parts) =
            rw o refl in
          finalize_ok name (joined parts) renames t disk ok (file ∙ opened) r,
    )

-- A transfer that fails leaves the copies on disk alone and yields the copy of the object, or nothing
-- if there is none, whatever parts had come.
pub read_s3-failed :
    (name : Bytes) (parts : List Bytes) (message : Option Bytes) (opens renames : Bool)
    (disk : Disk)
    → read_s3 name opens (transfer_of parts false message) renames disk
      ≡ (cached (lookup Bytes-discrete name disk), disk)
unfolding read_s3 new_transfer
read_s3-failed name parts message opens renames disk =
    let (all, file, failed) = callbacks-parts parts false message (new_transfer opens) refl in
    let t = callbacks (transfer_of parts false message) (new_transfer opens) in
    rw (finalize_failed name renames t disk failed)
      (ap (λ (v : Bytes). (v, disk)) (get_failed name t disk failed))

-- While S3 is away, the last object that was fetched is served: a read that fails, after one that
-- succeeded and whose file was moved into place, yields what the first one did.
pub read_s3-again :
    (name : Bytes) (parts parts' : List Bytes) (message message' : Option Bytes)
    (opens' renames' : Bool) (disk : Disk)
    → (read_s3 name opens'
        (transfer_of parts' false message')
        renames'
        (read_s3 name true (transfer_of parts true message) true disk).1).0
      ≡ (read_s3 name true (transfer_of parts true message) true disk).0
read_s3-again name parts parts' message message' opens' renames' disk =
    let first = read_s3-joined name parts message true true disk in
    let kept = first.1 refl refl in
    ap (λ p. p.0)
      (read_s3-failed name parts' message' opens' renames'
        (read_s3 name true (transfer_of parts true message) true disk).1)
    ∙ ap cached kept
    ∙ sym first.0
