-- ===== src/S3/Tests.antt =====
-- Runs of transfers.
use vaedb.Common.{◌≡◌, true, false, none, some, List, [], ◌∷◌, Bytes, codes, Bytes-discrete}
use vaedb.Common.Map.{lookup}
use vaedb.S3.{read_s3}
use vaedb.S3.Cache.{transfer_of, cached, read_s3-joined, read_s3-failed, read_s3-again}

abbrev parts : List Bytes
parts = codes "<web" ∷ codes "site/>" ∷ []

read_s3-joined_run :
    ((read_s3 (codes "a") true (transfer_of parts true none) true []).0 ≡ codes "<website/>")
    × (true ≡ true
        → true ≡ true
        → lookup Bytes-discrete
            (codes "a")
            (read_s3 (codes "a") true (transfer_of parts true none) true []).1
          ≡ some (codes "<website/>"))
read_s3-joined_run = read_s3-joined (codes "a") parts none true true []

read_s3-failed_run :
    read_s3 (codes "a") true (transfer_of parts false (some (codes "away"))) true []
    ≡ (cached (lookup Bytes-discrete (codes "a") []), [])
read_s3-failed_run = read_s3-failed (codes "a") parts (some (codes "away")) true true []

read_s3-again_example :
    (read_s3
      (codes "a")
      false
      (transfer_of [] false none)
      false
      (read_s3 (codes "a") true (transfer_of parts true none) true []).1).0
    ≡ (read_s3 (codes "a") true (transfer_of parts true none) true []).0
read_s3-again_example = read_s3-again (codes "a") parts [] none none false false []
