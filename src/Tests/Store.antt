-- ===== src/Tests/Store.antt =====
-- The witnesses of the store.
use empiricist.Base.{
  ◌+◌, ◌≡◌, refl, Bool, true, not, ◌&&◌, none, [], ◌∷◌, is_some, ltb, ◌==◌, if◌then◌else◌,
}
use empiricist.Ledger.Models.{Text, Status}
use empiricist.Ledger.Tables.{ok}
use empiricist.Ledger.Artifacts.{find_artifact}
use empiricist.Store.{Files, content_at, Request, artifact, put, get, verify, ingest_artifact}
use empiricist.Store.Contents.{Intact, put_ok}
use empiricist.Store.Ingest.{Ends, ingest_artifact_ok}
use empiricist.Tests.Samples.{db}

abbrev is_digest : Text → Bool
is_digest t = ltb 99 t

abbrev blake3 : Text → Text
blake3 content = content + 100

abbrev files : Files
files = (107, 7) ∷ []

put_ok_example :
    let after = (put is_digest blake3 8 files).1 in
    ((put is_digest blake3 8 files).0 ≡ ok (blake3 8))
    × Intact is_digest blake3 after
    × (verify is_digest blake3 (blake3 8) after ≡ ok true)
    × (get is_digest blake3 107 after ≡ (
        if 107 == blake3 8 && not (is_some (content_at 107 files))
        then ok 8
        else get is_digest blake3 107 files))
    × (put is_digest blake3 8 after ≡ (ok (blake3 8), after))
put_ok_example = put_ok is_digest blake3 8 107 files refl (refl, tt)

abbrev request : Request
request = record {
  kind = 1;
  problem = 2;
  title = 3;
  status = Status.heuristic;
  problem_version = 1;
  substatus = none;
  status_n = none;
  coverage = none;
  run_id = none;
  artifact_id = none;
  now = 12;
}

ingest_artifact_ok_example :
    let art = artifact request (blake3 8) in
    let (result, after, stored) = ingest_artifact is_digest blake3 8 request db files in
    Intact is_digest blake3 stored
    × (verify is_digest blake3 (art.content_path) stored ≡ ok true)
    × Ends art result db after (find_artifact art.id db)
ingest_artifact_ok_example =
    ingest_artifact_ok is_digest blake3 8 request db files refl refl (refl, tt)
