-- ===== src/Store.antt =====
-- The content-addressed store and the ingestion of an artifact: src/empiricist/store.py and
-- src/empiricist/ledger/ingest.py. The files are a list of digests with their contents; a path is
-- known by its digest. The hash, and the form of a digest, are parameters. The temporary file that
-- a failed write removes is left out.
pub mod Contents
pub mod Ingest
use empiricist.Base.{
  Bool, true, false, Option, none, some, List, [], ◌∷◌, find, is_some, ◌==◌, if◌then◌else◌,
}
use empiricist.Ledger.Models.{Text, Status, Coverage, Artifact}
use empiricist.Ledger.Tables.{Db, key_error, value_error, Result, ok, err}
use empiricist.Ledger.Artifacts.{add_artifact}

abbrev pub Files : Type 0
Files = List (Text × Text)

-- `read_bytes`, of a file that is there
abbrev pub content_at : Text → Files → Option Text
content_at digest [] = none
content_at digest ((name, content) ∷ files) =
    if name == digest then some content else content_at digest files

abbrev pub read_or_raise : Option Text → Result Text
read_or_raise none = err key_error
read_or_raise (some content) = ok content

abbrev pub then_result : {A B : Type 0} → Result A → (A → Result B) → Result B
then_result (ok a) f = f a
then_result (err e) f = err e

-- What `ingest_artifact` is given beside the content, and the time.
pub record Request : Type 0 where
  pub kind : Text
  pub problem : Text
  pub title : Text
  pub status : Status
  pub problem_version : Text
  pub substatus : Option Text
  pub status_n : Option Text
  pub coverage : Option Coverage
  pub run_id : Option Text
  pub artifact_id : Option Text
  pub now : Text

abbrev pub or_digest : Option Text → Text → Text
or_digest none digest = digest
or_digest (some id) digest = id

abbrev pub artifact : Request → Text → Artifact
artifact r digest = record {
  id = or_digest r.artifact_id digest;
  kind = r.kind;
  problem = r.problem;
  title = r.title;
  content_path = digest;
  status = r.status;
  substatus = r.substatus;
  status_n = r.status_n;
  coverage = r.coverage;
  created_at = r.now;
  run_id = r.run_id;
  problem_version = r.problem_version;
}

abbrev pub added : Artifact → Result (Unit {0}) × Db → Files → Result Artifact × Db × Files
added art (ok _, d) files = (ok art, d, files)
added art (err e, d) files = (err e, d, files)

abbrev pub ingest_with : Request → Result Text × Files → Db → Result Artifact × Db × Files
ingest_with r (err e, files) d = (err e, d, files)
ingest_with r (ok digest, files) d =
    added (artifact r digest) (add_artifact (artifact r digest) d) files

module _ (is_digest : Text → Bool) (blake3 : Text → Text) where
  pub path_for : Text → Result Text
  path_for digest = if is_digest digest then ok digest else err value_error

  pub exists : Text → Files → Result Bool
  unfolding path_for
  exists digest files = then_result (path_for digest) λ path. ok (is_some (content_at path files))

  abbrev pub put_at : Text → Result Text → Text → Files → Result Text × Files
  put_at digest (err e) content files = (err e, files)
  put_at digest (ok target) content files =
      if is_some (content_at target files)
      then (ok digest, files)
      else (ok digest, (target, content) ∷ files)

  pub put : Text → Files → Result Text × Files
  unfolding path_for
  put content files = let digest = blake3 content in put_at digest (path_for digest) content files

  pub get : Text → Files → Result Text
  unfolding path_for
  get digest files = then_result (path_for digest) λ path. read_or_raise (content_at path files)

  pub verify : Text → Files → Result Bool
  unfolding get
  verify digest files = then_result (get digest files) λ content. ok (blake3 content == digest)

  pub ingest_artifact : Text → Request → Db → Files → Result Artifact × Db × Files
  unfolding put
  ingest_artifact content r d files = ingest_with r (put content files) d
