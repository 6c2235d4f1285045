-- ===== src/Ledger/Artifacts.antt =====
-- The artifacts of src/empiricist/ledger/db.py: `add_artifact`, `get_artifact`,
-- `relabel_artifact` and `find_artifacts`.
pub mod Lookup
use empiricist.Base.{
  ◌≡◌, ◌⊎◌, inl, inr, Option-cases, arith, Bool, true, ◌&&◌, Option, none, some, List, [], ◌∷◌,
  ◌++◌, any, find, keep, update, sort_by, is_some, ◌==◌,
}
use empiricist.Ledger.Models.{Text, Status, rank, Artifact, Run, ExitCode}
use empiricist.Ledger.Tables.{
  Db, ok, key_error, value_error, integrity_error, Action, select, some_or_raise, ◌>>=◌, ◌>>◌,
  raise_if, write, transaction,
}

abbrev pub find_artifact : Text → Db → Option Artifact
find_artifact id d = find (λ a. a.id == id) d.artifacts

-- INSERT INTO artifacts: the id is the primary key.
unfoldable pub insert_artifact : Artifact → Action (Unit {0})
insert_artifact art = do
  raise_if (is_some (← select (find_artifact art.id))) integrity_error
  write (λ d. record d { artifacts = d.artifacts ++ art ∷ [] })

-- INSERT INTO runs: the id is the primary key.
unfoldable pub insert_run : Run → Action (Unit {0})
insert_run run = do
  raise_if (← select (λ d. any (λ r. r.run_id == run.run_id) d.runs)) integrity_error
  write (λ d. record d { runs = d.runs ++ run ∷ [] })

unfoldable pub add_artifact : Artifact → Action (Unit {0})
unfolding insert_artifact
add_artifact art = transaction (insert_artifact art)

unfoldable pub get_artifact : Text → Action Artifact
get_artifact id = do some_or_raise (← select (find_artifact id)) key_error

-- What `relabel_artifact` draws on: `str.strip`, the empty text, the text "relabel", the JSON of the
-- change, a fresh run id and the time.
pub record RelabelEnv : Type 0 where
  pub strip : Text → Text
  pub empty : Text
  pub relabel_move : Text
  pub change_json : Text → Text → Text → Text → Text
  pub run_id : Text
  pub now : Text

abbrev pub relabelled : Text → Artifact → Artifact
relabelled new a = record a { problem = new }

module _ (env : RelabelEnv) where
  relabel_run : Artifact → Text → Text → Run
  relabel_run art new note = record {
    run_id = env.run_id;
    move = env.relabel_move;
    role = none;
    model = none;
    argv = some (env.change_json art.id art.problem new note);
    seed = none;
    config_hash = none;
    env_fingerprint = none;
    tokens_in = 0;
    tokens_out = 0;
    cache_read = 0;
    cost_usd = 0;
    peak_rss_mb = none;
    exit_code = some (ExitCode.code 0);
    started = env.now;
    ended = some env.now;
    wall_s = some 0;
    provider = none;
    reasoning_mode = none;
    reasoning_effort = none;
    auth_route = none;
    request_digest = none;
    response_digest = none;
  }

  -- The transaction: the new label and the run that records it.
  unfoldable relabel : Artifact → Text → Text → Text → Action (Unit {0})
  unfolding relabel_run insert_run
  relabel art id new note = transaction do
    write (λ d. record d { artifacts = update (λ a. a.id == id) (relabelled new) d.artifacts })
    insert_run (relabel_run art new note)

  pub relabel_artifact : Text → Text → Text → Action Artifact
  relabel_artifact id problem note = do
    let new = env.strip problem
    raise_if (new == env.empty) value_error
    art ← get_artifact id
    raise_if (art.problem == new) value_error
    relabel art id new note
    get_artifact id

-- An optional filter of a query.
abbrev pub matches : Option Text → Text → Bool
matches none v = true
matches (some w) v = v == w

abbrev pub matches_status : Option Status → Status → Bool
matches_status none v = true
matches_status (some w) v = rank v == rank w

unfoldable pub find_artifacts : Option Text → Option Text → Option Status → Action (List Artifact)
unfolding rank
find_artifacts kind problem status = select λ d.
    sort_by (λ a. a.created_at)
      (keep
        (λ a. matches kind a.kind && matches problem a.problem && matches_status status a.status)
        d.artifacts)

pub get_artifact_same : (id : Text) (d : Db) → (get_artifact id d).1 ≡ d
unfolding get_artifact
get_artifact_same id d = ground arith

pub get_artifact_ok :
    (id : Text) (d : Db) {a : Artifact} → (get_artifact id d).0 ≡ ok a → find_artifact id d ≡ some a
unfolding get_artifact
get_artifact_ok id d h = ground arith

-- The artifacts are those of before, or the new one stands behind them.
pub add_artifact_writes :
    (art : Artifact) (d : Db)
    → let d' = (add_artifact art d).1 in
      (d'.evidence ≡ d.evidence)
      × ((d'.artifacts ≡ d.artifacts) ⊎ (d'.artifacts ≡ d.artifacts ++ art ∷ []))
unfolding add_artifact
add_artifact_writes art d = ground arith

module _ (env : RelabelEnv) where
  relabel_writes :
      (art : Artifact) (id new note : Text) (d : Db)
      → let d' = (relabel env art id new note d).1 in
        (d'.evidence ≡ d.evidence)
        × ((d'.artifacts ≡ d.artifacts)
            ⊎ (d'.artifacts ≡ update (λ a. a.id == id) (relabelled new) d.artifacts))
  unfolding relabel
  relabel_writes art id new note d = ground arith

  -- The artifacts are those of before, or one of them has the new label.
  pub relabel_artifact_writes :
      (id problem note : Text) (d : Db)
      → let d' = (relabel_artifact env id problem note d).1 in
        (d'.evidence ≡ d.evidence)
        × ((d'.artifacts ≡ d.artifacts)
            ⊎ (d'.artifacts
                ≡ update (λ a. a.id == id) (relabelled (env.strip problem)) d.artifacts))
  unfolding relabel_artifact get_artifact
  relabel_artifact_writes id problem note d = elim (Option-cases (find_artifact id d)) [
    | inl missing ↦ ground arith
    | inr (art, found) ↦ ground (arith, relabel_writes art id (env.strip problem) note d)
  ]
