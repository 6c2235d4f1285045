-- ===== src/Ledger/Claimed.antt =====
-- `Claim.create` of src/empiricist/ledger/models.py, and `Ledger.record_claimed_artifact` and
-- `Ledger.claims_for` of ledger/db.py. The JSON encoder, the digest and the text "legacy" are
-- parameters. A row of `claims` holds in `scope` the JSON text of the claim's scope.
pub mod Effect
pub mod Again
pub mod Refusal
use empiricist.Base.{
  ◌≡◌, refl, Bool, true, false, not, ◌&&◌, ◌||◌, Option, none, some, List, [], ◌∷◌, ◌++◌, any, keep,
  sort_by, is_some, opt_eq, sql_eq, coalesce, ltb, ◌==◌,
}
use empiricist.Ledger.Models.{
  Text, rank, Artifact, EvidenceRow, Claim, Identity, is_refuted, is_pass,
}
use empiricist.Ledger.Tables.{
  value_error, integrity_error, promotion_integrity_error, terminal_status_error, Action, pure,
  select, some_or_raise, ◌>>=◌, ◌>>◌, raise_if, when, write, transaction,
}
use empiricist.Ledger.Artifacts.{find_artifact, insert_artifact, get_artifact}
use empiricist.Ledger.Evidence.{find_claim, has_artifact, insert_evidence, update_artifact}
use empiricist.Ledger.Certifications.{find_stamp, is_current}

pub record ClaimEnv : Type 0 where
  -- `json.dumps` with sorted keys; `none` where it raises.
  pub identity_json : Identity → Option Text
  pub scope_json : Text → Option Text
  pub blake3 : Text → Text
  pub legacy : Text

abbrev identity_of : Claim → Identity
identity_of c = record {
  artifact_id = c.artifact_id;
  family = c.family;
  metric = c.metric;
  problem = c.problem;
  problem_version = c.problem_version;
  scope = c.scope;
  statement = c.statement;
}

-- Two rows of `claims` state the same claim: all but the id and the time.
abbrev pub same_identity : Claim → Claim → Bool
same_identity a b =
    a.artifact_id == b.artifact_id
    && a.problem == b.problem
    && a.problem_version == b.problem_version
    && a.statement == b.statement
    && opt_eq a.family b.family
    && opt_eq a.metric b.metric
    && a.scope == b.scope

-- The SELECT for an evidence row that records the same PASS.
abbrev pub is_duplicate : EvidenceRow → EvidenceRow → Bool
is_duplicate ev e =
    e.artifact_id == ev.artifact_id
    && sql_eq e.claim_id ev.claim_id
    && e.verifier == ev.verifier
    && e.verifier_version == ev.verifier_version
    && e.binary_hash == ev.binary_hash
    && sql_eq e.golden_suite_hash ev.golden_suite_hash
    && is_pass e.verdict

-- INSERT INTO claims: the id is the primary key, and the artifact must exist.
unfoldable pub insert_claim : Claim → Action (Unit {0})
insert_claim claim = do
  raise_if (is_some (← select (find_claim claim.id))) integrity_error
  raise_if (not (← select (has_artifact claim.artifact_id))) integrity_error
  write (λ d. record d { claims = d.claims ++ claim ∷ [] })

-- The UPDATE to a stronger status.
unfoldable pub raised : Artifact → Artifact → Artifact
raised art a = record a {
  status = art.status;
  substatus = art.substatus;
  status_n = art.status_n;
  coverage = art.coverage;
  run_id = coalesce art.run_id a.run_id;
}

unfoldable pub store_claim : Claim → Option Claim → Action (Unit {0})
unfolding insert_claim
store_claim claim none = insert_claim claim
store_claim claim (some old) = raise_if (not (same_identity old claim)) promotion_integrity_error

unfoldable pub store_evidence : EvidenceRow → Bool → Action (Unit {0})
unfolding insert_evidence
store_evidence ev true = pure tt
store_evidence ev false = insert_evidence ev

pub raised-status : (art a : Artifact) → (raised art a).status ≡ art.status
unfolding raised
raised-status art a = refl

pub raised-id : (art a : Artifact) → (raised art a).id ≡ a.id
unfolding raised
raised-id art a = refl

module _ (env : ClaimEnv) where
  -- The id that `Claim.create` gives to these fields; `none` where it raises ValueError.
  unfoldable pub create_id : Claim → Option Text
  create_id c = elim (env.identity_json (identity_of c)) [
    | none ↦ none
    | some encoded ↦ some (env.blake3 encoded)
  ]

  -- The checks before the transaction; their result is the JSON text of the scope.
  unfoldable pub check_request : Artifact → Claim → EvidenceRow → Text → Action Text
  unfolding create_id
  check_request art claim ev suite = do
    raise_if (not (is_pass ev.verdict)) promotion_integrity_error
    raise_if (not (claim.artifact_id == art.id) || not (ev.artifact_id == art.id))
        promotion_integrity_error
    raise_if (not (claim.problem == art.problem)) promotion_integrity_error
    raise_if (not (claim.problem_version == art.problem_version)) promotion_integrity_error
    canonical_id ← some_or_raise (create_id claim) promotion_integrity_error
    raise_if (not (canonical_id == claim.id)) promotion_integrity_error
    raise_if (not (opt_eq ev.claim_id (some claim.id))) promotion_integrity_error
    raise_if (not (opt_eq ev.golden_suite_hash (some suite))) promotion_integrity_error
    some_or_raise (env.scope_json claim.scope) value_error

  unfoldable pub store_artifact : Artifact → Option Artifact → Action (Unit {0})
  unfolding insert_artifact rank update_artifact raised
  store_artifact art none = insert_artifact art
  store_artifact art (some old) = do
    raise_if
        (not (old.kind == art.kind)
          || not (old.problem == art.problem)
          || not (old.problem_version == art.problem_version || old.problem_version == env.legacy)
          || not (old.content_path == art.content_path))
        promotion_integrity_error
    raise_if (is_refuted old.status) terminal_status_error
    when (ltb (rank old.status) (rank art.status)) (update_artifact art.id (raised art))

  -- The transaction.
  unfoldable pub store : Artifact → Claim → EvidenceRow → Text → Text → Action (Unit {0})
  store art claim ev suite scope_json = do
    cert ← select (find_stamp ev.verifier ev.verifier_version ev.binary_hash)
    raise_if (not (is_current suite cert)) promotion_integrity_error
    store_artifact art (← select (find_artifact art.id))
    store_claim (record claim { scope = scope_json }) (← select (find_claim claim.id))
    store_evidence ev (← select (λ d. any (is_duplicate ev) d.evidence))

  unfoldable pub record_claimed_artifact : Artifact → Claim → EvidenceRow → Text → Action Artifact
  record_claimed_artifact art claim ev suite = do
    scope_json ← check_request art claim ev suite
    transaction (store art claim ev suite scope_json)
    get_artifact art.id

  unfoldable claims_for : Text → Action (List Claim)
  claims_for id = select λ d. sort_by (λ c. c.created_at) (keep (λ c. c.artifact_id == id) d.claims)
