-- ===== src/Ledger/Claimed/Effect.antt =====
-- What a successful `record_claimed_artifact` has checked and written.
use empiricist.Base.{
  ◌||◌, ◌≡◌, ◌≢◌, refl, subst, ap, ◌∙◌, Bool, true, false, Option, none, some, List, [], ◌∷◌, ◌++◌,
  any, update, arith, ltb, ◌==◌, if◌then◌else◌,
}
use empiricist.Ledger.Models.{Text, Status, rank, Verdict, Artifact, EvidenceRow, Claim}
use empiricist.Ledger.Tables.{Db, ok, transaction, >>=-ok, transaction_ok, ◌>>◌}
use empiricist.Ledger.Artifacts.{find_artifact, get_artifact, get_artifact_same, get_artifact_ok}
use empiricist.Ledger.Evidence.{find_claim}
use empiricist.Ledger.Certifications.{find_stamp, is_current}
use empiricist.Ledger.Claimed.{
  ClaimEnv, create_id, check_request, store, store_artifact, store_claim, store_evidence,
  is_duplicate, same_identity, raised, record_claimed_artifact,
}

-- The artifacts, the claims and the evidence after the call, from the rows found before it.
abbrev pub stored_artifacts : Artifact → Option Artifact → List Artifact → List Artifact
stored_artifacts art none rows = rows ++ art ∷ []
stored_artifacts art (some old) rows =
    if ltb (rank old.status) (rank art.status)
    then update (λ a. a.id == art.id) (raised art) rows
    else rows

abbrev pub stored_claims : Claim → Option Claim → List Claim → List Claim
stored_claims claim none rows = rows ++ claim ∷ []
stored_claims claim (some old) rows = rows

abbrev pub stored_evidence : EvidenceRow → Bool → List EvidenceRow → List EvidenceRow
stored_evidence ev true rows = rows
stored_evidence ev false rows = rows ++ ev ∷ []

-- What the identities that come together in the call have in common.
pub record Coherent (env : ClaimEnv) (art : Artifact) (claim : Claim) (ev : EvidenceRow)
    (suite : Text) : Type 0 where
  pub passed : ev.verdict ≡ Verdict.pass
  pub claim_of : claim.artifact_id ≡ art.id
  pub evidence_of : ev.artifact_id ≡ art.id
  pub problem : claim.problem ≡ art.problem
  pub version : claim.problem_version ≡ art.problem_version
  pub canonical : create_id env claim ≡ some claim.id
  pub names_claim : ev.claim_id ≡ some claim.id
  pub pins_suite : ev.golden_suite_hash ≡ some suite

-- A stored artifact that the call may touch: the same content, not refuted.
abbrev pub Admits : ClaimEnv → Artifact → Option Artifact → Type 0
Admits env art none = Unit
Admits env art (some old) =
    (old.status ≢ Status.refuted)
    × (old.kind ≡ art.kind)
    × (old.problem ≡ art.problem)
    × ((old.problem_version == art.problem_version || old.problem_version == env.legacy) ≡ true)
    × (old.content_path ≡ art.content_path)

-- A stored claim of the same id states the same.
abbrev pub Agrees : Claim → Option Claim → Type 0
Agrees claim none = Unit
Agrees claim (some old) = same_identity old claim ≡ true

module _ (env : ClaimEnv) where
  check_request_ok :
      (art : Artifact) (claim : Claim) (ev : EvidenceRow) (suite : Text) (d : Db) (json : Text)
      → (check_request env art claim ev suite d).0 ≡ ok json
      → Coherent env art claim ev suite × (env.scope_json claim.scope ≡ some json)
  unfolding check_request
  check_request_ok art claim ev suite d json h = ground arith

  pub check_request_same :
      (art : Artifact) (claim : Claim) (ev : EvidenceRow) (suite : Text) (d : Db)
      → (check_request env art claim ev suite d).1 ≡ d
  unfolding check_request
  check_request_same art claim ev suite d = ground arith

  store_artifact_ok :
      (art : Artifact) (old : Option Artifact) (d : Db)
      → (store_artifact env art old d).0 ≡ ok tt
      → Admits env art old
        × ((store_artifact env art old d).1
            ≡ record d { artifacts = stored_artifacts art old d.artifacts })
  unfolding store_artifact
  store_artifact_ok art none d h = (tt, ground arith)
  store_artifact_ok art (some old) d h = ground arith

store_claim_ok :
    (claim : Claim) (old : Option Claim) (d : Db)
    → (store_claim claim old d).0 ≡ ok tt
    → Agrees claim old
      × ((store_claim claim old d).1 ≡ record d { claims = stored_claims claim old d.claims })
unfolding store_claim
store_claim_ok claim none d h = (tt, ground arith)
store_claim_ok claim (some old) d h = ground arith

store_evidence_ok :
    (ev : EvidenceRow) (known : Bool) (d : Db)
    → (store_evidence ev known d).0 ≡ ok tt
    → (store_evidence ev known d).1 ≡ record d { evidence = stored_evidence ev known d.evidence }
unfolding store_evidence
store_evidence_ok ev true d h = refl
store_evidence_ok ev false d h = ground arith

-- The database after the call.
abbrev pub recorded : Artifact → Claim → EvidenceRow → Text → Db → Db
recorded art claim ev json d = record d {
  artifacts = stored_artifacts art (find_artifact art.id d) d.artifacts;
  claims = stored_claims (record claim { scope = json }) (find_claim claim.id d) d.claims;
  evidence = stored_evidence ev (any (is_duplicate ev) d.evidence) d.evidence;
  in_transaction = false;
}

module _ (env : ClaimEnv) (art : Artifact) (claim : Claim) (ev : EvidenceRow) (suite : Text) where
  pub store_ok :
      (json : Text) (d : Db)
      → (store env art claim ev suite json d).0 ≡ ok tt
      → (is_current suite (find_stamp ev.verifier ev.verifier_version ev.binary_hash d) ≡ true)
        × Admits env art (find_artifact art.id d)
        × Agrees (record claim { scope = json }) (find_claim claim.id d)
        × ((store env art claim ev suite json d).1 ≡ record d {
          artifacts = stored_artifacts art (find_artifact art.id d) d.artifacts;
          claims = stored_claims (record claim { scope = json }) (find_claim claim.id d) d.claims;
          evidence = stored_evidence ev (any (is_duplicate ev) d.evidence) d.evidence;
        })
  unfolding store
  store_ok json d h =
      let row = record claim { scope = json } in
      let e1 = store_artifact_ok env art (find_artifact art.id d) d in
      let d1 = record d { artifacts = stored_artifacts art (find_artifact art.id d) d.artifacts } in
      let e2 = store_claim_ok row (find_claim claim.id d) d1 in
      let d2 = record d1 { claims = stored_claims row (find_claim claim.id d) d.claims } in
      let e3 = store_evidence_ok ev (any (is_duplicate ev) d.evidence) d2 in
      (
        ground (arith, e1, e2, e3),
        (e1 (ground arith)).0,
        (e2 (ground (arith, e1))).0,
        ground (arith, e1, e2, e3),
      )

  after_check :
      (json : Text) (d : Db) (a : Artifact)
      → ((transaction (store env art claim ev suite json) >> get_artifact art.id) d).0 ≡ ok a
      → (is_current suite (find_stamp ev.verifier ev.verifier_version ev.binary_hash d) ≡ true)
        × Admits env art (find_artifact art.id d)
        × Agrees (record claim { scope = json }) (find_claim claim.id d)
        × (((transaction (store env art claim ev suite json) >> get_artifact art.id) d).1
            ≡ recorded art claim ev json d)
        × (find_artifact art.id (recorded art claim ev json d) ≡ some a)
  after_check json d a h =
      let body = store env art claim ev suite json in
      let (_, p, h', q) = >>=-ok (transaction body) (λ _. get_artifact art.id) d h in
      let (_, s, t) = transaction_ok body d p in
      let (current, admitted, agreed, final) =
        store_ok json (record d { in_transaction = true }) s in
      let e : (transaction body d).1 ≡ recorded art claim ev json d =
        t ∙ ap (λ (x : Db). record x { in_transaction = false }) final in
      (
        current,
        admitted,
        agreed,
        q ∙ get_artifact_same art.id (transaction body d).1 ∙ e,
        subst (λ (x : Db). find_artifact art.id x ≡ some a) e
            (get_artifact_ok art.id (transaction body d).1 h'),
      )

  -- A `record_claimed_artifact` that returns: the identities cohere, the stamp of the verifier is a
  -- current PASS, the stored artifact and claim of these ids, if any, agree with the new ones; the call
  -- has written the artifact, the claim and the evidence row as far as they were missing or weaker, and
  -- nothing else; and it returns the stored artifact.
  pub record_claimed_artifact_ok :
      (d : Db) {a : Artifact}
      → (record_claimed_artifact env art claim ev suite d).0 ≡ ok a
      → (json : Text) × (env.scope_json claim.scope ≡ some json)
        × Coherent env art claim ev suite
        × (is_current suite (find_stamp ev.verifier ev.verifier_version ev.binary_hash d) ≡ true)
        × Admits env art (find_artifact art.id d)
        × Agrees (record claim { scope = json }) (find_claim claim.id d)
        × ((record_claimed_artifact env art claim ev suite d).1 ≡ recorded art claim ev json d)
        × (find_artifact art.id (recorded art claim ev json d) ≡ some a)
  unfolding record_claimed_artifact
  record_claimed_artifact_ok d {a} h =
      let rest =
        λ (json : Text). transaction (store env art claim ev suite json) >> get_artifact art.id in
      let (json, p, h', q) = >>=-ok (check_request env art claim ev suite) rest d h in
      let same = check_request_same env art claim ev suite d in
      let (coherent, scope) = check_request_ok env art claim ev suite d json p in
      let (current, admitted, agreed, final, found) = after_check json d a (rw same at h') in
      (
        json,
        scope,
        coherent,
        current,
        admitted,
        agreed,
        q ∙ ap (λ (x : Db). (rest json x).1) same ∙ final,
        found,
      )
