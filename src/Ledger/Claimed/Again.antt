-- ===== src/Ledger/Claimed/Again.antt =====
-- `record_claimed_artifact` when it is repeated.
use empiricist.Base.{
  ◌≡◌, ◌≢◌, refl, ap, ◌∙◌, inl, inr, Bool, true, false, Option, none, some, List, any, find, arith,
  ltb, ◌==◌, if◌then◌else◌, Bool-cases, ==_refl,
}
use empiricist.Base.Rows.{find-append, find-update, any-append_last}
use empiricist.Ledger.Models.{Text, Status, rank, Artifact, EvidenceRow, Claim}
use empiricist.Ledger.Tables.{Db, ok, transaction, transaction_idle, >>=-eq, ◌>>◌}
use empiricist.Ledger.Artifacts.{find_artifact, get_artifact}
use empiricist.Ledger.Evidence.{find_claim}
use empiricist.Ledger.Certifications.{find_stamp, is_current}
use empiricist.Ledger.Claimed.{
  ClaimEnv, check_request, store, store_artifact, store_claim, store_evidence, is_duplicate,
  same_identity, raised, record_claimed_artifact,
}
use empiricist.Ledger.Claimed.Effect.{
  stored_artifacts, stored_claims, stored_evidence, Coherent, Admits, Agrees, recorded,
  record_claimed_artifact_ok,
}

-- The row of the artifact after the call, from the one found before it.
abbrev pub stored_row : Artifact → Option Artifact → Artifact
stored_row art none = art
stored_row art (some old) = if ltb (rank old.status) (rank art.status) then raised art old else old

pub stored_artifacts_found :
    (art : Artifact) (rows : List Artifact) (old : Option Artifact)
    → find (λ a. a.id == art.id) rows ≡ old
    → find (λ a. a.id == art.id) (stored_artifacts art old rows) ≡ some (stored_row art old)
unfolding raised
stored_artifacts_found art rows none e =
    rw (find-append (λ (a : Artifact). a.id == art.id), e, ==_refl art.id) refl
stored_artifacts_found art rows (some old) e =
    elim (Bool-cases (ltb (rank old.status) (rank art.status))) [
      | inl up ↦
          rw
            (
              up,
              find-update (λ (a : Artifact). a.id) (raised art) art.id art.id rows (λ x. refl),
              e,
              ==_refl art.id,
            )
            refl
      | inr down ↦ rw (down, e) refl
    ]

module _ (env : ClaimEnv) (art : Artifact) (claim : Claim) (ev : EvidenceRow)
    (suite json : Text) where
  -- The database already holds what the call would record.
  record Settled (d : Db) : Type 0 where
    row : Artifact
    old : Claim
    current : is_current suite (find_stamp ev.verifier ev.verifier_version ev.binary_hash d) ≡ true
    found : find_artifact art.id d ≡ some row
    admitted : Admits env art (some row)
    strong : ltb (rank row.status) (rank art.status) ≡ false
    known : find_claim claim.id d ≡ some old
    agreed : same_identity old (record claim { scope = json }) ≡ true
    duplicate : any (is_duplicate ev) d.evidence ≡ true

  store-Settled : (d : Db) → Settled d → store env art claim ev suite json d ≡ (ok tt, d)
  unfolding store store_artifact store_claim store_evidence
  store-Settled d s = ground arith

  abbrev stored_claim : Option Claim → Claim
  stored_claim none = record claim { scope = json }
  stored_claim (some c) = c

  stored_row-Admits :
      (old : Option Artifact)
      → art.status ≢ Status.refuted
      → Admits env art old
      → Admits env art (some (stored_row art old))
        × (ltb (rank (stored_row art old).status) (rank art.status) ≡ false)
  unfolding raised
  stored_row-Admits none live h = ground arith
  stored_row-Admits (some old) live h = ground arith

  stored_claims_found :
      (rows : List Claim) (old : Option Claim)
      → find (λ c. c.id == claim.id) rows ≡ old
      → Agrees (record claim { scope = json }) old
      → (find (λ c. c.id == claim.id) (stored_claims (record claim { scope = json }) old rows)
          ≡ some (stored_claim old))
        × (same_identity (stored_claim old) (record claim { scope = json }) ≡ true)
  stored_claims_found rows none e h =
      (rw (find-append (λ (c : Claim). c.id == claim.id), e, ==_refl claim.id) refl, ground arith)
  stored_claims_found rows (some old) e h = (e, h)

  stored_evidence-duplicate :
      (rows : List EvidenceRow) (known : Bool)
      → any (is_duplicate ev) rows ≡ known
      → Coherent env art claim ev suite
      → any (is_duplicate ev) (stored_evidence ev known rows) ≡ true
  stored_evidence-duplicate rows true e h = e
  stored_evidence-duplicate rows false e h =
      any-append_last (is_duplicate ev) rows ev (ground arith)

  recorded-Settled :
      (d : Db)
      → art.status ≢ Status.refuted
      → Coherent env art claim ev suite
      → is_current suite (find_stamp ev.verifier ev.verifier_version ev.binary_hash d) ≡ true
      → Admits env art (find_artifact art.id d)
      → Agrees (record claim { scope = json }) (find_claim claim.id d)
      → Settled (recorded art claim ev json d)
  recorded-Settled d live coherent current admitted agreed =
      let (admits, strong) = stored_row-Admits (find_artifact art.id d) live admitted in
      let (known, same) = stored_claims_found d.claims (find_claim claim.id d) refl agreed in
      record {
        row = stored_row art (find_artifact art.id d);
        old = stored_claim (find_claim claim.id d);
        current = current;
        found = stored_artifacts_found art d.artifacts (find_artifact art.id d) refl;
        admitted = admits;
        strong = strong;
        known = known;
        agreed = same;
        duplicate =
            stored_evidence-duplicate d.evidence (any (is_duplicate ev) d.evidence) refl coherent;
      }

  -- A call on a database that holds everything already returns the row and writes nothing.
  repeat-Settled :
      (d : Db) (s : Settled d)
      → d.in_transaction ≡ false
      → (transaction (store env art claim ev suite json) >> get_artifact art.id) d ≡ (ok s.row, d)
  unfolding get_artifact
  repeat-Settled d s idle =
      let began = record d { in_transaction = true } in
      let held : Settled began = record {
        row = s.row;
        old = s.old;
        current = s.current;
        found = s.found;
        admitted = s.admitted;
        strong = s.strong;
        known = s.known;
        agreed = s.agreed;
        duplicate = s.duplicate;
      } in
      let body = store env art claim ev suite json in
      >>=-eq (transaction body) (λ _. get_artifact art.id) d d tt
        (transaction_idle body d tt idle (store-Settled began held))
      ∙ rw s.found

module _ (env : ClaimEnv) (art : Artifact) (claim : Claim) (ev : EvidenceRow) (suite : Text) where
  check_request-Coherent :
      (json : Text) (d : Db)
      → Coherent env art claim ev suite
      → env.scope_json claim.scope ≡ some json
      → check_request env art claim ev suite d ≡ (ok json, d)
  unfolding check_request
  check_request-Coherent json d c e = ground arith

  -- Where a `record_claimed_artifact` of an artifact that is not REFUTED returns, the same call again
  -- returns the same row and leaves the database as it is.
  pub record_claimed_artifact_again :
      (d : Db) {a : Artifact}
      → art.status ≢ Status.refuted
      → (record_claimed_artifact env art claim ev suite d).0 ≡ ok a
      → let d' = (record_claimed_artifact env art claim ev suite d).1 in
        record_claimed_artifact env art claim ev suite d' ≡ (ok a, d')
  unfolding record_claimed_artifact
  record_claimed_artifact_again d {a} live h =
      let (json, scope, coherent, current, admitted, agreed, final, found) =
        record_claimed_artifact_ok env art claim ev suite d h in
      let settled =
        recorded-Settled env art claim ev suite json d live coherent current admitted agreed in
      let d' = recorded art claim ev json d in
      let rest =
        λ (json : Text). transaction (store env art claim ev suite json) >> get_artifact art.id in
      let same : record_claimed_artifact env art claim ev suite d' ≡ (ok settled.row, d') =
        >>=-eq (check_request env art claim ev suite) rest d' d' json
          (check_request-Coherent json d' coherent scope)
        ∙ repeat-Settled env art claim ev suite json d' settled refl in
      let row : settled.row ≡ a = cc (settled.found, found) in
      rw final (same ∙ ap (λ (x : Artifact). (ok x, d')) row)
