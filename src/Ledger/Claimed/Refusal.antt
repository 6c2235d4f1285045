-- ===== src/Ledger/Claimed/Refusal.antt =====
-- `record_claimed_artifact` when it raises.
use empiricist.Base.{◌≡◌, refl, sym, ap, ◌∙◌, inl, inr, true, false, some, arith}
use empiricist.Ledger.Models.{Text, Artifact, EvidenceRow, Claim}
use empiricist.Ledger.Tables.{
  Db, err, Error, transaction, transaction_atomic, Result, >>=-at_ok, >>=-at_err, transaction_ok,
  ◌>>◌, Result-cases,
}
use empiricist.Ledger.Artifacts.{find_artifact, get_artifact}
use empiricist.Ledger.Claimed.{ClaimEnv, check_request, store, record_claimed_artifact}
use empiricist.Ledger.Claimed.Effect.{recorded, check_request_same, store_ok}
use empiricist.Ledger.Claimed.Again.{stored_row, stored_artifacts_found}

module _ (env : ClaimEnv) (art : Artifact) (claim : Claim) (ev : EvidenceRow) (suite : Text) where
  -- After a committed transaction the row is there, so a raise means a rollback.
  commit_err :
      (json : Text) (d : Db) {e : Error}
      → ((transaction (store env art claim ev suite json) >> get_artifact art.id) d).0 ≡ err e
      → ((transaction (store env art claim ev suite json) >> get_artifact art.id) d).1 ≡ d
  unfolding get_artifact
  commit_err json d {e} h =
      let body = store env art claim ev suite json in
      elim (Result-cases (transaction body d).0) [
        | inl (_, p) ↦
            let (_, s, t) = transaction_ok body d p in
            let (_, _, _, final) =
              store_ok env art claim ev suite json (record d { in_transaction = true }) s in
            let after : (transaction body d).1 ≡ recorded art claim ev json d =
              t ∙ ap (λ (x : Db). record x { in_transaction = false }) final in
            let row = stored_artifacts_found art d.artifacts (find_artifact art.id d) refl in
            let found : find_artifact art.id (transaction body d).1
                ≡ some (stored_row art (find_artifact art.id d)) =
              ap (find_artifact art.id) after ∙ row in
            let after_get =
              ap (λ (r : Result Artifact × Db). r.0)
                (>>=-at_ok (transaction body) (λ _. get_artifact art.id) d tt p) in
            absurd (ground (arith, found, sym after_get ∙ h))
        | inr (x, p) ↦
            ap (λ (r : Result Artifact × Db). r.1)
              (>>=-at_err (transaction body) (λ _. get_artifact art.id) d x p)
            ∙ transaction_atomic body d p
      ]

  -- A `record_claimed_artifact` that raises leaves the database as it was.
  pub record_claimed_artifact_err :
      (d : Db) {e : Error}
      → (record_claimed_artifact env art claim ev suite d).0 ≡ err e
      → (record_claimed_artifact env art claim ev suite d).1 ≡ d
  unfolding record_claimed_artifact
  record_claimed_artifact_err d h = elim (Result-cases (check_request env art claim ev suite d).0) [
    | inl (json, p) ↦
        let rest =
          λ (json : Text). transaction (store env art claim ev suite json) >> get_artifact art.id in
        let unchanged = check_request_same env art claim ev suite d in
        let to_rest =
          >>=-at_ok (check_request env art claim ev suite) rest d json p
          ∙ ap (rest json) unchanged in
        rw to_rest (commit_err json d (rw to_rest at h))
    | inr (x, p) ↦ ground (arith, check_request_same env art claim ev suite d)
  ]
