-- ===== src/Tests/Ledger.antt =====
-- The witnesses of the ledger's artifacts, evidence, claims and stamps.
use empiricist.Base.{◌⊎◌, ◌≡◌, refl, true, false, none, some, List, [], ◌∷◌, arith}
use empiricist.Ledger.Models.{Text, Status, rank, Verdict, Artifact}
use empiricist.Ledger.Tables.{ok, err, promotion_integrity_error, integrity_error}
use empiricist.Ledger.Artifacts.{find_artifact, insert_artifact, add_artifact, get_artifact}
use empiricist.Ledger.Artifacts.Lookup.{add_artifact-get_artifact}
use empiricist.Ledger.Evidence.{
  check_claim, refuses, check_transition, with_status, update_artifact, change_status, judge,
  insert_evidence, record_evidence, find_claim,
}
use empiricist.Ledger.Evidence.Outcomes.{Answers, record_evidence-Answers}
use empiricist.Ledger.Evidence.Transitions.{AllowedIf, changed, record_evidence_ok}
use empiricist.Ledger.Certifications.{
  find_stamp, is_current, require_certification, add_certification,
}
use empiricist.Ledger.Certifications.Stamps.{require_certification_after}
use empiricist.Ledger.Claimed.{
  create_id, check_request, insert_claim, raised, store_artifact, store_claim, store_evidence,
  store, record_claimed_artifact,
}
use empiricist.Ledger.Claimed.Effect.{
  Coherent, Admits, Agrees, recorded, record_claimed_artifact_ok,
}
use empiricist.Ledger.Claimed.Again.{record_claimed_artifact_again}
use empiricist.Ledger.Claimed.Refusal.{record_claimed_artifact_err}
use empiricist.System.Effects.{Kept}
use empiricist.System.Requests.{Request, run}
use empiricist.System.Statuses.{run-Kept}
use empiricist.Tests.Samples.{artifact, evidence, stamp, db, encoder, certified, claim, claim_pass}

program : Unit {0}
unfolding rank insert_artifact add_artifact get_artifact check_claim refuses check_transition
    with_status update_artifact change_status judge insert_evidence record_evidence create_id
    check_request insert_claim raised store_artifact store_claim store_evidence store
    record_claimed_artifact
program = tt

-- A PASS lifts the artifact, a FAIL refutes it, and nothing lifts it again.
abbrev session : List Request
session =
    Request.record_evidence (evidence 7 Verdict.pass) (some Status.certified) none none none true
    ∷ Request.record_evidence (evidence 7 Verdict.fail) (some Status.refuted) none none none false
    ∷ Request.record_evidence (evidence 7 Verdict.pass) (some Status.certified) none none none true
    ∷ []

run-Kept_example : Kept 7 (artifact 7 Status.heuristic) (run session db)
run-Kept_example = run-Kept session 7 (artifact 7 Status.heuristic) db refl

lifted :
    (record_evidence (evidence 7 Verdict.pass) (some Status.certified) none none none true db).0
    ≡ ok tt
unfolding program
lifted = refl

record_evidence_ok_example :
    (a : Artifact) × (find_artifact 7 db ≡ some a)
    × AllowedIf Verdict.pass true a.status (some Status.certified)
    × ((record_evidence (evidence 7 Verdict.pass) (some Status.certified) none none none true db).1
        ≡ record db {
          artifacts = changed 7 (some Status.certified) none none none db.artifacts;
          evidence = evidence 7 Verdict.pass ∷ [];
          in_transaction = false;
        })
record_evidence_ok_example =
    record_evidence_ok (evidence 7 Verdict.pass) none none none true (some Status.certified) db
      lifted

unwarranted :
    (record_evidence (evidence 7 Verdict.pass) (some Status.certified) none none none false db).0
    ≡ err promotion_integrity_error
unfolding program
unwarranted = refl

record_evidence-Answers_example :
    let (r, after) =
      record_evidence (evidence 7 Verdict.pass) (some Status.certified) none none none false db in
    Answers (evidence 7 Verdict.pass) (some Status.certified) false db r
    × ((r ≡ ok tt) ⊎ (after ≡ db))
record_evidence-Answers_example =
    record_evidence-Answers (evidence 7 Verdict.pass) none none none false (some Status.certified)
      db

claimed : (record_claimed_artifact encoder certified claim claim_pass 40 db).0 ≡ ok certified
unfolding program
claimed = refl

record_claimed_artifact_ok_example :
    (json : Text) × (encoder.scope_json claim.scope ≡ some json)
    × Coherent encoder certified claim claim_pass 40
    × (is_current 40 (find_stamp 20 1 30 db) ≡ true)
    × Admits encoder certified (find_artifact 7 db)
    × Agrees (record claim { scope = json }) (find_claim 51 db)
    × ((record_claimed_artifact encoder certified claim claim_pass 40 db).1
        ≡ recorded certified claim claim_pass json db)
    × (find_artifact 7 (recorded certified claim claim_pass json db) ≡ some certified)
record_claimed_artifact_ok_example =
    record_claimed_artifact_ok encoder certified claim claim_pass 40 db claimed

record_claimed_artifact_again_example :
    let after = (record_claimed_artifact encoder certified claim claim_pass 40 db).1 in
    record_claimed_artifact encoder certified claim claim_pass 40 after ≡ (ok certified, after)
record_claimed_artifact_again_example =
    record_claimed_artifact_again encoder certified claim claim_pass 40 db (ground arith) claimed

uncertified :
    (record_claimed_artifact encoder certified claim claim_pass 40
      (record db { certifications = [] })).0
    ≡ err promotion_integrity_error
unfolding program
uncertified = refl

record_claimed_artifact_err_example :
    (record_claimed_artifact encoder certified claim claim_pass 40
      (record db { certifications = [] })).1
    ≡ record db { certifications = [] }
record_claimed_artifact_err_example =
    record_claimed_artifact_err encoder certified claim claim_pass 40
      (record db { certifications = [] }) uncertified

require_certification_after_example :
    (require_certification 20 1 30 41
      (add_certification (record stamp { golden_suite_hash = 41 }) db).1).0
    ≡ ok (record stamp { golden_suite_hash = 41 })
require_certification_after_example =
    require_certification_after (record stamp { golden_suite_hash = 41 }) 20 1 30 41 db refl

add_artifact-get_artifact_example :
    let after = (add_artifact (artifact 8 Status.heuristic) db).1 in
    ((add_artifact (artifact 8 Status.heuristic) db).0 ≡ ok tt)
    × ((get_artifact 8 after).0 ≡ ok (artifact 8 Status.heuristic))
    × (add_artifact (artifact 8 Status.heuristic) after ≡ (err integrity_error, after))
add_artifact-get_artifact_example =
    add_artifact-get_artifact (artifact 8 Status.heuristic) 8 db refl refl
