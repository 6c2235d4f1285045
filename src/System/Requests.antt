-- ===== src/System/Requests.antt =====
-- Every operation that changes the ledger's database, as one request, and a session as a list of
-- requests. An operation that raises is part of a session too: the caller goes on after it.
use empiricist.Base.{ℕ, Bool, Option, List, [], ◌∷◌}
use empiricist.Ledger.Models.{
  Text, Status, Coverage, Artifact, EvidenceRow, Claim, Run, GateKind, Certification,
}
use empiricist.Ledger.Tables.{Db, Vector, Edge, SearchEvent}
use empiricist.Ledger.Artifacts
use empiricist.Ledger.Artifacts.{RelabelEnv}
use empiricist.Ledger.Evidence
use empiricist.Ledger.Certifications
use empiricist.Ledger.Claimed
use empiricist.Ledger.Claimed.{ClaimEnv}
use empiricist.Ledger.Runs
use empiricist.Ledger.Runs.{Outcome}
use empiricist.Ledger.Gates
use empiricist.Ledger.Frontier
use empiricist.Search.Population
use empiricist.Search.Population.{Candidate}

pub data Request : Type 0 where
  add_artifact : Artifact → Request
  relabel_artifact : RelabelEnv → Text → Text → Text → Request
  record_evidence :
      EvidenceRow → Option Status → Option ℕ → Option Coverage → Option Text → Bool → Request
  record_claimed_artifact : ClaimEnv → Artifact → Claim → EvidenceRow → Text → Request
  add_certification : Certification → Request
  add_edge : Edge → Request
  start_run : Run → Request
  finish_run : Text → Outcome → Text → Request
  reconcile_orphans : Text → Request
  open_gate : GateKind → Text → Option Text → Text → Text → Request
  resolve_gate : Text → Bool → Option Text → Text → Request
  consider_frontier : Text → Vector → Request
  consider_population : Text → Text → Candidate → Request
  log_event : SearchEvent → Request

unfoldable pub apply : Request → Db → Db
apply (add_artifact art) d = (Artifacts.add_artifact art d).1
apply (relabel_artifact env id problem note) d =
    (Artifacts.relabel_artifact env id problem note d).1
apply (record_evidence ev new n cover sub w) d = (Evidence.record_evidence ev new n cover sub w d).1
apply (record_claimed_artifact env art claim ev suite) d =
    (Claimed.record_claimed_artifact env art claim ev suite d).1
apply (add_certification cert) d = (Certifications.add_certification cert d).1
apply (add_edge e) d = (Certifications.add_edge e d).1
apply (start_run run) d = (Runs.start_run run d).1
apply (finish_run id outcome now) d = (Runs.finish_run id outcome now d).1
apply (reconcile_orphans now) d = (Runs.reconcile_orphans now d).1
apply (open_gate kind artifact_id note id now) d =
    (Gates.open_gate kind artifact_id note id now d).1
apply (resolve_gate id approve note now) d = (Gates.resolve id approve note now d).1
apply (consider_frontier key vec) d = (Frontier.consider key vec d).1
apply (consider_population improved now c) d = (Population.consider improved now c d).1
apply (log_event e) d = (Population.log_event e d).1

unfoldable pub run : List Request → Db → Db
run [] d = d
run (r ∷ rs) d = run rs (apply r d)
