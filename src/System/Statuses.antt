-- ===== src/System/Statuses.antt =====
-- What happens to the status of an artifact over a session.
use empiricist.Base.{◌≡◌, refl, ◌∙◌, ◌⊎◌, inl, inr, some, List, [], ◌∷◌, ◌++◌, arith, ◌&&◌, ◌==◌}
use empiricist.Base.Rows.{any-append}
use empiricist.Ledger.Models.{Text, Status, Artifact, EvidenceRow}
use empiricist.Ledger.Tables.{Db}
use empiricist.Ledger.Artifacts.{find_artifact}
use empiricist.System.Requests.{
  Request, add_artifact, relabel_artifact, record_evidence, record_claimed_artifact,
  add_certification, add_edge, start_run, finish_run, reconcile_orphans, open_gate, resolve_gate,
  consider_frontier, consider_population, log_event, apply, run,
}
use empiricist.System.Frames
use empiricist.System.Effects.{
  supports, Backed, Climbs, Kept, Effect, Same-Effect, add_artifact-Effect, relabel_artifact-Effect,
}
use empiricist.System.Evidence.{record_evidence-Effect}
use empiricist.System.Claims.{record_claimed_artifact-Effect}

apply-Effect : (r : Request) (d : Db) → Effect d (apply r d)
unfolding apply
apply-Effect (add_artifact art) d = add_artifact-Effect art d
apply-Effect (relabel_artifact env id problem remark) d =
    relabel_artifact-Effect env id problem remark d
apply-Effect (record_evidence ev new n cover sub w) d =
    record_evidence-Effect ev n cover sub w new d
apply-Effect (record_claimed_artifact env art claim ev suite) d =
    record_claimed_artifact-Effect env art claim ev suite d
apply-Effect (add_certification c) d = Same-Effect (Frames.add_certification-Same c d)
apply-Effect (add_edge e) d = Same-Effect (Frames.add_edge-Same e d)
apply-Effect (start_run r) d = Same-Effect (Frames.start_run-Same r d)
apply-Effect (finish_run id o now) d = Same-Effect (Frames.finish_run-Same id o now d)
apply-Effect (reconcile_orphans now) d = Same-Effect (Frames.reconcile_orphans-Same now d)
apply-Effect (open_gate kind at remark id now) d =
    Same-Effect (Frames.open_gate-Same kind at remark id now d)
apply-Effect (resolve_gate id approve remark now) d =
    Same-Effect (Frames.resolve-Same id approve remark now d)
apply-Effect (consider_frontier key vec) d = Same-Effect (Frames.consider_frontier-Same key vec d)
apply-Effect (consider_population improved now c) d =
    Same-Effect (Frames.consider_population-Same improved now c d)
apply-Effect (log_event e) d = Same-Effect (Frames.log_event-Same e d)

Backed-grows :
    (id : Text) (s : Status) (d d' : Db) (more : List EvidenceRow)
    → d'.evidence ≡ d.evidence ++ more
    → Backed id s d
    → Backed id s d'
Backed-grows id s d d' more e h =
    rw e (any-append (λ x. x.artifact_id == id && supports s x.verdict) d.evidence more h)

Climbs-trans : (a b c : Status) → Climbs a b → Climbs b c → Climbs a c
Climbs-trans a b c p q = ground arith

module _ (id : Text) (d d' : Db) (step : Effect d d') (a : Artifact) where
  Kept-trans :
      (b : Artifact)
      → ((b.status ≡ a.status) ⊎ (Climbs a.status b.status × Backed id b.status d))
      → Kept id b d'
      → Kept id a d'
  Kept-trans b (inl same) (c, found, inl again) = (c, found, inl (again ∙ same))
  Kept-trans b (inl same) (c, found, inr (climbs, backed)) =
      (c, found, inr (rw same at climbs, backed))
  Kept-trans b (inr (climbs, backed)) (c, found, inl again) = (
    c,
    found,
    inr (rw again climbs, rw again (Backed-grows id b.status d d' step.more step.grows backed)),
  )
  Kept-trans b (inr (climbs, backed)) (c, found, inr (more, backed')) =
      (c, found, inr (Climbs-trans a.status b.status c.status climbs more, backed'))

Kept-step : (id : Text) (d d' : Db) (a : Artifact) → Effect d d' → Kept id a d → Kept id a d'
Kept-step id d d' a step (b, found, moved) =
    Kept-trans id d d' step a b moved (step.kept id b found)

run-Kept_from :
    (rs : List Request) (id : Text) (a : Artifact) (d : Db) → Kept id a d → Kept id a (run rs d)
unfolding run
run-Kept_from [] id a d h = h
run-Kept_from (r ∷ rs) id a d h =
    run-Kept_from rs id a (apply r d) (Kept-step id d (apply r d) a (apply-Effect r d) h)

-- Over any session an artifact that the ledger holds is held to the end. Its status at the end is the
-- one at the start; or the one at the start was not REFUTED, and the one at the end is REFUTED with a
-- FAIL evidence row of the artifact in the ledger, or has a rank that is no lower with a PASS
-- evidence row of the artifact in the ledger.
pub run-Kept :
    (rs : List Request) (id : Text) (a : Artifact) (d : Db)
    → find_artifact id d ≡ some a
    → Kept id a (run rs d)
run-Kept rs id a d found = run-Kept_from rs id a d (a, found, inl refl)
