-- ===== src/System/Evidence.antt =====
-- What `record_evidence` may do to the artifacts and the evidence.
use empiricist.Base.{
  ◌≡◌, refl, ap, ◌⊎◌, inl, inr, Bool, true, Option, none, some, [], ◌∷◌, ◌++◌, arith, ◌==◌, ◌&&◌,
  ==_refl, ℕ,
}
use empiricist.Base.Rows.{any-append_last}
use empiricist.Ledger.Models.{Text, Status, Coverage, Verdict, Artifact, EvidenceRow}
use empiricist.Ledger.Tables.{Db, Result-cases}
use empiricist.Ledger.Artifacts.{find_artifact}
use empiricist.Ledger.Evidence.{
  record_evidence, with_status, with_status-status, with_status-id, record_evidence_err,
}
use empiricist.Ledger.Evidence.Transitions.{Allowed, AllowedIf, changed, record_evidence_ok}
use empiricist.System.Effects.{supports, Backed, Climbs, Kept, Effect, Same-Effect, update-Kept}

Allowed-Climbs : (v : Verdict) (w : Bool) (old new : Status) → Allowed v w old new → Climbs old new
Allowed-Climbs v w old new h = ground arith

Allowed-supports :
    (v : Verdict) (w : Bool) (old new : Status) → Allowed v w old new → supports new v ≡ true
Allowed-supports v w old new h = ground arith

module _ (ev : EvidenceRow) (n : Option ℕ) (cover : Option Coverage) (sub : Option Text)
    (w : Bool) where
  moves-Kept :
      (new : Option Status) (d d' : Db) (a : Artifact)
      → find_artifact ev.artifact_id d ≡ some a
      → AllowedIf ev.verdict w a.status new
      → d'.artifacts ≡ changed ev.artifact_id new n cover sub d.artifacts
      → d'.evidence ≡ d.evidence ++ ev ∷ []
      → (id : Text) (b : Artifact) → find_artifact id d ≡ some b
      → Kept id b d'
  moves-Kept none d d' a found allowed arts evs id b h = (b, rw arts h, inl refl)
  moves-Kept (some new) d d' a found allowed arts evs id b h =
      update-Kept ev.artifact_id (with_status new n cover sub) d d' (with_status-id new n cover sub)
        arts moves id b h
    where
      backed : Backed ev.artifact_id new d'
      backed = rw evs (
          any-append_last (λ e. e.artifact_id == ev.artifact_id && supports new e.verdict)
            d.evidence ev
            (rw (==_refl ev.artifact_id) (Allowed-supports ev.verdict w a.status new allowed)))

      moves :
          (x : Artifact)
          → find_artifact ev.artifact_id d ≡ some x
          → ((with_status new n cover sub x).status ≡ x.status)
            ⊎ (Climbs x.status (with_status new n cover sub x).status
                × Backed ev.artifact_id (with_status new n cover sub x).status d')
      moves x g =
          let same : a ≡ x = cc in
          rw (with_status-status new n cover sub x)
            (inr (rw (← same) (Allowed-Climbs ev.verdict w a.status new allowed), backed))

  pub record_evidence-Effect :
      (new : Option Status) (d : Db) → Effect d (record_evidence ev new n cover sub w d).1
  record_evidence-Effect new d = elim (Result-cases (record_evidence ev new n cover sub w d).0) [
    | inl (_, h) ↦
        let (a, found, allowed, e) = record_evidence_ok ev n cover sub w new d h in
        record {
          more = ev ∷ [];
          grows = ap (λ (x : Db). x.evidence) e;
          kept =
              moves-Kept new d (record_evidence ev new n cover sub w d).1 a found allowed
                (ap (λ (x : Db). x.artifacts) e) (ap (λ (x : Db). x.evidence) e);
        }
    | inr (_, h) ↦
        let same = record_evidence_err ev new n cover sub w d h in
        Same-Effect (ap (λ (x : Db). x.artifacts) same, ap (λ (x : Db). x.evidence) same)
  ]
