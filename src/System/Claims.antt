-- ===== src/System/Claims.antt =====
-- What `record_claimed_artifact` may do to the artifacts and the evidence.
use mathlib.Core.List.{append-nil}
use empiricist.Base.{
  ◌≡◌, refl, sym, ◌∙◌, ap, ◌≢◌, inl, inr, Bool, true, false, Option, none, some, List, [], ◌∷◌,
  ◌++◌, any, update, arith, ltb, ◌==◌, ◌&&◌, if◌then◌else◌, Bool-cases,
}
use empiricist.Base.Rows.{any-append_last, any_weaken}
use empiricist.Ledger.Models.{Text, Status, rank, Verdict, Artifact, EvidenceRow, Claim, is_pass}
use empiricist.Ledger.Tables.{Db, Result-cases}
use empiricist.Ledger.Artifacts.{find_artifact}
use empiricist.Ledger.Claimed.{
  ClaimEnv, record_claimed_artifact, raised, raised-status, raised-id, is_duplicate,
}
use empiricist.Ledger.Claimed.Effect.{
  Coherent, Admits, stored_artifacts, stored_evidence, record_claimed_artifact_ok,
}
use empiricist.Ledger.Claimed.Refusal.{record_claimed_artifact_err}
use empiricist.System.Effects.{
  supports, Backed, Climbs, Kept, Effect, Same-Effect, update-Kept, append-Kept,
}

-- A status of a higher rank is no REFUTED.
supports_above :
    (old new : Status) (v : Verdict) → ltb (rank old) (rank new) ≡ true → supports new v ≡ is_pass v
unfolding rank
supports_above old new v h = ground arith

above-Climbs :
    (old new : Status) → old ≢ Status.refuted → ltb (rank old) (rank new) ≡ true → Climbs old new
above-Climbs old new live h = ground arith

module _ (env : ClaimEnv) (art : Artifact) (claim : Claim) (ev : EvidenceRow) (suite json : Text)
    (coherent : Coherent env art claim ev suite) where
  -- The PASS is there, as a new row or as one that was recorded before.
  passes :
      (rows : List EvidenceRow) (known : Bool)
      → any (is_duplicate ev) rows ≡ known
      → any (λ e. e.artifact_id == art.id && is_pass e.verdict) (stored_evidence ev known rows)
        ≡ true
  passes rows true h =
      any_weaken (is_duplicate ev) (λ e. e.artifact_id == art.id && is_pass e.verdict) rows weaker h
    where
      weaker :
          (e : EvidenceRow)
          → is_duplicate ev e ≡ true
          → (e.artifact_id == art.id && is_pass e.verdict) ≡ true
      weaker e p = ground arith
  passes rows false h =
      any-append_last (λ e. e.artifact_id == art.id && is_pass e.verdict) rows ev (ground arith)

  stored_evidence_grows :
      (known : Bool) (rows : List EvidenceRow)
      → (more : List EvidenceRow) × (stored_evidence ev known rows ≡ rows ++ more)
  stored_evidence_grows true rows = ([], sym (append-nil rows))
  stored_evidence_grows false rows = (ev ∷ [], refl)

  Backed-above :
      (old : Status) (d : Db)
      → ltb (rank old) (rank art.status) ≡ true
      → any (λ e. e.artifact_id == art.id && is_pass e.verdict) d.evidence ≡ true
      → Backed art.id art.status d
  Backed-above old d up =
      any_weaken (λ e. e.artifact_id == art.id && is_pass e.verdict)
        (λ e. e.artifact_id == art.id && supports art.status e.verdict) d.evidence
        (λ e p. ground (arith, supports_above old art.status e.verdict up))

  stored-Kept :
      (d d' : Db) (old : Option Artifact)
      → find_artifact art.id d ≡ old
      → Admits env art old
      → d'.artifacts ≡ stored_artifacts art old d.artifacts
      → any (λ e. e.artifact_id == art.id && is_pass e.verdict) d'.evidence ≡ true
      → (id : Text) (a : Artifact) → find_artifact id d ≡ some a
      → Kept id a d'
  stored-Kept d d' none found admitted arts passed id a h = append-Kept (art ∷ []) d d' arts id a h
  stored-Kept d d' (some old) found admitted arts passed id a h =
      elim (Bool-cases (ltb (rank old.status) (rank art.status))) [
        | inl up ↦
            update-Kept art.id (raised art) d d' (raised-id art)
              (arts
                ∙ ap
                    (λ (b : Bool).
                      if b
                      then update (λ a. a.id == art.id) (raised art) d.artifacts
                      else d.artifacts)
                    up)
              (λ x g.
                let same : old ≡ x = cc (found, g) in
                rw (raised-status art x) (
                  inr (
                    rw (← same) (above-Climbs old.status art.status admitted.0 up),
                    Backed-above old.status d' up passed,
                  )))
              id a h
        | inr down ↦ (a, rw (arts, down) h, inl refl)
      ]

module _ (env : ClaimEnv) (art : Artifact) (claim : Claim) (ev : EvidenceRow) (suite : Text) where
  pub record_claimed_artifact-Effect :
      (d : Db) → Effect d (record_claimed_artifact env art claim ev suite d).1
  record_claimed_artifact-Effect d =
      elim (Result-cases (record_claimed_artifact env art claim ev suite d).0) [
        | inl (a, h) ↦
            let (json, _, coherent, _, admitted, _, final, _) =
              record_claimed_artifact_ok env art claim ev suite d h in
            let d' = (record_claimed_artifact env art claim ev suite d).1 in
            let known = any (is_duplicate ev) d.evidence in
            let (more, grows) =
              stored_evidence_grows env art claim ev suite json coherent known d.evidence in
            let evidence = ap (λ (x : Db). x.evidence) final in
            record {
              more = more;
              grows = evidence ∙ grows;
              kept =
                  stored-Kept env art claim ev suite json coherent d d' (find_artifact art.id d)
                    refl admitted (ap (λ (x : Db). x.artifacts) final)
                    (rw evidence
                      (passes env art claim ev suite json coherent d.evidence known refl));
            }
        | inr (_, h) ↦
            let same = record_claimed_artifact_err env art claim ev suite d h in
            Same-Effect (ap (λ (x : Db). x.artifacts) same, ap (λ (x : Db). x.evidence) same)
      ]
