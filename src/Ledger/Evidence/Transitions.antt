-- ===== src/Ledger/Evidence/Transitions.antt =====
-- What `record_evidence` may do to a status.
use empiricist.Base.{
  List, [], ◌∷◌, ◌++◌, update, ℕ, ◌≤◌, ◌<◌, ◌≡◌, refl, ◌≢◌, ◌⊎◌, inl, inr, Bool, true, false,
  Option, none, some, arith, ◌==◌, Option-cases,
}
use empiricist.Ledger.Models.{Text, Status, rank, Verdict, Coverage, Artifact, EvidenceRow}
use empiricist.Ledger.Tables.{Db, ok}
use empiricist.Ledger.Artifacts.{find_artifact}
use empiricist.Ledger.Evidence.{
  judge, record_evidence, with_status, check_claim, change_status, check_transition,
  insert_evidence, update_artifact,
}

-- The lattice: REFUTED is terminal and wants FAIL; any other move wants PASS, keeps the rank or
-- raises it, and is warranted where it reaches VERIFIED_N or above.
abbrev pub Allowed : Verdict → Bool → Status → Status → Type 0
Allowed verdict warranted old new =
    (old ≢ Status.refuted)
    × (((new ≡ Status.refuted) × (verdict ≡ Verdict.fail))
        ⊎ ((new ≢ Status.refuted)
            × (verdict ≡ Verdict.pass)
            × (rank old ≤ rank new)
            × ((rank new < rank Status.verified_n) ⊎ (warranted ≡ true))))

check_transition-Allowed :
    (old new : Status) (verdict : Verdict) (warranted : Bool) (d : Db)
    → (check_transition old new verdict warranted d).0 ≡ ok tt
    → Allowed verdict warranted old new
unfolding check_transition rank
check_transition-Allowed old new verdict warranted d h = ground arith

check_transition_same :
    (old new : Status) (verdict : Verdict) (warranted : Bool) (d : Db)
    → (check_transition old new verdict warranted d).1 ≡ d
unfolding check_transition rank
check_transition_same old new verdict warranted d = ground arith

check_claim_same : (c : Option Text) (id : Text) (d : Db) → (check_claim c id d).1 ≡ d
unfolding check_claim
check_claim_same none id d = refl
check_claim_same (some c) id d = ground arith

insert_evidence_ok :
    (ev : EvidenceRow) (d : Db)
    → (insert_evidence ev d).0 ≡ ok tt
    → (insert_evidence ev d).1 ≡ record d { evidence = d.evidence ++ ev ∷ [] }
unfolding insert_evidence
insert_evidence_ok ev d h = ground arith

-- The artifacts after the optional change of status.
abbrev pub changed :
    Text → Option Status → Option ℕ → Option Coverage → Option Text → List Artifact → List Artifact
changed id none n cover sub rows = rows
changed id (some new) n cover sub rows = update (λ a. a.id == id) (with_status new n cover sub) rows

abbrev pub AllowedIf : Verdict → Bool → Status → Option Status → Type 0
AllowedIf verdict warranted old none = Unit
AllowedIf verdict warranted old (some new) = Allowed verdict warranted old new

module _ (ev : EvidenceRow) (n : Option ℕ) (cover : Option Coverage) (sub : Option Text)
    (warranted : Bool) where
  change_status_ok :
      (a : Artifact) (new : Option Status) (d : Db)
      → (change_status ev a new n cover sub warranted d).0 ≡ ok tt
      → AllowedIf ev.verdict warranted a.status new
        × ((change_status ev a new n cover sub warranted d).1
            ≡ record d { artifacts = changed ev.artifact_id new n cover sub d.artifacts })
  unfolding change_status update_artifact
  change_status_ok a none d h = (tt, refl)
  change_status_ok a (some new) d h = ground (
    arith,
    check_transition-Allowed a.status new ev.verdict warranted d,
    check_transition_same a.status new ev.verdict warranted d,
  )

  -- A `record_evidence` that returns: the artifact is stored; where a new status is asked for, the
  -- stored one is not REFUTED, and either the new one is REFUTED and the verdict FAIL, or the
  -- verdict is PASS, the rank is no lower, and the call is warranted or the rank is below
  -- VERIFIED_N; and the call has written the new status and the evidence row, and nothing else.
  pub record_evidence_ok :
      (new : Option Status) (d : Db)
      → (record_evidence ev new n cover sub warranted d).0 ≡ ok tt
      → (a : Artifact) × (find_artifact ev.artifact_id d ≡ some a)
        × AllowedIf ev.verdict warranted a.status new
        × ((record_evidence ev new n cover sub warranted d).1 ≡ record d {
          artifacts = changed ev.artifact_id new n cover sub d.artifacts;
          evidence = d.evidence ++ ev ∷ [];
          in_transaction = false;
        })
  unfolding record_evidence judge
  record_evidence_ok new d h = elim (Option-cases (find_artifact ev.artifact_id d)) [
    | inl missing ↦ ground arith
    | inr (a, found) ↦
        let began = record d { in_transaction = true } in
        let e1 = check_claim_same ev.claim_id ev.artifact_id began in
        let e2 = change_status_ok a new began in
        let e3 = insert_evidence_ok ev (change_status ev a new n cover sub warranted began).1 in
        (a, found, ground (arith, e1, e2, e3), ground (arith, e1, e2, e3))
  ]
