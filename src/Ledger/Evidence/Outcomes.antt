-- ===== src/Ledger/Evidence/Outcomes.antt =====
-- When `record_evidence` of src/empiricist/ledger/db.py returns, and which error it raises otherwise.
use empiricist.Base.{
  ◌≡◌, refl, ◌≢◌, ◌⊎◌, inl, inr, Bool, true, false, ℕ, Option, none, some, List, find, is_some,
  ◌==◌, arith, sym, subst, Bool-cases, Option-cases, if◌then◌else◌,
}
use empiricist.Base.Rows.{find-update}
use empiricist.Ledger.Models.{Text, Status, rank, Verdict, Coverage, Artifact, EvidenceRow, Claim}
use empiricist.Ledger.Tables.{
  Db, Result, ok, err, Error, key_error, integrity_error, promotion_integrity_error,
  terminal_status_error, nested_transaction,
}
use empiricist.Ledger.Artifacts.{find_artifact}
use empiricist.Ledger.Evidence.{
  find_claim, has_run, judge, record_evidence, with_status, with_status-id, check_claim,
  change_status, check_transition, insert_evidence, update_artifact, record_evidence_err,
}
use empiricist.Ledger.Evidence.Transitions.{Allowed, AllowedIf, changed}

-- The claim that is named, if any, is stored and about the artifact.
abbrev pub ClaimFits : Option Text → Text → Db → Type 0
ClaimFits none artifact_id d = Unit
ClaimFits (some id) artifact_id d =
    (c : Claim) × (find_claim id d ≡ some c) × (c.artifact_id ≡ artifact_id)

-- What is wrong where `record_evidence` raises an error.
abbrev pub Reason : EvidenceRow → Option Status → Bool → Db → Error → Type 0
Reason ev new warranted d nested_transaction = d.in_transaction ≡ true
Reason ev new warranted d key_error = find_artifact ev.artifact_id d ≡ none
Reason ev new warranted d promotion_integrity_error =
    (¬ ClaimFits ev.claim_id ev.artifact_id d)
    ⊎ ((a : Artifact) × (find_artifact ev.artifact_id d ≡ some a)
        × (a.status ≢ Status.refuted)
        × ¬ AllowedIf ev.verdict warranted a.status new)
Reason ev new warranted d terminal_status_error =
    (a : Artifact) × (find_artifact ev.artifact_id d ≡ some a)
    × (a.status ≡ Status.refuted)
    × (new ≢ none)
Reason ev new warranted d integrity_error = has_run ev.run_id d ≡ false
Reason ev new warranted d _ = ⊥

-- What a result of `record_evidence` says.
abbrev pub Answers : EvidenceRow → Option Status → Bool → Db → Result (Unit {0}) → Type 0
Answers ev new warranted d (ok _) =
    (d.in_transaction ≡ false)
    × ClaimFits ev.claim_id ev.artifact_id d
    × (has_run ev.run_id d ≡ true)
    × ((a : Artifact) × (find_artifact ev.artifact_id d ≡ some a)
        × AllowedIf ev.verdict warranted a.status new)
Answers ev new warranted d (err e) = Reason ev new warranted d e

check_claim-cases :
    (id : Option Text) (artifact_id : Text) (d : Db)
    → let began = record d { in_transaction = true } in
      ((check_claim id artifact_id began ≡ (ok tt, began)) × ClaimFits id artifact_id d)
      ⊎ ((check_claim id artifact_id began ≡ (err promotion_integrity_error, began))
          × ¬ ClaimFits id artifact_id d)
unfolding check_claim
check_claim-cases none artifact_id d = inl (refl, tt)
check_claim-cases (some id) artifact_id d = elim (Option-cases (find_claim id d)) [
  | inl missing ↦ inr (ground (arith, missing), λ (c, found, _). cc)
  | inr (c, found) ↦ elim (Bool-cases (c.artifact_id == artifact_id)) [
    | inl same ↦ inl (ground (arith, found, same), (c, found, ground (arith, same)))
    | inr other ↦ inr (
      ground (arith, found, other),
      λ (c', found', same). ground (arith, found, found', other, same),
    )
  ]
]

check_transition-cases :
    (old new : Status) (verdict : Verdict) (warranted : Bool) (d : Db)
    → ((check_transition old new verdict warranted d ≡ (ok tt, d))
        × Allowed verdict warranted old new)
      ⊎ ((check_transition old new verdict warranted d ≡ (err terminal_status_error, d))
          × (old ≡ Status.refuted))
      ⊎ ((check_transition old new verdict warranted d ≡ (err promotion_integrity_error, d))
          × (old ≢ Status.refuted)
          × ¬ Allowed verdict warranted old new)
unfolding check_transition rank
check_transition-cases old new verdict warranted d = ground arith

insert_evidence-cases :
    (ev : EvidenceRow) (d : Db) (rows : List Artifact)
    → is_some (find (λ a. a.id == ev.artifact_id) rows) ≡ true
    → ClaimFits ev.claim_id ev.artifact_id d
    → (insert_evidence ev (record d { artifacts = rows; in_transaction = true })).0
      ≡ (if has_run ev.run_id d then ok tt else err integrity_error)
unfolding insert_evidence
insert_evidence-cases ev d rows listed fits = elim (Option-cases ev.claim_id) [
  | inl unnamed ↦ ground (arith, listed, unnamed)
  | inr (id, named) ↦
      let (c, found, _) : ClaimFits (some id) ev.artifact_id d =
        subst (λ o. ClaimFits o ev.artifact_id d) named fits in
      ground (arith, listed, named, found)
]

changed-is_some :
    (id : Text) (new : Option Status) (n : Option ℕ) (cover : Option Coverage) (sub : Option Text)
    (rows : List Artifact)
    → is_some (find (λ a. a.id == id) (changed id new n cover sub rows))
      ≡ is_some (find (λ a. a.id == id) rows)
changed-is_some id none n cover sub rows = refl
changed-is_some id (some new) n cover sub rows = ground (
  arith,
  find-update (λ (a : Artifact). a.id) (with_status new n cover sub) id id rows
      (with_status-id new n cover sub),
)

module _ (ev : EvidenceRow) (n : Option ℕ) (cover : Option Coverage) (sub : Option Text)
    (warranted : Bool) where
  change_status-cases :
      (a : Artifact) (new : Option Status) (d : Db)
      → find_artifact ev.artifact_id d ≡ some a
      → let began = record d { in_transaction = true } in
        ((change_status ev a new n cover sub warranted began ≡ (
          ok tt,
          record began { artifacts = changed ev.artifact_id new n cover sub d.artifacts },
        ))
          × AllowedIf ev.verdict warranted a.status new)
        ⊎ ((e : Error) × (change_status ev a new n cover sub warranted began ≡ (err e, began))
            × Reason ev new warranted d e)
  unfolding change_status update_artifact
  change_status-cases a none d found = inl (refl, tt)
  change_status-cases a (some new) d found =
      let began = record d { in_transaction = true } in
      elim (check_transition-cases a.status new ev.verdict warranted began) [
        | inl (passes, allowed) ↦ inl (ground (arith, passes), allowed)
        | inr (inl (fails, final)) ↦
            inr (terminal_status_error, ground (arith, fails), (a, found, final, λ e. cc))
        | inr (inr (fails, live, refused)) ↦
            inr (promotion_integrity_error, ground (arith, fails), inr (a, found, live, refused))
      ]

  -- What is claimed of a call, by the pair that it evaluates to.
  abbrev Outcome : Option Status → Db → Result (Unit {0}) × Db → Type 0
  Outcome new d (r, after) = Answers ev new warranted d r × ((r ≡ ok tt) ⊎ (after ≡ d))

  refused :
      (new : Option Status) (d : Db) (e : Error)
      → Reason ev new warranted d e
      → (record_evidence ev new n cover sub warranted d).0 ≡ err e
      → Outcome new d (record_evidence ev new n cover sub warranted d)
  refused new d e reason raised = (
    subst (Answers ev new warranted d) (sym raised) reason,
    inr (record_evidence_err ev new n cover sub warranted d raised),
  )

  -- After the checks, only the run that the row names is looked at.
  settled :
      (new : Option Status) (d : Db) (a : Artifact)
      → d.in_transaction ≡ false
      → find_artifact ev.artifact_id d ≡ some a
      → ClaimFits ev.claim_id ev.artifact_id d
      → AllowedIf ev.verdict warranted a.status new
      → (record_evidence ev new n cover sub warranted d).0
        ≡ (if has_run ev.run_id d then ok tt else err integrity_error)
      → Outcome new d (record_evidence ev new n cover sub warranted d)
  settled new d a idle found fits allowed result = elim (Bool-cases (has_run ev.run_id d)) [
    | inl stored ↦
        let returned : (record_evidence ev new n cover sub warranted d).0 ≡ ok tt =
          ground (arith, result, stored) in
        (
          subst (Answers ev new warranted d) (sym returned)
              (idle, fits, stored, (a, found, allowed)),
          inl returned,
        )
    | inr missing ↦ refused new d integrity_error missing (ground (arith, result, missing))
  ]

  -- `record_evidence` returns where no transaction is open, the artifact is stored, the claim that
  -- the row names, if any, is about it, the run that it names, if any, is stored, and the change of
  -- status, if any is asked for, is allowed. Otherwise the database is left as it was, and the error
  -- says what is wrong: an open transaction; a missing artifact (KeyError); a missing or foreign
  -- claim, or a change that is not allowed to an artifact that is not REFUTED
  -- (PromotionIntegrityError); any change to a REFUTED artifact (TerminalStatusError); a missing run
  -- (IntegrityError). No other error is raised.
  pub record_evidence-Answers :
      (new : Option Status) (d : Db)
      → let (r, after) = record_evidence ev new n cover sub warranted d in
        Answers ev new warranted d r × ((r ≡ ok tt) ⊎ (after ≡ d))
  unfolding record_evidence judge
  record_evidence-Answers new d = elim (Bool-cases d.in_transaction) [
    | inl open_one ↦ refused new d nested_transaction open_one (ground (arith, open_one))
    | inr idle ↦ elim (Option-cases (find_artifact ev.artifact_id d)) [
      | inl missing ↦ refused new d key_error missing (ground (arith, idle, missing))
      | inr (a, found) ↦ elim (check_claim-cases ev.claim_id ev.artifact_id d) [
        | inr (bad, misplaced) ↦
            refused new d promotion_integrity_error (inl misplaced)
              (ground (arith, idle, found, bad))
        | inl (good, fits) ↦ elim (change_status-cases a new d found) [
          | inr (e, bad, reason) ↦ refused new d e reason (ground (arith, idle, found, good, bad))
          | inl (moved, allowed) ↦
              let listed = changed-is_some ev.artifact_id new n cover sub d.artifacts in
              let last =
                insert_evidence-cases ev d (changed ev.artifact_id new n cover sub d.artifacts)
                  (ground (arith, listed, found)) fits in
              settled new d a idle found fits allowed
                (ground (arith, idle, found, good, moved, last))
        ]
      ]
    ]
  ]
