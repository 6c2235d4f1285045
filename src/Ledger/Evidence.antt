-- ===== src/Ledger/Evidence.antt =====
-- `Ledger.record_evidence` and `Ledger.evidence_for` of src/empiricist/ledger/db.py.
pub mod Outcomes
pub mod Transitions
use empiricist.Base.{
  ◌≡◌, arith, ℕ, Bool, true, not, ◌&&◌, Option, none, some, List, [], ◌∷◌, ◌++◌, any, find, keep,
  update, sort_by, is_some, coalesce, ltb, leb, ◌==◌, if◌then◌else◌,
}
use empiricist.Ledger.Models.{
  Text, Status, rank, Verdict, Coverage, Artifact, EvidenceRow, Claim, is_refuted, is_pass, is_fail,
}
use empiricist.Ledger.Tables.{
  Db, key_error, integrity_error, promotion_integrity_error, terminal_status_error, Action, pure,
  raise, select, some_or_raise, ◌>>=◌, ◌>>◌, raise_if, write, transaction, transaction_atomic, err,
  Error,
}
use empiricist.Ledger.Artifacts.{find_artifact}

abbrev pub find_claim : Text → Db → Option Claim
find_claim id d = find (λ c. c.id == id) d.claims

abbrev pub has_run : Option Text → Db → Bool
has_run none d = true
has_run (some id) d = any (λ r. r.run_id == id) d.runs

abbrev pub has_claim : Option Text → Db → Bool
has_claim none d = true
has_claim (some id) d = is_some (find_claim id d)

abbrev pub has_artifact : Text → Db → Bool
has_artifact id d = is_some (find_artifact id d)

-- INSERT INTO evidence: a reference to a missing artifact, claim or run is refused.
unfoldable pub insert_evidence : EvidenceRow → Action (Unit {0})
insert_evidence ev = do
  raise_if (not (← select (has_artifact ev.artifact_id))) integrity_error
  raise_if (not (← select (has_claim ev.claim_id))) integrity_error
  raise_if (not (← select (has_run ev.run_id))) integrity_error
  write (λ d. record d { evidence = d.evidence ++ ev ∷ [] })

-- The claim that the evidence names, if any, exists and belongs to the artifact.
unfoldable pub check_claim : Option Text → Text → Action (Unit {0})
check_claim none artifact_id = pure tt
check_claim (some id) artifact_id = do
  claim ← some_or_raise (← select (find_claim id)) promotion_integrity_error
  raise_if (not (claim.artifact_id == artifact_id)) promotion_integrity_error

-- The middle `if`/`elif` chain, whose branches all raise PromotionIntegrityError: the verdict that
-- the new status asks for, and the order of ranks.
unfoldable pub refuses : Status → Status → Verdict → Bool
unfolding rank
refuses current new verdict =
    if is_refuted new
    then not (is_fail verdict)
    else if not (is_pass verdict)
    then true
    else ltb (rank new) (rank current)

unfoldable pub check_transition : Status → Status → Verdict → Bool → Action (Unit {0})
unfolding refuses rank
check_transition current new verdict self_validating = do
  raise_if (is_refuted current) terminal_status_error
  raise_if (refuses current new verdict) promotion_integrity_error
  raise_if (not (is_refuted new) && leb (rank Status.verified_n) (rank new) && not self_validating)
      promotion_integrity_error

-- The row that the UPDATE leaves. The two fields of VERIFIED_N are cleared at any other status.
unfoldable pub with_status : Status → Option ℕ → Option Coverage → Option Text → Artifact → Artifact
with_status Status.verified_n n cover sub a = record a {
  status = Status.verified_n;
  status_n = coalesce n a.status_n;
  coverage = coalesce cover a.coverage;
  substatus = sub;
}
with_status new n cover sub a = record a {
  status = new;
  status_n = none;
  coverage = none;
  substatus = sub;
}

unfoldable pub update_artifact : Text → (Artifact → Artifact) → Action (Unit {0})
update_artifact id f = write (λ d. record d { artifacts = update (λ a. a.id == id) f d.artifacts })

unfoldable pub change_status :
    EvidenceRow
    → Artifact
    → Option Status
    → Option ℕ
    → Option Coverage
    → Option Text
    → Bool
    → Action (Unit {0})
unfolding check_transition update_artifact with_status
change_status ev art none n cover sub self_validating = pure tt
change_status ev art (some new) n cover sub self_validating = do
  check_transition art.status new ev.verdict self_validating
  update_artifact ev.artifact_id (with_status new n cover sub)

-- The transaction of `record_evidence`.
unfoldable pub judge :
    EvidenceRow
    → Option Status
    → Option ℕ
    → Option Coverage
    → Option Text
    → Bool
    → Action (Unit {0})
judge ev new n cover sub self_validating = do
  art ← some_or_raise (← select (find_artifact ev.artifact_id)) key_error
  check_claim ev.claim_id ev.artifact_id
  change_status ev art new n cover sub self_validating
  insert_evidence ev

unfoldable pub record_evidence :
    EvidenceRow
    → Option Status
    → Option ℕ
    → Option Coverage
    → Option Text
    → Bool
    → Action (Unit {0})
record_evidence ev new n cover sub self_validating =
    transaction (judge ev new n cover sub self_validating)

unfoldable evidence_for : Text → Action (List EvidenceRow)
evidence_for id =
    select λ d. sort_by (λ e. e.created_at) (keep (λ e. e.artifact_id == id) d.evidence)

pub with_status-status :
    (new : Status) (n : Option ℕ) (cover : Option Coverage) (sub : Option Text) (a : Artifact)
    → (with_status new n cover sub a).status ≡ new
unfolding with_status
with_status-status new n cover sub a = ground arith

pub with_status-id :
    (new : Status) (n : Option ℕ) (cover : Option Coverage) (sub : Option Text) (a : Artifact)
    → (with_status new n cover sub a).id ≡ a.id
unfolding with_status
with_status-id new n cover sub a = ground arith

-- A `record_evidence` that raises leaves the database as it was.
pub record_evidence_err :
    (ev : EvidenceRow) (new : Option Status) (n : Option ℕ) (cover : Option Coverage)
    (sub : Option Text) (w : Bool) (d : Db) {e : Error}
    → (record_evidence ev new n cover sub w d).0 ≡ err e
    → (record_evidence ev new n cover sub w d).1 ≡ d
unfolding record_evidence
record_evidence_err ev new n cover sub w d h = transaction_atomic (judge ev new n cover sub w) d h
