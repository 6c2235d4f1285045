-- ===== src/Campaign/Scheduler/Parking.antt =====
-- `Scheduler.maybe_open_proof_gate` of src/empiricist/campaign/scheduler.py: it parks the oldest
-- conjectured artifact at a gate. The note is an argument, as are the id and the time of the gate.
use empiricist.Base.{
  ◌≡◌, refl, sym, ◌∙◌, ap, inl, inr, ◌⊎◌, Bool, true, false, Option, none, some, List, [], ◌∷◌, any,
  arith, Bool-cases, ==_refl, sort_by, keep,
}
use empiricist.Base.Rows.{any-append_last}
use empiricist.Ledger.Models.{Text, Status, Artifact, Gate, GateKind, pending}
use empiricist.Ledger.Tables.{Db, ok, Action, pure, ◌>>=◌, >>=-ok}
use empiricist.Ledger.Artifacts.{find_artifacts, matches_status}
use empiricist.Ledger.Gates.{has_pending, open_gate, insert_gate, is_listed, same_kind}

-- With the oldest conjectured artifact, if there is one.
unfoldable pub park : Option Text → Text → Text → List Artifact → Action (Option Text)
park remark id now [] = pure none
park remark id now (first ∷ rest) = do
  parked ← has_pending first.id (some GateKind.proof_campaign)
  open_unless parked first
  where
    open_unless : Bool → Artifact → Action (Option Text)
    open_unless true first = pure none
    open_unless false first = do
      gate ← open_gate GateKind.proof_campaign first.id remark id now
      pure (some gate.id)

unfoldable pub maybe_open_proof_gate : Option Text → Text → Text → Action (Option Text)
unfolding park
maybe_open_proof_gate remark id now = do
  conjectured ← find_artifacts none none (some Status.conjectured)
  park remark id now conjectured

same_kind_refl : (k : GateKind) → same_kind k k ≡ true
same_kind_refl k = ground arith

open_gate_ok :
    (kind : GateKind) (artifact_id : Text) (remark : Option Text) (id now : Text) (d : Db)
    {g : Gate}
    → (open_gate kind artifact_id remark id now d).0 ≡ ok g
    → let after = (open_gate kind artifact_id remark id now d).1 in
      (after.artifacts ≡ d.artifacts)
      × (any (is_listed (some pending) (some kind) (some artifact_id)) after.gates ≡ true)
unfolding open_gate insert_gate has_pending
open_gate_ok kind artifact_id remark id now d h =
    let gate : Gate = record {
      id = id;
      kind = kind;
      artifact_id = artifact_id;
      state = pending;
      opened_at = now;
      resolved_at = none;
      note = remark;
    } in
    let listed = is_listed (some pending) (some kind) (some artifact_id) in
    let own : listed gate ≡ true = ground (arith, same_kind_refl kind, ==_refl artifact_id) in
    (ground arith, ground (arith, any-append_last listed d.gates gate own))

abbrev conjectured_of : List Artifact → List Artifact
conjectured_of rows =
    sort_by (λ a. a.created_at) (keep (λ a. matches_status (some Status.conjectured) a.status) rows)

abbrev conjectured_in : Db → List Artifact
conjectured_in d = conjectured_of d.artifacts

List-cases :
    (xs : List Artifact) → (xs ≡ []) ⊎ ((x : Artifact) × (ys : List Artifact) × (xs ≡ x ∷ ys))
List-cases [] = inl refl
List-cases (x ∷ xs) = inr (x, xs, refl)

abbrev is_parked : Artifact → Db → Bool
is_parked first d =
    any (is_listed (some pending) (some GateKind.proof_campaign) (some first.id)) d.gates

maybe-parked :
    (remark : Option Text) (id now : Text) (d : Db) (first : Artifact) (rest : List Artifact)
    → conjectured_in d ≡ first ∷ rest
    → is_parked first d ≡ true
    → maybe_open_proof_gate remark id now d ≡ (ok none, d)
unfolding maybe_open_proof_gate find_artifacts has_pending
maybe-parked remark id now d first rest e parked = ground (arith, e, parked)

maybe-empty :
    (remark : Option Text) (id now : Text) (d : Db)
    → conjectured_in d ≡ []
    → maybe_open_proof_gate remark id now d ≡ (ok none, d)
unfolding maybe_open_proof_gate find_artifacts
maybe-empty remark id now d e = ground (arith, e)

maybe-open :
    (remark : Option Text) (id now : Text) (d : Db) (first : Artifact) (rest : List Artifact)
    → conjectured_in d ≡ first ∷ rest
    → is_parked first d ≡ false
    → maybe_open_proof_gate remark id now d
      ≡ (open_gate GateKind.proof_campaign first.id remark id now >>= λ (g : Gate).
            pure (some g.id))
          d
unfolding maybe_open_proof_gate find_artifacts has_pending
maybe-open remark id now d first rest e free = ground (arith, e, free)

-- After a `maybe_open_proof_gate` that returned, every further call returns None and changes nothing.
pub maybe_open_proof_gate_once :
    (remark remark' : Option Text) (id id' now now' : Text) (d : Db) {answer : Option Text}
    → (maybe_open_proof_gate remark id now d).0 ≡ ok answer
    → let after = (maybe_open_proof_gate remark id now d).1 in
      maybe_open_proof_gate remark' id' now' after ≡ (ok none, after)
maybe_open_proof_gate_once remark remark' id id' now now' d {answer} h =
    elim (List-cases (conjectured_in d)) [
      | inl nothing ↦
          rw (maybe-empty remark id now d nothing) (maybe-empty remark' id' now' d nothing)
      | inr (first, rest, e) ↦ elim (Bool-cases (is_parked first d)) [
        | inl parked ↦
            rw (maybe-parked remark id now d first rest e parked)
              (maybe-parked remark' id' now' d first rest e parked)
        | inr free ↦
            let opening = open_gate GateKind.proof_campaign first.id remark id now in
            let same = maybe-open remark id now d first rest e free in
            let (g, opened, _, final) =
              >>=-ok opening (λ (g : Gate). pure (some g.id)) d {b = answer}
                (ap (λ r. r.0) (sym same) ∙ h) in
            let (artifacts, pending_now) =
              open_gate_ok GateKind.proof_campaign first.id remark id now d opened in
            let after : (maybe_open_proof_gate remark id now d).1 ≡ (opening d).1 =
              ap (λ r. r.1) same ∙ final in
            rw after (
              maybe-parked remark' id' now' (opening d).1 first rest
                (ap conjectured_of artifacts ∙ e) pending_now)
      ]
    ]
