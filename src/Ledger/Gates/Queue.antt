-- ===== src/Ledger/Gates/Queue.antt =====
-- The queue of gates: one pending gate of a kind on an artifact, and a resolution that stays.
use empiricist.Base.{
  ◌⊎◌, ◌≡◌, refl, sym, inl, inr, subst, Bool, true, false, ◌&&◌, Option, none, some, [], ◌∷◌, ◌++◌,
  any, find, update, All-map, arith, if◌then◌else◌, Option-cases, ◌==◌,
}
use empiricist.Base.Pairwise.{Pairwise, Pairwise-snoc, All-any}
use empiricist.Base.Rows.{find-update, rewrite_at}
use empiricist.Ledger.Models.{Text, Gate, GateKind, pending}
use empiricist.Ledger.Tables.{Db, ok, err, gate_error}
use empiricist.Ledger.Gates.{
  same_kind, is_pending, is_listed, has_pending, find_gate, insert_gate, open_gate, verdict_of,
  resolved, settle,
}

-- Two gates that are not both pending on one artifact with one kind.
abbrev pub Distinct : Gate → Gate → Type 0
Distinct g h =
    (is_pending g.state
      && is_pending h.state
      && same_kind g.kind h.kind
      && (g.artifact_id == h.artifact_id))
    ≡ false

abbrev pub OnePending : Db → Type 0
OnePending d = Pairwise Distinct d.gates

open_gate-gates :
    (kind : GateKind) (artifact_id : Text) (remark : Option Text) (id now : Text) (d : Db)
    → ((open_gate kind artifact_id remark id now d).1 ≡ d)
      ⊎ ((any (is_listed (some pending) (some kind) (some artifact_id)) d.gates ≡ false)
          × (((open_gate kind artifact_id remark id now d).1).gates
              ≡ d.gates
                ++ record {
                  id = id;
                  kind = kind;
                  artifact_id = artifact_id;
                  state = pending;
                  opened_at = now;
                  resolved_at = none;
                  note = remark;
                }
                  ∷ []))
unfolding open_gate has_pending insert_gate
open_gate-gates kind artifact_id remark id now d = ground arith

module _ (id : Text) (approve : Bool) (remark : Option Text) (now : Text) where
  pub resolved_closed : (g : Gate) → is_pending (resolved approve remark now g).state ≡ false
  unfolding resolved
  resolved_closed g = elim approve as (λ b. is_pending (verdict_of b) ≡ false) [
    | true ↦ refl
    | false ↦ refl
  ]

pub find-changed :
    (id : Text) (approve : Bool) (remark : Option Text) (now other : Text) (d : Db)
    → find (λ g. g.id == other) (update (λ h. h.id == id) (resolved approve remark now) d.gates)
      ≡ rewrite_at (other == id) (resolved approve remark now) (find_gate other d)
unfolding resolved
find-changed id approve remark now other d =
    find-update (λ g. g.id) (resolved approve remark now) id other d.gates (λ g. refl)

pub settle-eq :
    (id : Text) (approve : Bool) (remark : Option Text) (now : Text) (d : Db) (g : Gate)
    → d.in_transaction ≡ false
    → find_gate id d ≡ some g
    → settle id approve remark now d ≡ (
      if is_pending g.state then ok tt else err gate_error,
      if is_pending g.state
          then record d { gates = update (λ h. h.id == id) (resolved approve remark now) d.gates }
          else d,
    )
unfolding settle
settle-eq id approve remark now d g idle found = ground (arith, found)

pub settle_pending :
    (id : Text) (approve : Bool) (remark : Option Text) (now : Text) (d : Db) {u : Unit {0}}
    → (settle id approve remark now d).0 ≡ ok u
    → (d.in_transaction ≡ false)
      × ((g : Gate) × (find_gate id d ≡ some g) × (is_pending g.state ≡ true))
unfolding settle
settle_pending id approve remark now d h = elim (Option-cases (find_gate id d)) [
  | inl missing ↦ absurd (ground arith)
  | inr (g, found) ↦ (ground arith, (g, found, ground arith))
]

-- `Gates.open`, also where it raises, leads from a queue without two pending gates of one kind on one
-- artifact to such a queue.
pub open_gate-OnePending :
    (kind : GateKind) (artifact_id : Text) (remark : Option Text) (id now : Text) (d : Db)
    → OnePending d
    → OnePending (open_gate kind artifact_id remark id now d).1
open_gate-OnePending kind artifact_id remark id now d h =
    elim (open_gate-gates kind artifact_id remark id now d) [
      | inl same ↦ subst OnePending (sym same) h
      | inr (free, e) ↦ rw e (
          Pairwise-snoc Distinct d.gates _ h (
            All-map (λ g. is_listed (some pending) (some kind) (some artifact_id) g ≡ false) _
              d.gates (λ g unlisted. ground (arith, unlisted)) (All-any _ d.gates free)))
    ]
