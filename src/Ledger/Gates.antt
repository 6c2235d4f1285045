-- ===== src/Ledger/Gates.antt =====
-- src/empiricist/ledger/gates.py: the queue of human gates. A gate's kind is one of the four that
-- `GATE_KINDS` names, or a text that it does not name.
pub mod Queue
pub mod Resolution
use empiricist.Base.{
  Bool, true, false, not, ◌&&◌, Option, none, some, List, [], ◌∷◌, ◌++◌, any, find, keep, update,
  sort_by, is_some, coalesce, ◌==◌,
}
use empiricist.Ledger.Models.{
  Text, Gate, GateKind, reduce, proof_campaign, accept_draft, release, unknown, GateState, pending,
  approved, rejected,
}
use empiricist.Ledger.Tables.{
  Db, key_error, gate_error, integrity_error, Action, pure, select, some_or_raise, ◌>>=◌, ◌>>◌,
  raise_if, write, transaction,
}

abbrev pub same_kind : GateKind → GateKind → Bool
same_kind reduce reduce = true
same_kind proof_campaign proof_campaign = true
same_kind accept_draft accept_draft = true
same_kind release release = true
same_kind (unknown a) (unknown b) = a == b
same_kind _ _ = false

abbrev pub is_pending : GateState → Bool
is_pending pending = true
is_pending _ = false

abbrev is_unknown : GateKind → Bool
is_unknown (unknown _) = true
is_unknown _ = false

abbrev is_in_state : Option GateState → GateState → Bool
is_in_state none s = true
is_in_state (some pending) pending = true
is_in_state (some approved) approved = true
is_in_state (some rejected) rejected = true
is_in_state _ _ = false

abbrev is_of_kind : Option GateKind → GateKind → Bool
is_of_kind none k = true
is_of_kind (some w) k = same_kind k w

abbrev is_at : Option Text → Text → Bool
is_at none id = true
is_at (some w) id = id == w

-- The WHERE clause that `Gates.list` builds from its optional filters.
abbrev pub is_listed : Option GateState → Option GateKind → Option Text → Gate → Bool
is_listed state kind artifact_id g =
    is_in_state state g.state && is_of_kind kind g.kind && is_at artifact_id g.artifact_id

-- `Gates.list`
unfoldable list_gates : Option GateState → Option GateKind → Option Text → Action (List Gate)
list_gates state kind artifact_id =
    select λ d. sort_by (λ g. g.opened_at) (keep (is_listed state kind artifact_id) d.gates)

-- `bool(self.list(state="pending", …))`: some gate passes the filters.
unfoldable pub has_pending : Text → Option GateKind → Action Bool
has_pending artifact_id kind =
    select λ d. any (is_listed (some pending) kind (some artifact_id)) d.gates

abbrev pub find_gate : Text → Db → Option Gate
find_gate id d = find (λ g. g.id == id) d.gates

unfoldable pub insert_gate : Gate → Action (Unit {0})
insert_gate gate = do
  raise_if (is_some (← select (find_gate gate.id))) integrity_error
  write (λ d. record d { gates = d.gates ++ gate ∷ [] })

-- `Gates.open`, with the fresh id and the time as arguments.
unfoldable pub open_gate : GateKind → Text → Option Text → Text → Text → Action Gate
unfolding has_pending insert_gate
open_gate kind artifact_id remark id now = do
  raise_if (is_unknown kind) gate_error
  raise_if (← has_pending artifact_id (some kind)) gate_error
  let gate : Gate = record {
    id = id;
    kind = kind;
    artifact_id = artifact_id;
    state = pending;
    opened_at = now;
    resolved_at = none;
    note = remark;
  }
  transaction (insert_gate gate)
  pure gate

abbrev pub verdict_of : Bool → GateState
verdict_of true = approved
verdict_of false = rejected

unfoldable pub resolved : Bool → Option Text → Text → Gate → Gate
resolved approve remark now g = record g {
  state = verdict_of approve;
  resolved_at = some now;
  note = coalesce remark g.note;
}

-- What `Gates.resolve` does in its transaction.
abbrev pub settlement : Text → Bool → Option Text → Text → Action (Unit {0})
settlement id approve remark now = do
  gate ← some_or_raise (← select (find_gate id)) key_error
  raise_if (not (is_pending gate.state)) gate_error
  write (λ d. record d { gates = update (λ g. g.id == id) (resolved approve remark now) d.gates })

unfoldable pub settle : Text → Bool → Option Text → Text → Action (Unit {0})
unfolding resolved
settle id approve remark now = transaction (settlement id approve remark now)

-- SELECT … WHERE id = ?, of the resolved gate.
abbrev pub reread : Text → Action Gate
reread id = do some_or_raise (← select (find_gate id)) key_error

-- `Gates.resolve`
unfoldable pub resolve : Text → Bool → Option Text → Text → Action Gate
resolve id approve remark now = settle id approve remark now >> reread id
