-- ===== src/Ledger/Gates/Resolution.antt =====
-- `Gates.resolve`: what it does to the gate, and that it does it once.
use empiricist.Base.{
  ◌≡◌, refl, sym, ap, ◌∙◌, ◌≢◌, ◌⊎◌, inl, inr, subst, Bool, true, false, Option, none, some, update,
  coalesce, arith, if◌then◌else◌, Bool-cases, Option-cases, length, ◌==◌, ==_refl, ==_iff,
}
use empiricist.Base.Rows.{rewrite_at, length-update}
use empiricist.Ledger.Models.{Text, Gate, GateState, pending, approved, rejected}
use empiricist.Ledger.Tables.{Db, Result, ok, err, key_error, gate_error, >>=-ok, >>=-err_eq}
use empiricist.Ledger.Gates.{is_pending, find_gate, resolved, settle, reread, resolve}
use empiricist.Ledger.Gates.Queue.{resolved_closed, find-changed, settle-eq, settle_pending}

resolve-eq :
    (id : Text) (approve : Bool) (remark : Option Text) (now : Text) (d : Db) (g : Gate)
    → d.in_transaction ≡ false
    → find_gate id d ≡ some g
    → is_pending g.state ≡ true
    → resolve id approve remark now d ≡ (
      ok (resolved approve remark now g),
      record d { gates = update (λ h. h.id == id) (resolved approve remark now) d.gates },
    )
unfolding resolve
resolve-eq id approve remark now d g idle found waits = ground (
  arith,
  settle-eq id approve remark now d g idle found,
  waits,
  find-changed id approve remark now id d,
  found,
  ==_refl id,
)

resolve_refused :
    (id : Text) (approve : Bool) (remark : Option Text) (now : Text) (d : Db) (g : Gate)
    → d.in_transaction ≡ false
    → find_gate id d ≡ some g
    → is_pending g.state ≡ false
    → resolve id approve remark now d ≡ (err gate_error, d)
unfolding resolve
resolve_refused id approve remark now d g idle found closed =
    ground (arith, settle-eq id approve remark now d g idle found, closed)

resolve-settle_ok :
    (id : Text) (approve : Bool) (remark : Option Text) (now : Text) (d : Db) {h : Gate}
    → (resolve id approve remark now d).0 ≡ ok h
    → (settle id approve remark now d).0 ≡ ok tt
unfolding resolve
resolve-settle_ok id approve remark now d {h} done =
    (>>=-ok (settle id approve remark now) (λ _. reread id) d {b = h} done).1

find-resolved :
    (id : Text) (approve : Bool) (remark : Option Text) (now other : Text) (d : Db) (g : Gate)
    → find_gate id d ≡ some g
    → find_gate other
        (record d { gates = update (λ h. h.id == id) (resolved approve remark now) d.gates })
      ≡ (if other == id then some (resolved approve remark now g) else find_gate other d)
find-resolved id approve remark now other d g found =
    find-changed id approve remark now other d ∙ by_place
  where
    by_place :
        rewrite_at (other == id) (resolved approve remark now) (find_gate other d)
        ≡ (if other == id then some (resolved approve remark now g) else find_gate other d)
    by_place = elim (Bool-cases (other == id)) [
      | inl at ↦
          let here : find_gate other d ≡ some g =
            subst (λ k. find_gate k d ≡ some g) (sym ((==_iff other id).0 at)) found in
          ground (arith, at, here)
      | inr off ↦ elim (Option-cases (find_gate other d)) [
        | inl missing ↦ ground (arith, off, missing)
        | inr (k, there) ↦ ground (arith, off, there)
      ]
    ]

-- A `Gates.resolve` that returns was called on a pending gate; the gate that it returns is that gate
-- resolved; afterwards its id finds the returned gate and every other id finds what it found before;
-- and any further `Gates.resolve` of the id raises GateError and changes nothing.
pub resolve_ok :
    (id : Text) (approve : Bool) (remark : Option Text) (now : Text) (d : Db) (other : Text)
    (again : Bool) (text : Option Text) (later : Text) {h : Gate}
    → (resolve id approve remark now d).0 ≡ ok h
    → let after = (resolve id approve remark now d).1 in
      ((g : Gate) × (find_gate id d ≡ some g)
        × (is_pending g.state ≡ true)
        × (h ≡ resolved approve remark now g))
      × (find_gate other after ≡ (if other == id then some h else find_gate other d))
      × (resolve id again text later after ≡ (err gate_error, after))
resolve_ok id approve remark now d other again text later {h} done =
    let (idle, (g, found, waits)) =
      settle_pending id approve remark now d (resolve-settle_ok id approve remark now d done) in
    let e = resolve-eq id approve remark now d g idle found waits in
    let same : h ≡ resolved approve remark now g = ground (arith, e, done) in
    let at_id = find-changed id approve remark now id d in
    rw e (
      (g, found, waits, same),
      rw same (find-resolved id approve remark now other d g found),
      resolve_refused id again text later _ (resolved approve remark now g) idle
          (ground (arith, at_id, found, ==_refl id)) (resolved_closed id approve remark now g),
    )

-- The gate after an answer.
abbrev pub answered : Bool → Option Text → Text → Gate → Gate
answered approve remark now g = record {
  id = g.id;
  kind = g.kind;
  artifact_id = g.artifact_id;
  state = if approve then approved else rejected;
  opened_at = g.opened_at;
  resolved_at = some now;
  note = coalesce remark g.note;
}

-- What `Gates.resolve` comes to, by the gate that its id finds.
abbrev pub Resolves :
    Text → Bool → Option Text → Text → Text → Db → Option Gate → Result Gate × Db → Type 0
Resolves id approve remark now other d none (r, after) = (r ≡ err key_error) × (after ≡ d)
Resolves id approve remark now other d (some g) (r, after) =
    ((g.state ≢ pending) × (r ≡ err gate_error) × (after ≡ d))
    ⊎ ((g.state ≡ pending)
        × (r ≡ ok (answered approve remark now g))
        × (after ≡ record d { gates = after.gates })
        × (length after.gates ≡ length d.gates)
        × (find_gate other after
            ≡ (if other == id then some (answered approve remark now g) else find_gate other d)))

resolved-answered :
    (approve : Bool) (remark : Option Text) (now : Text) (g : Gate)
    → resolved approve remark now g ≡ answered approve remark now g
unfolding resolved
resolved-answered true remark now g = refl
resolved-answered false remark now g = refl

pending-cases :
    (s : GateState)
    → ((is_pending s ≡ true) × (s ≡ pending)) ⊎ ((is_pending s ≡ false) × (s ≢ pending))
pending-cases s = ground arith

settle_missing :
    (id : Text) (approve : Bool) (remark : Option Text) (now : Text) (d : Db)
    → d.in_transaction ≡ false
    → find_gate id d ≡ none
    → settle id approve remark now d ≡ (err key_error, d)
unfolding settle
settle_missing id approve remark now d idle missing = ground (arith, missing)

resolve_missing :
    (id : Text) (approve : Bool) (remark : Option Text) (now : Text) (d : Db)
    → d.in_transaction ≡ false
    → find_gate id d ≡ none
    → resolve id approve remark now d ≡ (err key_error, d)
unfolding resolve
resolve_missing id approve remark now d idle missing =
    >>=-err_eq (settle id approve remark now) (λ _. reread id) d key_error
      (settle_missing id approve remark now d idle missing)

-- Outside a transaction, `Gates.resolve` of an unknown id raises KeyError and of a gate that is not
-- pending GateError, and the ledger stays as it was. A pending gate is returned approved or rejected
-- as the caller asks, with the time and the caller's note, or its own where there is none; in the
-- ledger its id finds the returned gate, every other id finds what it found before, no gate is added
-- or removed, and the other tables are as before.
pub resolve_answers :
    (id : Text) (approve : Bool) (remark : Option Text) (now other : Text) (d : Db)
    → d.in_transaction ≡ false
    → Resolves id approve remark now other d (find_gate id d) (resolve id approve remark now d)
resolve_answers id approve remark now other d idle =
    let Comes = Resolves id approve remark now other d in
    elim (Option-cases (find_gate id d)) [
      | inl missing ↦
          subst (λ o. Comes o (resolve id approve remark now d)) (sym missing)
            (subst (Comes none) (sym (resolve_missing id approve remark now d idle missing))
              (refl, refl))
      | inr (g, found) ↦
          subst (λ o. Comes o (resolve id approve remark now d)) (sym found)
            (elim (pending-cases g.state) [
              | inr (closed, differs) ↦
                  subst (Comes (some g))
                    (sym (resolve_refused id approve remark now d g idle found closed))
                    (inl (differs, refl, refl))
              | inl (waits, is_so) ↦
                  let same = resolved-answered approve remark now g in
                  let rows = update (λ h. h.id == id) (resolved approve remark now) d.gates in
                  subst (Comes (some g))
                    (sym (resolve-eq id approve remark now d g idle found waits))
                    (inr (
                      is_so,
                      ap ok same,
                      refl,
                      length-update (λ h. h.id == id) (resolved approve remark now) d.gates,
                      subst
                          (λ h.
                            find_gate other (record d { gates = rows })
                            ≡ (if other == id then some h else find_gate other d))
                          same (find-resolved id approve remark now other d g found),
                    ))
            ])
    ]
