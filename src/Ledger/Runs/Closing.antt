-- ===== src/Ledger/Runs/Closing.antt =====
-- `finish_run` closes a run once, and `reconcile_orphans` closes every open run.
use empiricist.Base.{
  ◌≡◌, refl, inl, inr, Bool, true, false, ◌&&◌, Option, none, some, List, [], ◌∷◌, find, update,
  count, arith, if◌then◌else◌, Bool-cases, ◌==◌,
}
use empiricist.Ledger.Models.{Text, Run}
use empiricist.Ledger.Tables.{Db, ok, err, run_already_finished}
use empiricist.Ledger.Runs.{
  Outcome, find_run, is_open, finished, finish_run, orphaned, reconcile_orphans,
}

abbrev is_open_at : Text → Run → Bool
is_open_at id r = r.run_id == id && is_open r

-- No row is left that passes, as the rewritten ones do not.
count-update :
    (p : Run → Bool) (f : Run → Run) (rows : List Run)
    → ((r : Run) → p (f r) ≡ false)
    → count p (update p f rows) ≡ 0
count-update p f [] closes = refl
count-update p f (r ∷ rows) closes = ground (arith, closes r, count-update p f rows closes)

pub update_none :
    (p : Run → Bool) (f : Run → Run) (rows : List Run) → count p rows ≡ 0 → update p f rows ≡ rows
update_none p f [] h = refl
update_none p f (r ∷ rows) h = ground (arith, update_none p f rows)

-- A row that was found by its id is found after an update that keeps the ids.
find-update-some :
    (id : Text) (p : Run → Bool) (f : Run → Run) (rows : List Run)
    → ((r : Run) → (f r).run_id ≡ r.run_id)
    → ¬ (count p rows ≡ 0)
    → ((r : Run) → p r ≡ true → r.run_id ≡ id)
    → (r : Run) × (find (λ r. r.run_id == id) (update p f rows) ≡ some r)
find-update-some id p f [] keeps h at = absurd (h refl)
find-update-some id p f (r ∷ rows) keeps h at = elim (Bool-cases (p r)) [
  | inl passes ↦ (f r, ground (arith, keeps r, at r passes))
  | inr fails ↦ elim (Bool-cases (r.run_id == id)) [
    | inl same ↦ (r, ground arith)
    | inr differs ↦
        let (s, e) = find-update-some id p f rows keeps (λ z. h (ground (arith, z, fails))) at in
        (s, ground (arith, e))
  ]
]

finished_closed :
    (id : Text) (o : Outcome) (now : Text) (r : Run) → is_open_at id (finished o now r) ≡ false
unfolding finished
finished_closed id o now r = ground arith

finished_id : (o : Outcome) (now : Text) (r : Run) → (finished o now r).run_id ≡ r.run_id
unfolding finished
finished_id o now r = refl

finish_run-eq :
    (id : Text) (o : Outcome) (now : Text) (d : Db) {u : Unit {0}}
    → (finish_run id o now d).0 ≡ ok u
    → (d.in_transaction ≡ false)
      × (¬ (count (is_open_at id) d.runs ≡ 0))
      × ((finish_run id o now d).1
          ≡ record d { runs = update (is_open_at id) (finished o now) d.runs })
unfolding finish_run
finish_run-eq id o now d h = ground arith

finish_run-again :
    (id : Text) (o : Outcome) (now : Text) (d : Db) (r : Run)
    → d.in_transaction ≡ false
    → count (is_open_at id) d.runs ≡ 0
    → find_run id d ≡ some r
    → finish_run id o now d ≡ (err run_already_finished, d)
unfolding finish_run
finish_run-again id o now d r idle closed found =
    ground (arith, update_none (is_open_at id) (finished o now) d.runs closed)

-- After a `finish_run` that succeeded, every further `finish_run` of the same run raises
-- RunAlreadyFinishedError and leaves the database as the first one left it.
pub finish_run_once :
    (id : Text) (o o' : Outcome) (now now' : Text) (d : Db)
    → (finish_run id o now d).0 ≡ ok tt
    → finish_run id o' now' (finish_run id o now d).1
      ≡ (err run_already_finished, (finish_run id o now d).1)
finish_run_once id o o' now now' d h =
    let (idle, some_open, e) = finish_run-eq id o now d h in
    let (r, found) =
      find-update-some id (is_open_at id) (finished o now) d.runs (finished_id o now) some_open
        (λ r p. ground arith) in
    rw e (
      finish_run-again id o' now' _ r idle
        (count-update (is_open_at id) _ d.runs (finished_closed id o now)) found)

pub reconcile_orphans-eq :
    (now : Text) (d : Db)
    → d.in_transaction ≡ false
    → reconcile_orphans now d
      ≡ (ok (count is_open d.runs), record d { runs = update is_open (orphaned now) d.runs })
unfolding reconcile_orphans
reconcile_orphans-eq now d idle = ground arith

abbrev pub closed_by : Text → Option Run → Option Run
closed_by now none = none
closed_by now (some r) = some (if is_open r then orphaned now r else r)

find-orphaned :
    (id now : Text) (rows : List Run)
    → find (λ r. r.run_id == id) (update is_open (orphaned now) rows)
      ≡ closed_by now (find (λ r. r.run_id == id) rows)
unfolding orphaned
find-orphaned id now [] = refl
find-orphaned id now (r ∷ rows) = ground (arith, find-orphaned id now rows)

orphaned_closed : (now : Text) (r : Run) → is_open (orphaned now r) ≡ false
unfolding orphaned
orphaned_closed now r = refl

-- Outside a transaction `reconcile_orphans` returns the number of open runs and leaves none open; each
-- id then finds the run it found before, closed as an orphan if it was open; and a second call returns
-- 0 and changes nothing.
pub reconcile_orphans_closes :
    (now now' : Text) (d : Db)
    → d.in_transaction ≡ false
    → let after = (reconcile_orphans now d).1 in
      ((reconcile_orphans now d).0 ≡ ok (count is_open d.runs))
      × (count is_open after.runs ≡ 0)
      × ((id : Text) → find_run id after ≡ closed_by now (find_run id d))
      × (reconcile_orphans now' after ≡ (ok 0, after))
reconcile_orphans_closes now now' d idle =
    let e = reconcile_orphans-eq now d idle in
    let none_open = count-update is_open (orphaned now) d.runs (orphaned_closed now) in
    rw e (
      refl,
      none_open,
      (λ id. find-orphaned id now d.runs),
      ground (
        arith,
        reconcile_orphans-eq now' (record d { runs = update is_open (orphaned now) d.runs }) idle,
        none_open,
        update_none is_open (orphaned now') (update is_open (orphaned now) d.runs) none_open,
      ),
    )
