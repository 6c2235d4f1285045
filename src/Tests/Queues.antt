-- ===== src/Tests/Queues.antt =====
-- The witnesses of the gates, the runs, the population and the stall detector.
use empiricist.Base.{◌≡◌, refl, true, false, none, some, [], ◌∷◌, count, All}
use empiricist.Ledger.Models.{Text, Gate, GateKind, pending, ExitCode}
use empiricist.Ledger.Tables.{Db, ok, err, gate_error, run_already_finished, finite}
use empiricist.Ledger.Gates.{find_gate, open_gate, resolve, resolved, settle, is_pending}
use empiricist.Ledger.Gates.Queue.{OnePending, open_gate-OnePending}
use empiricist.Ledger.Gates.Resolution.{resolve_ok, Resolves, resolve_answers}
use empiricist.Ledger.Runs.{Outcome, find_run, is_open, finish_run, reconcile_orphans}
use empiricist.Ledger.Runs.Closing.{finish_run_once, reconcile_orphans_closes, closed_by}
use empiricist.Search.Population.{Candidate}
use empiricist.Search.Population.Elites.{session, Unbeaten, session_best}
use empiricist.Search.Stall.{Report, Detector, start, assess}
use empiricist.Search.Stall.Window.{feed_all, last_of, verdict, assess_window}
use empiricist.Tests.Samples.{db, open_run}

abbrev gate : Gate
gate = record {
  id = 80;
  kind = GateKind.release;
  artifact_id = 7;
  state = pending;
  opened_at = 10;
  resolved_at = none;
  note = none;
}

abbrev gate_db : Db
gate_db = record db { gates = gate ∷ [] }

open_gate-OnePending_example : OnePending (open_gate GateKind.release 7 none 81 11 gate_db).1
open_gate-OnePending_example = open_gate-OnePending GateKind.release 7 none 81 11 gate_db (tt, tt)

resolve_answers_example :
    Resolves 80 false (some 5) 12 80 gate_db (some gate) (resolve 80 false (some 5) 12 gate_db)
resolve_answers_example = resolve_answers 80 false (some 5) 12 80 gate_db refl

gate_approved : (resolve 80 true none 12 gate_db).0 ≡ ok (resolved true none 12 gate)
unfolding resolve settle resolved
gate_approved = refl

resolve_ok_example :
    let after = (resolve 80 true none 12 gate_db).1 in
    ((g : Gate) × (find_gate 80 gate_db ≡ some g)
      × (is_pending g.state ≡ true)
      × (resolved true none 12 gate ≡ resolved true none 12 g))
    × (find_gate 80 after ≡ some (resolved true none 12 gate))
    × (resolve 80 false none 13 after ≡ (err gate_error, after))
resolve_ok_example = resolve_ok 80 true none 12 gate_db 80 false none 13 gate_approved

abbrev outcome : Outcome
outcome = record {
  exit_code = ExitCode.code 0;
  wall_s = 5;
  peak_rss_mb = none;
  tokens_in = 100;
  tokens_out = 20;
  cache_read = 0;
  cost_usd = 3;
  response_digest = none;
}

abbrev run_db : Db
run_db = record db { runs = open_run 90 none ∷ open_run 91 (some 5) ∷ [] }

closed_once : (finish_run 90 outcome 13 run_db).0 ≡ ok tt
unfolding finish_run
closed_once = refl

finish_run_once_example :
    finish_run 90 (record outcome { cost_usd = 9 }) 14 (finish_run 90 outcome 13 run_db).1
    ≡ (err run_already_finished, (finish_run 90 outcome 13 run_db).1)
finish_run_once_example =
    finish_run_once 90 outcome (record outcome { cost_usd = 9 }) 13 14 run_db closed_once

reconcile_orphans_closes_example :
    let after = (reconcile_orphans 15 run_db).1 in
    ((reconcile_orphans 15 run_db).0 ≡ ok 2)
    × (count is_open after.runs ≡ 0)
    × ((id : Text) → find_run id after ≡ closed_by 15 (find_run id run_db))
    × (reconcile_orphans 16 after ≡ (ok 0, after))
reconcile_orphans_closes_example = reconcile_orphans_closes 15 16 run_db refl

abbrev candidate : Text → Candidate
candidate a = record { key = 1; island = 0; cell = 2; vec = finite a ∷ []; cert_hash = 3 }

session_best_example :
    All
      (λ c.
        Unbeaten 6 12 c.key (session 6 12 (candidate 4 ∷ candidate 3 ∷ candidate 9 ∷ []) db) c.vec)
      (candidate 4 ∷ candidate 3 ∷ candidate 9 ∷ [])
session_best_example = session_best 6 12 (candidate 4 ∷ candidate 3 ∷ candidate 9 ∷ []) db refl

abbrev report : Report
report = record { sampled = 10; inserted = 0; duplicates = 4 }

abbrev detector : Detector
detector = record { window = 2; floor_num = 1; floor_den = 10; reports = [] }

started : start 2 1 10 ≡ some detector
unfolding start
started = refl

assess_window_example :
    ((feed_all detector (record report { inserted = 3 } ∷ report ∷ report ∷ [])).reports
      ≡ last_of 2 (record report { inserted = 3 } ∷ report ∷ report ∷ []))
    × (assess (feed_all detector (record report { inserted = 3 } ∷ report ∷ report ∷ []))
        ≡ verdict detector (record report { inserted = 3 } ∷ report ∷ report ∷ []))
assess_window_example =
    assess_window 2 1 10 detector (record report { inserted = 3 } ∷ report ∷ report ∷ []) started
