-- ===== src/Tests/Campaign.antt =====
-- The witnesses of the scheduler.
use empiricist.Base.{
  ◌≡◌, refl, ◌⊎◌, ◌≢◌, true, false, none, some, List, [], ◌∷◌, ◌++◌, replicate, arith,
}
use empiricist.Search.Stall.{island_reset}
use empiricist.Ledger.Models.{Status, rank}
use empiricist.Ledger.Tables.{Db, ok}
use empiricist.Ledger.Artifacts.{find_artifacts}
use empiricist.Ledger.Gates.{has_pending, open_gate, insert_gate}
use empiricist.Campaign.State.{LoadEnv, load, boundary, load_twice}
use empiricist.Campaign.Scheduler.Parking.{park, maybe_open_proof_gate, maybe_open_proof_gate_once}
use empiricist.Tests.Samples.{db, artifact, open_run}
use empiricist.Campaign.Scheduler.{
  search, conjecture, Config, start, build_cycle, rebuild_cycle, halve, record_move,
  record_progress, note_stall, is_exhausted, should_stop,
}
use empiricist.Campaign.Scheduler.Rotation.{
  Event, recorded, stalled, moved, IsSound, step, run, run-IsSound,
}
use empiricist.Campaign.Scheduler.Fairness.{next_moves, turns, next_moves-pass}
use empiricist.Campaign.Scheduler.Stopping.{run-is_exhausted, stalls_out}

abbrev config : Config
config = record {
  conjecture_every = 2;
  scheduler_patience = 2;
  max_cost_usd = some 100;
  max_generations = none;
}

-- Two fruitless waves of each move, and a stall report of SEARCH.
abbrev quiet : List Event
quiet =
    recorded (some search) false
    ∷ recorded (some search) false
    ∷ stalled (some search) island_reset
    ∷ recorded (some conjecture) false
    ∷ recorded (some conjecture) false
    ∷ []

run-IsSound_example : IsSound config (run quiet (start config))
run-IsSound_example = run-IsSound config quiet

-- Seven moves from the middle of the second pass of the full rotation.
next_moves-pass_example :
    let s = run (moved ∷ moved ∷ moved ∷ moved ∷ []) (start config) in
    ((s.active ≡ search ∷ conjecture ∷ []) × (next_moves 7 s ≡ turns s.search_weight s.pos 7))
    ⊎ ((s.active ≡ conjecture ∷ []) × (next_moves 7 s ≡ replicate 7 conjecture))
next_moves-pass_example = next_moves-pass config (moved ∷ moved ∷ moved ∷ moved ∷ []) 7

stalls_out_example : should_stop config 0 0 (run quiet (start config)) ≢ none
stalls_out_example =
    stalls_out config quiet 0 0 (refl, (refl, (refl, (refl, (refl, tt)))))
      (refl, (refl, (refl, (refl, (refl, tt))))) (ground arith) (ground arith) (ground arith)

exhausted : is_exhausted search (run quiet (start config)) ≡ true
unfolding run step start build_cycle rebuild_cycle halve record_move record_progress note_stall
    is_exhausted
exhausted = refl

run-is_exhausted_example :
    is_exhausted search
      (run (recorded (some conjecture) true ∷ moved ∷ []) (run quiet (start config)))
    ≡ true
run-is_exhausted_example =
    run-is_exhausted config search quiet (recorded (some conjecture) true ∷ moved ∷ [])
      (refl, (refl, tt)) exhausted

abbrev parking_db : Db
parking_db = record db { artifacts = artifact 7 Status.conjectured ∷ [] }

parked : (maybe_open_proof_gate none 80 12 parking_db).0 ≡ ok (some 80)
unfolding maybe_open_proof_gate find_artifacts park has_pending open_gate insert_gate rank
parked = refl

maybe_open_proof_gate_once_example :
    let after = (maybe_open_proof_gate none 80 12 parking_db).1 in
    maybe_open_proof_gate none 81 13 after ≡ (ok none, after)
maybe_open_proof_gate_once_example =
    maybe_open_proof_gate_once none none 80 81 12 13 parking_db parked

abbrev session : LoadEnv
session = record { created = 1; resume = 2; orphans_json = λ n. n; now = 14 }

load_twice_example :
    let after = (load session (record db { runs = open_run 90 none ∷ [] })).1 in
    ((load session (record db { runs = open_run 90 none ∷ [] })).0 ≡ ok tt)
    × (after.search_events ≡ boundary session 2 1 ∷ [])
    × (load session after ≡ (
      ok tt,
      record after { search_events = after.search_events ++ boundary session 2 0 ∷ [] },
    ))
load_twice_example = load_twice session session (record db { runs = open_run 90 none ∷ [] }) refl
