-- ===== src/Campaign/Scheduler/Rotation.antt =====
-- The invariant of the scheduler under every sequence of its calls.
use empiricist.Base.{
  ◌≤◌, ◌≡◌, ◌⊎◌, max, Bool, true, false, Option, none, some, List, [], ◌∷◌, ◌++◌, replicate, arith,
}
use empiricist.Search.Stall.{Assessment, healthy, island_reset, hard_restart}
use empiricist.Campaign.Scheduler.{
  Move, search, conjecture, Config, State, start, next_move, halve, record_move, record_progress,
  note_stall, note_targets_exhausted,
}

-- A call of the orchestrator.
pub data Event : Type 0 where
  moved : Event
  recorded : Option Move → Bool → Event
  stalled : Option Move → Assessment → Event
  targets_exhausted : Event

-- The state after a call; a call that raises leaves it as it is.
abbrev pub moved_to : State → Option (Move × State) → State
moved_to s none = s
moved_to s (some (_, s')) = s'

abbrev pub accepted : State → Option State → State
accepted s none = s
accepted s (some s') = s'

unfoldable pub step : Event → State → State
step moved s = moved_to s (next_move s)
step (recorded move progressed) s = accepted s (record_progress move progressed s)
step (stalled move level) s = accepted s (note_stall move level s)
step targets_exhausted s = note_targets_exhausted s

unfoldable pub run : List Event → State → State
run [] s = s
run (e ∷ es) s = run es (step e s)

-- The cycle is that of the weights; CONJECTURE never leaves the rotation, and its weight is 1.
pub record IsSound (cfg : Config) (s : State) : Type 0 where
  pub patience : s.patience ≡ max 1 cfg.scheduler_patience
  pub some_weight : 1 ≤ s.search_weight
  pub weight_bound : s.search_weight ≤ max 1 cfg.conjecture_every
  pub floored : s.conjecture_weight ≡ 1
  pub rotation :
      ((s.active ≡ search ∷ conjecture ∷ [])
        × (s.cycle ≡ replicate s.search_weight search ++ conjecture ∷ []))
      ⊎ ((s.active ≡ conjecture ∷ []) × (s.cycle ≡ conjecture ∷ []))

pub start-IsSound : (cfg : Config) → IsSound cfg (start cfg)
unfolding start
start-IsSound cfg = ground arith

next_move-IsSound :
    (cfg : Config) (s : State) → IsSound cfg s → IsSound cfg (moved_to s (next_move s))
unfolding next_move
next_move-IsSound cfg s h = ground arith

halve-IsSound : (cfg : Config) (m : Move) (s : State) → IsSound cfg s → IsSound cfg (halve m s)
unfolding halve
halve-IsSound cfg search s h = ground arith
halve-IsSound cfg conjecture s h = ground arith

record_move-IsSound :
    (cfg : Config) (m : Move) (p : Bool) (s : State)
    → IsSound cfg s
    → IsSound cfg (record_move m p s)
unfolding record_move
record_move-IsSound cfg search true s h = ground arith
record_move-IsSound cfg search false s h = ground arith
record_move-IsSound cfg conjecture true s h = ground arith
record_move-IsSound cfg conjecture false s h = ground arith

exhausted-IsSound :
    (cfg : Config) (s : State) → IsSound cfg s → IsSound cfg (note_targets_exhausted s)
unfolding note_targets_exhausted
exhausted-IsSound cfg s h = ground arith

pub step-IsSound : (cfg : Config) (e : Event) (s : State) → IsSound cfg s → IsSound cfg (step e s)
unfolding step record_progress note_stall
step-IsSound cfg moved s h = next_move-IsSound cfg s h
step-IsSound cfg (recorded none p) s h = h
step-IsSound cfg (recorded (some m) p) s h = record_move-IsSound cfg m p s h
step-IsSound cfg (stalled none level) s h = h
step-IsSound cfg (stalled (some m) healthy) s h = h
step-IsSound cfg (stalled (some m) island_reset) s h = halve-IsSound cfg m s h
step-IsSound cfg (stalled (some m) hard_restart) s h = halve-IsSound cfg m s h
step-IsSound cfg targets_exhausted s h = exhausted-IsSound cfg s h

run-IsSound_from :
    (cfg : Config) (es : List Event) (s : State) → IsSound cfg s → IsSound cfg (run es s)
unfolding run
run-IsSound_from cfg [] s h = h
run-IsSound_from cfg (e ∷ es) s h = run-IsSound_from cfg es (step e s) (step-IsSound cfg e s h)

-- After any sequence of calls on a new scheduler the weight of SEARCH lies between 1 and the
-- configured one, the weight of CONJECTURE is 1, CONJECTURE is in the rotation, and the cycle is
-- that of the weights of the moves in the rotation.
pub run-IsSound : (cfg : Config) (es : List Event) → IsSound cfg (run es (start cfg))
run-IsSound cfg es = run-IsSound_from cfg es (start cfg) (start-IsSound cfg)
