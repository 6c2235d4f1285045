-- ===== src/Campaign/Scheduler/Stopping.antt =====
-- When the scheduler stops.
use empiricist.Base.{
  ℕ, ◌+◌, ◌-◌, ◌≤◌, ◌≡◌, refl, ◌≢◌, max, Bool, true, false, none, some, List, [], ◌∷◌, arith,
}
use empiricist.Search.Stall.{healthy, island_reset, hard_restart}
use empiricist.Campaign.Scheduler.{
  Move, search, conjecture, same_move, Config, State, streak, start, next_move, record_progress,
  note_stall, note_targets_exhausted, is_exhausted, should_stop,
}
use empiricist.Campaign.Scheduler.Rotation.{
  Event, moved, recorded, stalled, targets_exhausted, IsSound, step, run, step-IsSound,
  start-IsSound, run-IsSound,
}

-- The call reports progress of the move.
abbrev pub progresses : Move → Event → Bool
progresses m (recorded (some k) true) = same_move m k
progresses m _ = false

-- A move that is exhausted stays so until it makes progress, in a sound state.
step-is_exhausted :
    (cfg : Config) (m : Move) (e : Event) (s : State)
    → IsSound cfg s
    → progresses m e ≡ false
    → is_exhausted m s ≡ true
    → is_exhausted m (step e s) ≡ true
unfolding step is_exhausted next_move record_progress note_stall note_targets_exhausted
step-is_exhausted cfg m moved s sound quiet h = ground arith
step-is_exhausted cfg m (recorded none p) s sound quiet h = h
step-is_exhausted cfg search (recorded (some search) true) s sound quiet h = cc
step-is_exhausted cfg search (recorded (some search) false) s sound quiet h = ground arith
step-is_exhausted cfg search (recorded (some conjecture) true) s sound quiet h = ground arith
step-is_exhausted cfg search (recorded (some conjecture) false) s sound quiet h = ground arith
step-is_exhausted cfg conjecture (recorded (some conjecture) true) s sound quiet h = cc
step-is_exhausted cfg conjecture (recorded (some conjecture) false) s sound quiet h = ground arith
step-is_exhausted cfg conjecture (recorded (some search) true) s sound quiet h = ground arith
step-is_exhausted cfg conjecture (recorded (some search) false) s sound quiet h = ground arith
step-is_exhausted cfg m (stalled none level) s sound quiet h = h
step-is_exhausted cfg m (stalled (some k) healthy) s sound quiet h = h
step-is_exhausted cfg search (stalled (some search) island_reset) s sound quiet h = ground arith
step-is_exhausted cfg search (stalled (some conjecture) island_reset) s sound quiet h = ground arith
step-is_exhausted cfg conjecture (stalled (some k) island_reset) s sound quiet h = ground arith
step-is_exhausted cfg search (stalled (some search) hard_restart) s sound quiet h = ground arith
step-is_exhausted cfg search (stalled (some conjecture) hard_restart) s sound quiet h = ground arith
step-is_exhausted cfg conjecture (stalled (some k) hard_restart) s sound quiet h = ground arith
step-is_exhausted cfg m targets_exhausted s sound quiet h = ground arith

-- A wave of the move without progress, and a report of a stalled SEARCH, as 1 or 0.
abbrev pub fruitless : Move → Event → ℕ
fruitless search (recorded (some search) false) = 1
fruitless conjecture (recorded (some conjecture) false) = 1
fruitless _ _ = 0

abbrev pub stall_report : Event → ℕ
stall_report (stalled (some search) island_reset) = 1
stall_report (stalled (some search) hard_restart) = 1
stall_report _ = 0

abbrev pub total : (Event → ℕ) → List Event → ℕ
total f [] = 0
total f (e ∷ es) = f e + total f es

-- No call of the list reports progress of the move.
abbrev pub NoProgress : Move → List Event → Type 0
NoProgress m [] = Unit
NoProgress m (e ∷ es) = (progresses m e ≡ false) × NoProgress m es

step-streak :
    (cfg : Config) (m : Move) (e : Event) (s : State)
    → IsSound cfg s
    → progresses m e ≡ false
    → streak s m + fruitless m e ≤ streak (step e s) m
unfolding step next_move record_progress note_stall note_targets_exhausted
step-streak cfg search moved s sound quiet = ground arith
step-streak cfg conjecture moved s sound quiet = ground arith
step-streak cfg search (recorded none p) s sound quiet = ground arith
step-streak cfg conjecture (recorded none p) s sound quiet = ground arith
step-streak cfg search (recorded (some search) true) s sound quiet = cc
step-streak cfg conjecture (recorded (some conjecture) true) s sound quiet = cc
step-streak cfg search (recorded (some k) p) s sound quiet = ground arith
step-streak cfg conjecture (recorded (some k) p) s sound quiet = ground arith
step-streak cfg search (stalled m level) s sound quiet = ground arith
step-streak cfg conjecture (stalled m level) s sound quiet = ground arith
step-streak cfg search targets_exhausted s sound quiet = ground arith
step-streak cfg conjecture targets_exhausted s sound quiet = ground arith

step-search_weight :
    (cfg : Config) (e : Event) (s : State)
    → IsSound cfg s
    → (step e s).search_weight ≤ max 1 (s.search_weight - stall_report e)
unfolding step next_move record_progress note_stall note_targets_exhausted
step-search_weight cfg moved s sound = ground arith
step-search_weight cfg (recorded m p) s sound = ground arith
step-search_weight cfg (stalled none level) s sound = ground arith
step-search_weight cfg (stalled (some search) level) s sound = ground arith
step-search_weight cfg (stalled (some conjecture) level) s sound = ground arith
step-search_weight cfg targets_exhausted s sound = ground arith

run-streak :
    (cfg : Config) (m : Move) (es : List Event) (s : State)
    → IsSound cfg s
    → NoProgress m es
    → streak s m + total (fruitless m) es ≤ streak (run es s) m
unfolding run
run-streak cfg m [] s sound quiet = omega arith
run-streak cfg m (e ∷ es) s sound (q, quiet) = omega (
  arith,
  step-streak cfg m e s sound q,
  run-streak cfg m es (step e s) (step-IsSound cfg e s sound) quiet,
)

run-search_weight :
    (cfg : Config) (es : List Event) (s : State)
    → IsSound cfg s
    → (run es s).search_weight ≤ max 1 (s.search_weight - total stall_report es)
unfolding run
run-search_weight cfg [] s sound = omega arith
run-search_weight cfg (e ∷ es) s sound = omega (
  arith,
  step-search_weight cfg e s sound,
  run-search_weight cfg es (step e s) (step-IsSound cfg e s sound),
)

start-search_weight : (cfg : Config) → (start cfg).search_weight ≡ max 1 cfg.conjecture_every
unfolding start
start-search_weight cfg = refl

-- After any sequence of calls on a new scheduler that has left a move exhausted, further calls, none
-- of which reports progress of that move, leave it exhausted.
pub run-is_exhausted :
    (cfg : Config) (m : Move) (before after : List Event)
    → NoProgress m after
    → is_exhausted m (run before (start cfg)) ≡ true
    → is_exhausted m (run after (run before (start cfg))) ≡ true
unfolding run
run-is_exhausted cfg m before after quiet h =
    keeps after (run before (start cfg)) (run-IsSound cfg before) quiet h
  where
    keeps :
        (es : List Event) (s : State)
        → IsSound cfg s
        → NoProgress m es
        → is_exhausted m s ≡ true
        → is_exhausted m (run es s) ≡ true
    keeps [] s sound q e = e
    keeps (x ∷ es) s sound (q, qs) e =
        keeps es (step x s) (step-IsSound cfg x s sound) qs (step-is_exhausted cfg m x s sound q e)

-- After calls on a new scheduler none of which reports progress, `should_stop` gives a reason, once
-- each move has had as many fruitless waves as the patience (at least 1), and SEARCH as many stall
-- reports as its configured weight (at least 1) less one.
pub stalls_out :
    (cfg : Config) (es : List Event) (cost_usd gen : ℕ)
    → NoProgress search es
    → NoProgress conjecture es
    → max 1 cfg.scheduler_patience ≤ total (fruitless search) es
    → max 1 cfg.scheduler_patience ≤ total (fruitless conjecture) es
    → max 1 cfg.conjecture_every ≤ total stall_report es + 1
    → should_stop cfg cost_usd gen (run es (start cfg)) ≢ none
unfolding should_stop
stalls_out cfg es cost_usd gen quiet_search quiet_conjecture waves_search waves_conjecture stalls =
    let sound = run-IsSound cfg es in
    let a = run-streak cfg search es (start cfg) (start-IsSound cfg) quiet_search in
    let b = run-streak cfg conjecture es (start cfg) (start-IsSound cfg) quiet_conjecture in
    let w = run-search_weight cfg es (start cfg) (start-IsSound cfg) in
    let c = start-search_weight cfg in
    ground (arith, sound.patience, sound.some_weight, sound.floored, a, b, w, c)
