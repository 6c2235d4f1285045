-- ===== src/Campaign/Scheduler.antt =====
-- src/empiricist/campaign/scheduler.py: the rotation of the two moves, the halving of their weights
-- and the stop reasons. A move that the caller misspells is `none`; a ValueError, a RuntimeError is
-- `none` too.
pub mod Rotation
pub mod Stopping
pub mod Fairness
pub mod Parking
use empiricist.Base.{
  ℕ, zero, suc, ◌+◌, ◌/◌, ◌%◌, max, Bool, true, false, not, ◌&&◌, Option, none, some, List, [], ◌∷◌,
  ◌++◌, length, any, keep, get_elem?, replicate, ltb, leb, ◌==◌, if◌then◌else◌,
}
use empiricist.Search.Stall.{Assessment, healthy, island_reset, hard_restart}

pub data Move : Type 0 where
  search conjecture : Move

abbrev pub same_move : Move → Move → Bool
same_move search search = true
same_move conjecture conjecture = true
same_move _ _ = false

-- What the scheduler reads of `RunConfig`.
pub record Config : Type 0 where
  pub conjecture_every : ℕ
  pub scheduler_patience : ℕ
  pub max_cost_usd : Option ℕ
  pub max_generations : Option ℕ

pub record State : Type 0 where
  pub patience : ℕ
  pub search_weight : ℕ
  pub conjecture_weight : ℕ
  pub active : List Move
  pub search_streak : ℕ
  pub conjecture_streak : ℕ
  pub cycle : List Move
  pub pos : ℕ

-- `self._weights[m]`, `self._streak[m]` and their assignments.
abbrev pub weight : State → Move → ℕ
weight s search = s.search_weight
weight s conjecture = s.conjecture_weight

abbrev pub streak : State → Move → ℕ
streak s search = s.search_streak
streak s conjecture = s.conjecture_streak

abbrev pub set_weight : Move → ℕ → State → State
set_weight search n s = record s { search_weight = n }
set_weight conjecture n s = record s { conjecture_weight = n }

abbrev pub set_streak : Move → ℕ → State → State
set_streak search n s = record s { search_streak = n }
set_streak conjecture n s = record s { conjecture_streak = n }

-- `[m for m in active for _ in range(weights[m])]`
unfoldable pub build_cycle : State → List Move → List Move
build_cycle s [] = []
build_cycle s (m ∷ ms) = replicate (weight s m) m ++ build_cycle s ms

-- `_rebuild_cycle`
unfoldable pub rebuild_cycle : State → State
unfolding build_cycle
rebuild_cycle s = record s { cycle = build_cycle s s.active; pos = 0 }

-- `Scheduler.__init__`
unfoldable pub start : Config → State
unfolding rebuild_cycle
start cfg = rebuild_cycle (record {
  patience = max 1 cfg.scheduler_patience;
  search_weight = max 1 cfg.conjecture_every;
  conjecture_weight = 1;
  active = search ∷ conjecture ∷ [];
  search_streak = 0;
  conjecture_streak = 0;
  cycle = [];
  pos = 0;
})

pub next_move : State → Option (Move × State)
next_move s = elim (get_elem? s.cycle (s.pos % length s.cycle)) [
  | none ↦ none
  | some move ↦ some (move, record s { pos = s.pos + 1 })
]

-- `_halve`
unfoldable pub halve : Move → State → State
unfolding rebuild_cycle
halve move s =
    let new = max 1 (weight s move / 2) in
    if not (new == weight s move) then rebuild_cycle (set_weight move new s) else s

-- `record` after its check of the name.
unfoldable pub record_move : Move → Bool → State → State
unfolding halve
record_move move true s = set_streak move 0 s
record_move move false s =
    let counted = set_streak move (streak s move + 1) s in
    if same_move move conjecture
      && ltb 1 (weight counted move)
      && leb counted.patience (streak counted move)
    then set_streak move 0 (halve move counted)
    else counted

-- `record`
unfoldable pub record_progress : Option Move → Bool → State → Option State
unfolding record_move
record_progress none progressed s = none
record_progress (some move) progressed s = some (record_move move progressed s)

unfoldable pub note_stall : Option Move → Assessment → State → Option State
unfolding halve
note_stall none level s = none
note_stall (some move) healthy s = some s
note_stall (some move) island_reset s = some (halve move s)
note_stall (some move) hard_restart s = some (halve move s)

abbrev pub is_active : Move → State → Bool
is_active move s = any (same_move move) s.active

-- `list.remove`: the first one goes.
unfoldable remove : Move → List Move → List Move
remove move [] = []
remove move (m ∷ ms) = if same_move move m then ms else m ∷ remove move ms

pub note_targets_exhausted : State → State
unfolding remove rebuild_cycle
note_targets_exhausted s =
    if is_active search s then rebuild_cycle (record s { active = remove search s.active }) else s

pub data StopReason : Type 0 where
  budget_cost budget_generations stalled_out : StopReason

-- `_is_exhausted`
unfoldable pub is_exhausted : Move → State → Bool
is_exhausted move s =
    if not (is_active move s) then true else weight s move == 1 && leb s.patience (streak s move)

abbrev reached : Option ℕ → ℕ → Bool
reached none spent = false
reached (some limit) spent = leb limit spent

abbrev passed : Option ℕ → ℕ → Bool
passed none gen = false
passed (some limit) gen = ltb limit gen

pub should_stop : Config → ℕ → ℕ → State → Option StopReason
unfolding is_exhausted
should_stop cfg cost_usd gen s =
    if reached cfg.max_cost_usd cost_usd
    then some budget_cost
    else if passed cfg.max_generations gen
    then some budget_generations
    else if is_exhausted search s && is_exhausted conjecture s
    then some stalled_out
    else none
