-- ===== src/Campaign/Scheduler/Fairness.antt =====
-- The order in which the scheduler hands out the moves.
use native.Mathlib.Nat.{mod-lt}
use empiricist.Base.{
  ℕ, zero, suc, ◌+◌, ◌%◌, ◌<◌, ◌≡◌, refl, ◌⊎◌, inl, inr, none, some, List, [], ◌∷◌, ◌++◌, length,
  length-append, length-replicate, ◌∙◌, replicate, get_elem?, ◌==◌, arith, if◌then◌else◌,
}
use empiricist.Campaign.Scheduler.{Move, search, conjecture, Config, State, start, next_move}
use empiricist.Campaign.Scheduler.Rotation.{Event, run, run-IsSound}

-- The next `n` moves.
pub next_moves : ℕ → State → List Move
next_moves zero s = []
next_moves (suc n) s = elim (next_move s) [ none ↦ [] | some (m, s') ↦ m ∷ next_moves n s' ]

-- The move number `i`, where CONJECTURE comes after every `w` moves SEARCH.
abbrev pub turn : ℕ → ℕ → Move
turn w i = if i % (w + 1) == w then conjecture else search

-- The moves from number `i` on.
pub turns : ℕ → ℕ → ℕ → List Move
turns w i zero = []
turns w i (suc n) = turn w i ∷ turns w (i + 1) n

abbrev pass : ℕ → List Move
pass w = replicate w search ++ conjecture ∷ []

pass-length : (w : ℕ) → length (pass w) ≡ w + 1
pass-length w =
    omega (arith, length-append (replicate w search) (conjecture ∷ []), length-replicate w search)

pass-get :
    (w i : ℕ) → i < w + 1 → get_elem? (pass w) i ≡ some (if i == w then conjecture else search)
pass-get zero zero h = refl
pass-get zero (suc i) h = absurd (omega arith)
pass-get (suc w) zero h = ground arith
pass-get (suc w) (suc i) h = ground (arith, pass-get w i (omega arith))

next_moves-turns : (w n : ℕ) (s : State) → s.cycle ≡ pass w → next_moves n s ≡ turns w s.pos n
unfolding next_moves next_move turns
next_moves-turns w zero s same = refl
next_moves-turns w (suc n) s same =
    let found : get_elem? s.cycle (s.pos % length s.cycle) ≡ some (turn w s.pos) =
      rw (same, pass-length w) (pass-get w (s.pos % (w + 1)) (mod-lt s.pos (omega arith))) in
    let rest = next_moves-turns w n (record s { pos = s.pos + 1 }) same in
    ground (arith, found, rest)

turns-alone : (i n : ℕ) → turns 0 i n ≡ replicate n conjecture
unfolding turns
turns-alone i zero = refl
turns-alone i (suc n) = ground (arith, turns-alone (i + 1) n)

-- After any sequence of calls on a new scheduler, any number of next moves is handed out, from any
-- position in the cycle and over any number of passes: either both moves are in the rotation and,
-- counted from the position, CONJECTURE comes after every `search_weight` moves SEARCH, or CONJECTURE
-- alone is in the rotation and is every one of them.
pub next_moves-pass :
    (cfg : Config) (es : List Event) (n : ℕ)
    → let s = run es (start cfg) in
      ((s.active ≡ search ∷ conjecture ∷ []) × (next_moves n s ≡ turns s.search_weight s.pos n))
      ⊎ ((s.active ≡ conjecture ∷ []) × (next_moves n s ≡ replicate n conjecture))
next_moves-pass cfg es n =
    let s = run es (start cfg) in
    elim (run-IsSound cfg es).rotation [
      | inl (active, cycle) ↦ inl (active, next_moves-turns s.search_weight n s cycle)
      | inr (active, cycle) ↦ inr (active, next_moves-turns 0 n s cycle ∙ turns-alone s.pos n)
    ]
