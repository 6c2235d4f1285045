-- ===== src/Llm/Throttle.antt =====
-- Rate limits: src/empiricist/llm/throttle.py, and the attempts of one round in
-- src/empiricist/search/p3_loop.py and src/empiricist/formalize/loop.py. A delay is a number of
-- seconds; the client is a parameter. A round takes as much fuel as the policy has attempts.
pub mod Delays
use Prim.Native.Nat.{◌^◌}
use empiricist.Base.{
  ℕ, zero, suc, ◌-◌, ◌*◌, ◌+◌, min, Bool, true, false, not, ◌&&◌, ◌||◌, Option, none, some, List,
  [], ◌∷◌, find, ltb, leb, ◌==◌, if◌then◌else◌,
}
use empiricist.Ledger.Models.{Text, Run, ExitCode}
use empiricist.Ledger.Tables.{Db}

-- `exit_code not in (0, None)`
abbrev pub is_failure : Option ExitCode → Bool
is_failure none = false
is_failure (some (ExitCode.code n)) = not (n == 0)
is_failure (some (ExitCode.minus n)) = true

abbrev pub is_under : ℕ → Option ℕ → Bool
is_under limit none = false
is_under limit (some wall) = ltb wall limit

-- `is_throttled_run`, with THROTTLE_MAX_WALL_S in the unit of wall times
unfoldable is_throttled_run : ℕ → Run → Bool
is_throttled_run max_wall run =
    is_failure run.exit_code && run.tokens_out == 0 && is_under max_wall run.wall_s

pub record ThrottlePolicy : Type 0 where
  pub base_s : ℕ
  pub max_s : ℕ
  pub max_attempts : ℕ

-- `__post_init__` does not raise; no delay is negative here.
abbrev pub is_policy : ThrottlePolicy → Bool
is_policy p = leb 1 p.max_attempts

-- `delay`; `none` where it raises.
pub delay : ThrottlePolicy → ℕ → Option ℕ
delay p attempt = if ltb attempt 1 then none else some (min p.max_s (p.base_s * 2 ^ (attempt - 1)))

-- `_is_throttled`; a run that is not there is not throttled.
pub is_throttled : ℕ → Text → Db → Bool
unfolding is_throttled_run
is_throttled max_wall rid d = elim (find (λ r. r.run_id == rid) d.runs) [
  | none ↦ false
  | some run ↦ is_throttled_run max_wall run
]

-- How a round goes on after its attempts, the number of calls, what was slept, and the database.
pub data Ended (R : Type 0) : Type 0 where
  answered : R → Ended R
  no_artifact throttled value_error no_fuel : Ended R

pub record Round (R : Type 0) : Type 0 where
  pub ended : Ended R
  pub calls : ℕ
  pub slept : List ℕ
  pub after : Db

abbrev pub slept_first : {R : Type 0} → ℕ → Round R → Round R
slept_first s r = record r { slept = s ∷ r.slept }

module _ {R : Type 0} (max_wall : ℕ) (has_artifact : R → Bool) (rid : ℕ → Text)
    (complete : ℕ → Db → Option R × Db) where
  pub usable : Option R → Option R
  usable none = none
  usable (some r) = if has_artifact r then some r else none

  abbrev pub is_limited : Option ThrottlePolicy → ℕ → Db → Bool
  is_limited none attempt d = false
  is_limited (some p) attempt d = is_throttled max_wall (rid attempt) d

  -- `attempt >= self._throttle.max_attempts`, where there is a policy
  abbrev pub gives_up : Option ThrottlePolicy → ℕ → Bool
  gives_up none attempt = true
  gives_up (some p) attempt = leb p.max_attempts attempt

  pub delay_of : Option ThrottlePolicy → ℕ → Option ℕ
  unfolding delay
  delay_of none attempt = none
  delay_of (some p) attempt = delay p attempt

  -- The body of the loop after the call, by what is usable of its result, and by the rest of the loop.
  pub after_call : Option ThrottlePolicy → ℕ → Option R → Db → Round R → Round R
  unfolding is_throttled delay_of
  after_call p attempt (some r) d rest = record {
    ended = answered r;
    calls = attempt;
    slept = [];
    after = d;
  }
  after_call p attempt none d rest =
      if not (is_limited p attempt d)
      then record { ended = no_artifact; calls = attempt; slept = []; after = d }
      else if gives_up p attempt
      then record { ended = throttled; calls = attempt; slept = []; after = d }
      else elim (delay_of p attempt) [
        | none ↦ record { ended = value_error; calls = attempt; slept = []; after = d }
        | some s ↦ slept_first s rest
      ]

  -- The `while True` of a round, from an attempt on.
  pub attempts : Option ThrottlePolicy → ℕ → ℕ → Db → Round R
  unfolding usable after_call
  attempts p zero attempt d = record { ended = no_fuel; calls = 0; slept = []; after = d }
  attempts p (suc fuel) attempt d =
      let (result, d') = complete attempt d in
      after_call p attempt (usable result) d' (attempts p fuel (suc attempt) d')

  abbrev pub attempts_of : Option ThrottlePolicy → ℕ
  attempts_of none = 1
  attempts_of (some p) = p.max_attempts

  -- The attempts of a round
  pub round : Option ThrottlePolicy → Db → Round R
  unfolding attempts
  round p d = attempts p (attempts_of p) 1 d
