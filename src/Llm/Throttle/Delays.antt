-- ===== src/Llm/Throttle/Delays.antt =====
-- The delays of a policy and the attempts of a round.
use Prim.Native.Nat.{◌^◌}
use native.Mathlib.Numerals.{unary_clauses}
use empiricist.Base.{
  ℕ, zero, suc, ◌-◌, ◌*◌, ◌+◌, ◌≤◌, ◌<◌, min, ◌≡◌, refl, ◌∙◌, ap, subst, inl, inr, Bool, true,
  false, Option, none, some, List, [], ◌∷◌, length, ltb, leb, arith, Bool-cases,
}
use empiricist.Ledger.Models.{Text}
use empiricist.Ledger.Tables.{Db}
use empiricist.Llm.Throttle.{
  ThrottlePolicy, is_policy, delay, is_throttled, Ended, answered, no_artifact, throttled,
  value_error, no_fuel, Round, slept_first, usable, delay_of, after_call, attempts, round,
}

pow_suc : (b a : ℕ) → b * 2 ^ (suc a) ≡ b * 2 ^ a + b * 2 ^ a
pow_suc b a = simp unary_clauses (grind arith)

delay-suc : (p : ThrottlePolicy) (k : ℕ) → delay p (suc k) ≡ some (min p.max_s (p.base_s * 2 ^ k))
unfolding delay
delay-suc p k =
    let positive : ltb (suc k) 1 ≡ false = ground arith in
    let less : suc k - 1 ≡ k = omega arith in rw (positive, less) refl

doubled : (m x : ℕ) → min m (x + x) ≡ min m (min m x + min m x)
doubled m x = omega arith

-- From the first attempt on `delay` returns a delay of at most the maximum, and the next one is the
-- double of it, or the maximum if that is less; before it raises.
pub delay_ok :
    (p : ThrottlePolicy) (k : ℕ)
    → (s : ℕ) × (delay p (suc k) ≡ some s)
      × (s ≤ p.max_s)
      × (delay p (suc (suc k)) ≡ some (min p.max_s (s + s)))
      × (delay p 0 ≡ none)
unfolding delay
delay_ok p k = (
  min p.max_s (p.base_s * 2 ^ k),
  delay-suc p k,
  omega arith,
  delay-suc p (suc k)
      ∙ ap some (ap (min p.max_s) (pow_suc p.base_s k) ∙ doubled p.max_s (p.base_s * 2 ^ k)),
  refl,
)

-- The delays that were slept, from an attempt on.
abbrev pub Slept : ThrottlePolicy → ℕ → List ℕ → Type 0
Slept p attempt [] = Unit
Slept p attempt (s ∷ slept) =
    (delay p attempt ≡ some s) × (s ≤ p.max_s) × Slept p (suc attempt) slept

module _ {R : Type 0} (max_wall : ℕ) (has_artifact : R → Bool) (rid : ℕ → Text)
    (complete : ℕ → Db → Option R × Db) where
  -- What the ways of ending mean; the last two do not occur.
  abbrev pub Means : ThrottlePolicy → ℕ → Ended R → Type 0
  Means p calls (answered r) = has_artifact r ≡ true
  Means p calls no_artifact = Unit
  Means p calls throttled = calls ≡ p.max_attempts
  Means p calls value_error = ⊥
  Means p calls no_fuel = ⊥

  pub record Rests (p : ThrottlePolicy) (attempt : ℕ) (r : Round R) : Type 0 where
    pub reached : length r.slept + attempt ≡ r.calls
    pub few : r.calls ≤ p.max_attempts
    pub delays : Slept p attempt r.slept
    pub ending : Means p r.calls r.ended

  Rests-slept_first :
      (p : ThrottlePolicy) (attempt s : ℕ) (r : Round R)
      → delay p attempt ≡ some s
      → s ≤ p.max_s
      → Rests p (suc attempt) r
      → Rests p attempt (slept_first s r)
  Rests-slept_first p attempt s r e small h = record {
    reached = omega (arith, h.reached);
    few = h.few;
    delays = (e, small, h.delays);
    ending = h.ending;
  }

  usable-has :
      (o : Option R) (r : R)
      → usable max_wall has_artifact rid complete o ≡ some r
      → has_artifact r ≡ true
  unfolding usable
  usable-has none r e = cc
  usable-has (some x) r e = elim (Bool-cases (has_artifact x)) [
    | inl holds ↦
        let same : x ≡ r = ground (arith, holds, e) in subst (λ y. has_artifact y ≡ true) same holds
    | inr fails ↦ absurd (ground (arith, fails, e))
  ]

  stop :
      (p : ThrottlePolicy) (attempt : ℕ) (ended : Ended R) (d : Db)
      → attempt ≤ p.max_attempts
      → Means p attempt ended
      → Rests p attempt (record { ended = ended; calls = attempt; slept = []; after = d })
  stop p attempt ended d few h = record {
    reached = omega arith;
    few = few;
    delays = tt;
    ending = h;
  }

  after_call-Rests :
      (p : ThrottlePolicy) (k : ℕ) (o : Option R) (d : Db) (rest : Round R)
      → suc k ≤ p.max_attempts
      → ((r : R) → o ≡ some r → has_artifact r ≡ true)
      → (leb p.max_attempts (suc k) ≡ false → Rests p (suc (suc k)) rest)
      → Rests p (suc k) (after_call max_wall has_artifact rid complete (some p) (suc k) o d rest)
  unfolding after_call delay_of
  after_call-Rests p k (some r) d rest few has more = stop p (suc k) (answered r) d few (has r refl)
  after_call-Rests p k none d rest few has more =
      elim (Bool-cases (is_throttled max_wall (rid (suc k)) d)) [
        | inr free ↦ rw free (stop p (suc k) no_artifact d few tt)
        | inl limited ↦ elim (Bool-cases (leb p.max_attempts (suc k))) [
          | inl last ↦
              rw (limited, last) (stop p (suc k) throttled d few (ground (arith, last, few)))
          | inr later ↦
              let (s, slept, small, _, _) = delay_ok p k in
              rw (limited, later, slept)
                (Rests-slept_first p (suc k) s rest slept small (more later))
        ]
      ]

  attempts-Rests :
      (p : ThrottlePolicy) (fuel k : ℕ) (d : Db)
      → suc k ≤ p.max_attempts
      → p.max_attempts < fuel + suc k
      → Rests p (suc k) (attempts max_wall has_artifact rid complete (some p) fuel (suc k) d)
  unfolding attempts
  attempts-Rests p zero k d few enough = absurd (omega (arith, few, enough))
  attempts-Rests p (suc fuel) k d few enough =
      let d' = (complete (suc k) d).1 in
      after_call-Rests p k (usable max_wall has_artifact rid complete (complete (suc k) d).0) d'
        (attempts max_wall has_artifact rid complete (some p) fuel (suc (suc k)) d') few
        (usable-has (complete (suc k) d).0)
        (λ later. attempts-Rests p fuel (suc k) d' (ground (arith, later)) (omega (arith, enough)))

  -- The attempts of a round under a policy always come to an end, without an error of the policy:
  -- at least one call is made, at most as many as the policy allows, and one sleep between each two
  -- calls, of the policy's delay, which never exceeds its maximum. The round is given up as
  -- throttled only after all the calls that the policy allows, and an answer has an artifact.
  pub round_ok :
      (p : ThrottlePolicy) (d : Db)
      → is_policy p ≡ true
      → Rests p 1 (round max_wall has_artifact rid complete (some p) d)
  unfolding round
  round_ok p d valid = attempts-Rests p p.max_attempts 0 d (ground (arith, valid)) (omega arith)
