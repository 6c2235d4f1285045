-- ===== src/Zx/Termination/Decrease.antt =====
-- The measure of a host before and after the use of a rule.
use empiricist.Base.{
  ℕ, ◌<◌, ◌≤◌, ◌≡◌, ◌≢◌, sym, ap, ◌⊎◌, inl, inr, Bool, true, false, none, some, List, [], ◌∷◌, map,
  any, ltb, All, All-map, arith, Bool-cases, ◌==◌, ==_iff,
}
use empiricist.Base.Sets.{xor}
use empiricist.Base.Pairwise.{All-any}
use empiricist.Zx.Diagrams.{Target, Rule, stars, targets}
use empiricist.Zx.Termination.{
  Component, edge_weight, edge_sum, bounds, Leg, weight_before, weight_after, legs, increases,
  check_from, first_failure, TerminationReport, check,
}
use empiricist.Zx.Termination.Covered.{legs-covers_context, legs-covers_stars}
use empiricist.Zx.Termination.Sums.{loop_heavier, measure-host, measure-result}
use empiricist.Zx.Termination.Uses.{
  Grounding, measure, In, End, at_star, at_context, ResidualLeg, Use, old_end, new_end, flips,
  old_edge, new_edge, host, result, EndFits, Apart, LegFits, Fits,
}

xor_swap : (a b c : Bool) → xor (xor a b) c ≡ xor (xor a c) b
xor_swap a b c = ground arith

xor-false : (a : Bool) → xor a false ≡ a
xor-false a = ground arith

==_sym : (i j : ℕ) → (i == j) ≡ (j == i)
==_sym i j = ground arith

plain_lighter :
    (c : Component) (hadamard loop : Bool)
    → edge_weight c hadamard false ≤ edge_weight c hadamard loop
plain_lighter c hadamard loop = ground arith

ne_false : (i j : ℕ) → i ≢ j → (i == j) ≡ false
ne_false i j h = elim (Bool-cases (i == j)) [
  | inl same ↦ absurd (h ((==_iff i j).0 same))
  | inr differs ↦ differs
]

module _ (rule : Rule) (u : Use) (c : Component) where
  -- An edge with two ends weighs no more in the result than in the host.
  abbrev Lighter : Bool → End → End → Type 0
  Lighter hadamard left right =
      edge_weight c (xor (xor hadamard (flips left)) (flips right))
        (new_end u.fresh left == new_end u.fresh right)
      ≤ edge_weight c hadamard (old_end u.matched left == old_end u.matched right)

  abbrev Falling : Leg → Type 0
  Falling leg = weight_after c leg ≤ weight_before c leg

  Falling-legs : any (increases c) (legs rule) ≡ false → All Falling (legs rule)
  Falling-legs h =
      All-map (λ leg. increases c leg ≡ false) Falling (legs rule)
        (λ leg (fine : increases c leg ≡ false). ground (arith, fine))
        (All-any (increases c) (legs rule) h)

  star_end_lighter :
      (hadamard : Bool) (s : ℕ) (t : Target) (v : ℕ)
      → All Falling (legs rule)
      → In s (stars rule)
      → In t (targets rule s)
      → edge_weight c (xor hadamard t.flip) false ≤ edge_weight c hadamard (u.matched s == v)
  star_end_lighter hadamard s t v falls at listed = omega (
    arith,
    legs-covers_context rule Falling s hadamard t falls at listed,
    plain_lighter c hadamard (u.matched s == v),
  )

  two_stars-Lighter :
      (hadamard : Bool) (s1 : ℕ) (t1 : Target) (s2 : ℕ) (t2 : Target)
      → (u.fresh t1.to ≡ u.fresh t2.to → t1.to ≡ t2.to)
      → Falling (Leg.between s1 s2 hadamard t1 t2)
      → Lighter hadamard (at_star s1 t1) (at_star s2 t2)
  two_stars-Lighter hadamard s1 t1 s2 t2 apart falls = omega (
    arith,
    falls,
    loop_heavier c (xor (xor hadamard t1.flip) t2.flip) (u.fresh t1.to) (u.fresh t2.to) t1.to t2.to
        apart,
    loop_heavier c hadamard s1 s2 (u.matched s1) (u.matched s2) (λ e. ap u.matched e),
  )

  ends-Lighter :
      (hadamard : Bool) (left right : End)
      → All Falling (legs rule)
      → EndFits rule u left
      → EndFits rule u right
      → Apart rule u left right
      → Lighter hadamard left right
  ends-Lighter hadamard (at_context v) (at_context w) falls l r apart = ground arith
  ends-Lighter hadamard (at_star s t) (at_context v) falls (at, listed) r apart =
      rw (xor-false (xor hadamard t.flip), ne_false (u.fresh t.to) v apart)
        (star_end_lighter hadamard s t v falls at listed)
  ends-Lighter hadamard (at_context v) (at_star s t) falls l (at, listed) apart =
      rw
        (
          xor-false hadamard,
          ==_sym v (u.fresh t.to),
          ne_false (u.fresh t.to) v apart,
          ==_sym v (u.matched s),
        )
        (star_end_lighter hadamard s t v falls at listed)
  ends-Lighter hadamard (at_star s1 t1) (at_star s2 t2) falls (at1, listed1) (at2, listed2) apart =
      elim (legs-covers_stars rule Falling s1 s2 falls at1 at2) [
        | inl pair ↦
            two_stars-Lighter hadamard s1 t1 s2 t2 apart (pair hadamard t1 t2 listed1 listed2)
        | inr pair ↦
            rw
              (
                xor_swap hadamard t1.flip t2.flip,
                ==_sym (u.fresh t1.to) (u.fresh t2.to),
                ==_sym (u.matched s1) (u.matched s2),
              )
              (two_stars-Lighter hadamard s2 t2 s1 t1 (λ e. sym (apart (sym e)))
                (pair hadamard t2 t1 listed2 listed1))
      ]

  legs_lighter :
      (ls : List ResidualLeg)
      → All Falling (legs rule)
      → All (LegFits rule u) ls
      → edge_sum c (map (new_edge u.fresh) ls) ≤ edge_sum c (map (old_edge u.matched) ls)
  unfolding edge_sum
  legs_lighter [] falls h = omega arith
  legs_lighter (leg ∷ ls) falls ((l, r, apart), hs) =
      let here = ends-Lighter leg.hadamard leg.left leg.right falls l r apart in
      omega (arith, here, legs_lighter ls falls hs)

-- The second measure is less than the first one, in the lexicographic order.
abbrev pub Falls : (Component → ℕ) → (Component → ℕ) → List Component → Type 0
Falls f h [] = ⊥
Falls f h (c ∷ comps) = (h c < f c) ⊎ ((h c ≡ f c) × Falls f h comps)

below_or_same : (x y : ℕ) → x ≤ y → (x < y) ⊎ (x ≡ y)
below_or_same x y h = elim (Bool-cases (ltb x y)) [
  | inl low ↦ inl (ground (arith, low))
  | inr high ↦ inr (ground (arith, high, h))
]

check_from-Falls :
    (g : Grounding) (rule : Rule) (u : Use) (comps : List Component)
    → (check_from rule comps).decreases ≡ true
    → Fits rule u
    → Falls (measure g (host rule u)) (measure g (result rule u)) comps
unfolding check_from
check_from-Falls g rule u [] h fits = cc
check_from-Falls g rule u (c ∷ comps) h fits =
    let before = measure-host g c rule u in
    let after = measure-result g c rule u fits.wires_fit in
    elim (Bool-cases (ltb (bounds rule.lhs c).0 (bounds rule.rhs c).1)) [
      | inl worse ↦ absurd (ground (arith, worse, h))
      | inr fine ↦ elim (Bool-cases (any (increases c) (legs rule))) [
        | inl bad ↦ absurd (ground (arith, fine, bad, h))
        | inr good ↦
            let lighter = legs_lighter rule u c u.legs (Falling-legs rule u c good) fits.legs_fit in
            elim (Bool-cases (ltb (bounds rule.rhs c).1 (bounds rule.lhs c).0)) [
              | inl strict ↦ inl (ground (arith, strict, before, after, lighter))
              | inr tie ↦
                  let weak : measure g (result rule u) c ≤ measure g (host rule u) c =
                    ground (arith, fine, before, after, lighter) in
                  elim (below_or_same (measure g (result rule u) c) (measure g (host rule u) c)
                    weak) [
                      | inl strict ↦ inl strict
                      | inr same ↦ inr (
                        same,
                        check_from-Falls g rule u comps (ground (arith, fine, good, tie, h)) fits,
                      )
                    ]
            ]
      ]
    ]

no_failure :
    (rules : List Rule) (comps : List Component) (rule : Rule)
    → first_failure (map (λ r. check_from r comps) rules) ≡ none
    → In rule rules
    → (check_from rule comps).decreases ≡ true
no_failure [] comps rule h at = absurd at
no_failure (r ∷ rules) comps rule h at = elim (Bool-cases (check_from r comps).decreases) [
  | inr fails ↦ absurd (ground (arith, fails, h))
  | inl falls ↦ elim at [
    | inl same ↦ rw same falls
    | inr later ↦ no_failure rules comps rule (ground (arith, falls, h)) later
  ]
]

-- Where `check` reports no failure, every use of every one of the rules makes the measure strictly
-- less in the lexicographic order, for every fraction in place of every expression in a phase. A use
-- puts the left side into a host and replaces it by the right side: the rest of the host stays, and
-- every edge from a star to a star, itself included, or to a vertex that stays goes to a target of
-- the star, flipped as that target says. Fresh vertices differ for different targets and from the
-- vertices that stay, and no edge of the right side between different vertices becomes a loop.
pub check_ok :
    (rules : List Rule) (comps : List Component) {report : TerminationReport} (g : Grounding)
    (rule : Rule) (u : Use)
    → check rules comps ≡ some report
    → report.failure ≡ none
    → In rule rules
    → Fits rule u
    → Falls (measure g (host rule u)) (measure g (result rule u)) comps
unfolding check
check_ok rules [] g rule u h ok at fits = cc
check_ok rules (c ∷ comps) {report} g rule u h ok at fits =
    let fine : first_failure (map (λ r. check_from r (c ∷ comps)) rules) ≡ none =
      ground (arith, h, ok) in
    check_from-Falls g rule u (c ∷ comps) (no_failure rules (c ∷ comps) rule fine at) fits
