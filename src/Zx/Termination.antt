-- ===== src/Zx/Termination.antt =====
-- Termination certificates: src/empiricist/packs/zx/termination.py. The texts and the measures that
-- a verdict reports are left out.
pub mod Covered
pub mod Decrease
pub mod Sums
pub mod Uses
use empiricist.Base.{
  ℕ, ◌+◌, Bool, true, false, not, ◌&&◌, ◌||◌, Option, none, some, List, [], ◌∷◌, ◌++◌, map, all,
  any, ltb, ◌==◌, if◌then◌else◌,
}
use empiricist.Base.Sets.{xor}
use empiricist.Ledger.Models.{Text}
use empiricist.Zx.Diagrams.{
  Kind, Phase, fraction, phase_expr, Vertex, Edge, Diagram, Target, Rule, stars, targets,
}

pub data Component : Type 0 where
  vertices z_vertices x_vertices edges hadamard_edges plain_edges self_loops phase_vertices
        pi_vertices :
      Component

abbrev pub as_int : Bool → ℕ
as_int true = 1
as_int false = 0

-- `_vertex_weight`
abbrev pub vertex_weight : Component → Kind → ℕ
vertex_weight vertices kind = 1
vertex_weight z_vertices Kind.z = 1
vertex_weight x_vertices Kind.x = 1
vertex_weight _ _ = 0

-- `_phase_weight_bounds`
abbrev pub phase_weight_bounds : Component → Phase → ℕ × ℕ
phase_weight_bounds phase_vertices (fraction p q) = let w = as_int (not (p == 0)) in (w, w)
phase_weight_bounds phase_vertices (phase_expr e) = (0, 1)
phase_weight_bounds pi_vertices (fraction p q) = let w = as_int (p == q) in (w, w)
phase_weight_bounds pi_vertices (phase_expr e) = (0, 1)
phase_weight_bounds _ phase = (0, 0)

-- `_edge_weight`
abbrev pub edge_weight : Component → Bool → Bool → ℕ
edge_weight edges hadamard loop = 1
edge_weight hadamard_edges hadamard loop = as_int hadamard
edge_weight plain_edges hadamard loop = as_int (not hadamard)
edge_weight self_loops hadamard loop = as_int loop
edge_weight _ hadamard loop = 0

abbrev pub is_boundary : Kind → Bool
is_boundary Kind.b = true
is_boundary _ = false

-- The loop over the vertices, and the sum over the edges.
unfoldable pub vertex_bounds : Component → List Vertex → ℕ × ℕ
vertex_bounds c [] = (0, 0)
vertex_bounds c (v ∷ vs) =
    let (low, high) = vertex_bounds c vs in
    if is_boundary v.kind then (low, high) else (
      vertex_weight c v.kind + (phase_weight_bounds c v.phase).0 + low,
      vertex_weight c v.kind + (phase_weight_bounds c v.phase).1 + high,
    )

unfoldable pub edge_sum : Component → List Edge → ℕ
edge_sum c [] = 0
edge_sum c (e ∷ es) = edge_weight c e.hadamard (e.source == e.target) + edge_sum c es

-- One component of `measure_bounds`
unfoldable pub bounds : Diagram → Component → ℕ × ℕ
unfolding vertex_bounds edge_sum
bounds d c =
    let (low, high) = vertex_bounds c d.vertices in
    (low + edge_sum c d.edges, high + edge_sum c d.edges)

-- The categories of residual legs: of a star to the context, and between two stars.
pub data Leg : Type 0 where
  to_context : (star : ℕ) (hadamard : Bool) (target : Target) → Leg
  between : (star other_star : ℕ) (hadamard : Bool) (target other_target : Target) → Leg

-- What a leg contributes on the left and on the right.
abbrev pub weight_before : Component → Leg → ℕ
weight_before c (to_context s h t) = edge_weight c h false
weight_before c (between s1 s2 h t1 t2) = edge_weight c h (s1 == s2)

abbrev pub weight_after : Component → Leg → ℕ
weight_after c (to_context s h t) = edge_weight c (xor h t.flip) false
weight_after c (between s1 s2 h t1 t2) =
    edge_weight c (xor (xor h t1.flip) t2.flip) (t1.to == t2.to)

unfoldable pub context_legs : Rule → List ℕ → List Leg
context_legs rule [] = []
context_legs rule (s ∷ ss) =
    map (to_context s false) (targets rule s)
    ++ map (to_context s true) (targets rule s)
    ++ context_legs rule ss

abbrev pub products : ℕ → ℕ → Bool → List Target → List Target → List Leg
products s1 s2 h [] t2s = []
products s1 s2 h (t1 ∷ t1s) t2s = map (between s1 s2 h t1) t2s ++ products s1 s2 h t1s t2s

unfoldable pub legs_from : Rule → ℕ → List ℕ → List Leg
legs_from rule s1 [] = []
legs_from rule s1 (s2 ∷ ss) =
    products s1 s2 false (targets rule s1) (targets rule s2)
    ++ products s1 s2 true (targets rule s1) (targets rule s2)
    ++ legs_from rule s1 ss

-- `combinations_with_replacement(stars, 2)`
unfoldable pub star_legs : Rule → List ℕ → List Leg
unfolding legs_from
star_legs rule [] = []
star_legs rule (s ∷ ss) = legs_from rule s (s ∷ ss) ++ star_legs rule ss

-- The legs that `_leg_diffs` goes through.
unfoldable pub legs : Rule → List Leg
unfolding context_legs star_legs
legs rule = context_legs rule (stars rule) ++ star_legs rule (stars rule)

-- `d < 0` for one of the differences
abbrev pub increases : Component → Leg → Bool
increases c leg = ltb (weight_before c leg) (weight_after c leg)

pub record RuleDecrease : Type 0 where
  pub rule : Text
  pub decreases : Bool
  pub component : Option Component

abbrev pub verdict : Rule → Bool → Option Component → RuleDecrease
verdict rule decreases component = record {
  rule = rule.name;
  decreases = decreases;
  component = component;
}

-- The loop of `check_rule`
unfoldable pub check_from : Rule → List Component → RuleDecrease
unfolding bounds legs
check_from rule [] = verdict rule false none
check_from rule (c ∷ comps) =
    let rest = check_from rule comps in
    let low = (bounds rule.lhs c).0 in
    let high = (bounds rule.rhs c).1 in
    if ltb low high
    then verdict rule false (some c)
    else if any (increases c) (legs rule)
    then verdict rule false (some c)
    else if ltb high low
    then verdict rule true (some c)
    else rest

-- `check_rule`; `none` where `validate_components` raises.
unfoldable check_rule : Rule → List Component → Option RuleDecrease
unfolding check_from
check_rule rule [] = none
check_rule rule (c ∷ comps) = some (check_from rule (c ∷ comps))

abbrev pub first_failure : List RuleDecrease → Option RuleDecrease
first_failure [] = none
first_failure (r ∷ rs) = if not r.decreases then some r else first_failure rs

pub record TerminationReport : Type 0 where
  pub components : List Component
  pub rules : List RuleDecrease
  pub failure : Option RuleDecrease

-- `check`, of the rules in the order of their names
unfoldable pub check : List Rule → List Component → Option TerminationReport
unfolding check_from
check rules [] = none
check rules (c ∷ comps) =
    let verdicts = map (λ rule. check_from rule (c ∷ comps)) rules in
    some (record { components = c ∷ comps; rules = verdicts; failure = first_failure verdicts })
