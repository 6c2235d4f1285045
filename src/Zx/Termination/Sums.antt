-- ===== src/Zx/Termination/Sums.antt =====
-- The measure of a host and of the result of a rewrite, part by part.
use empiricist.Base.{
  ℕ, ◌+◌, ◌≤◌, ◌≡◌, Bool, true, List, [], ◌∷◌, ◌++◌, map, All, arith, Bool-cases, ◌==◌, ==_iff, inl,
  inr, ap,
}
use empiricist.Zx.Diagrams.{Phase, fraction, phase_expr, Vertex, Edge, Rule}
use empiricist.Zx.Termination.{
  Component, phase_weight_bounds, edge_weight, is_boundary, vertex_bounds, edge_sum, bounds,
}
use empiricist.Zx.Termination.Uses.{
  Grounding, grounded_phase, grounded_vertex, measure, Use, placed, interior, placed_edge, old_edge,
  new_edge, host, result, WireFits,
}

phase_between :
    (g : Grounding) (c : Component) (p : Phase)
    → ((phase_weight_bounds c p).0 ≤ (phase_weight_bounds c (grounded_phase g p)).0)
      × ((phase_weight_bounds c (grounded_phase g p)).0 ≤ (phase_weight_bounds c p).1)
phase_between g c (fraction p q) = ground arith
phase_between g c (phase_expr e) = ground arith

-- The vertices of a pattern, placed in the host: between the bounds of the pattern.
vertices_between :
    (g : Grounding) (c : Component) (at : ℕ → ℕ) (vs : List Vertex)
    → let exact = (vertex_bounds c (map (grounded_vertex g) (map (placed at) (interior vs)))).0 in
      ((vertex_bounds c vs).0 ≤ exact) × (exact ≤ (vertex_bounds c vs).1)
unfolding vertex_bounds
vertices_between g c at [] = (omega arith, omega arith)
vertices_between g c at (v ∷ vs) =
    let (low, high) = vertices_between g c at vs in
    let (under, over) = phase_between g c v.phase in
    elim (Bool-cases (is_boundary v.kind)) [
      | inl skipped ↦ (ground (arith, skipped, low), ground (arith, skipped, high))
      | inr inside ↦ (ground (arith, inside, low, under), ground (arith, inside, high, over))
    ]

vertex_bounds-append :
    (g : Grounding) (c : Component) (xs ys : List Vertex)
    → (vertex_bounds c (map (grounded_vertex g) (xs ++ ys))).0
      ≡ (vertex_bounds c (map (grounded_vertex g) xs)).0
        + (vertex_bounds c (map (grounded_vertex g) ys)).0
unfolding vertex_bounds
vertex_bounds-append g c [] ys = omega arith
vertex_bounds-append g c (x ∷ xs) ys =
    let rest = vertex_bounds-append g c xs ys in
    elim (Bool-cases (is_boundary x.kind)) [
      | inl skipped ↦ ground (arith, skipped, rest)
      | inr inside ↦ ground (arith, inside, rest)
    ]

edge_sum-append :
    (c : Component) (xs ys : List Edge) → edge_sum c (xs ++ ys) ≡ edge_sum c xs + edge_sum c ys
unfolding edge_sum
edge_sum-append c [] ys = omega arith
edge_sum-append c (x ∷ xs) ys = omega (arith, edge_sum-append c xs ys)

-- A loop weighs as much as an edge that is none, or more.
pub loop_heavier :
    (c : Component) (hadamard : Bool) (i j k l : ℕ)
    → (i ≡ j → k ≡ l)
    → edge_weight c hadamard (i == j) ≤ edge_weight c hadamard (k == l)
loop_heavier c hadamard i j k l h = elim (Bool-cases (i == j)) [
  | inl loop ↦
      let same : (k == l) ≡ true = (==_iff k l).1 (h ((==_iff i j).0 loop)) in
      ground (arith, loop, same)
  | inr plain ↦ ground (arith, plain)
]

lhs_edges :
    (c : Component) (at : ℕ → ℕ) (es : List Edge)
    → edge_sum c es ≤ edge_sum c (map (placed_edge at) es)
unfolding edge_sum
lhs_edges c at [] = omega arith
lhs_edges c at (e ∷ es) = omega (
  arith,
  loop_heavier c e.hadamard e.source e.target (at e.source) (at e.target) (λ h. ap at h),
  lhs_edges c at es,
)

rhs_edges :
    (c : Component) (rule : Rule) (u : Use) (es : List Edge)
    → All (WireFits rule u) es
    → edge_sum c (map (placed_edge u.fresh) es) ≤ edge_sum c es
unfolding edge_sum
rhs_edges c rule u [] h = omega arith
rhs_edges c rule u (e ∷ es) (h, hs) = omega (
  arith,
  loop_heavier c e.hadamard (u.fresh e.source) (u.fresh e.target) e.source e.target h,
  rhs_edges c rule u es hs,
)

-- What a host and a result have in common.
abbrev pub untouched : Grounding → Use → Component → ℕ
untouched g u c = (vertex_bounds c (map (grounded_vertex g) u.vertices)).0 + edge_sum c u.edges

-- The measure of a diagram in which the vertices stand in two parts and the edges in three.
measure-parts :
    (g : Grounding) (c : Component) (u : Use) (vs : List Vertex) (es fs : List Edge)
    → measure g
        (record {
          vertices = u.vertices ++ vs;
          edges = u.edges ++ es ++ fs;
          inputs = u.inputs;
          outputs = u.outputs;
        })
        c
      ≡ untouched g u c
        + (vertex_bounds c (map (grounded_vertex g) vs)).0
        + (edge_sum c es + edge_sum c fs)
unfolding bounds
measure-parts g c u vs es fs =
    let vertex_part = vertex_bounds-append g c u.vertices vs in
    let edge_part : edge_sum c (u.edges ++ es ++ fs)
        ≡ edge_sum c u.edges + edge_sum c es + edge_sum c fs =
      omega (arith, edge_sum-append c (u.edges ++ es) fs, edge_sum-append c u.edges es) in
    rw (vertex_part, edge_part) (omega arith)

-- The host weighs at least the lower bound of the left side, besides what stays and the legs.
pub measure-host :
    (g : Grounding) (c : Component) (rule : Rule) (u : Use)
    → untouched g u c + (bounds rule.lhs c).0 + edge_sum c (map (old_edge u.matched) u.legs)
      ≤ measure g (host rule u) c
unfolding bounds
measure-host g c rule u =
    let placed_vertices = map (placed u.matched) (interior rule.lhs.vertices) in
    let placed_edges = map (placed_edge u.matched) rule.lhs.edges in
    let (low, _) = vertices_between g c u.matched rule.lhs.vertices in
    let total =
      measure-parts g c u placed_vertices placed_edges (map (old_edge u.matched) u.legs) in
    omega (arith, total, low, lhs_edges c u.matched rule.lhs.edges)

-- The result weighs at most the upper bound of the right side, besides what stays and the legs.
pub measure-result :
    (g : Grounding) (c : Component) (rule : Rule) (u : Use)
    → All (WireFits rule u) rule.rhs.edges
    → measure g (result rule u) c
      ≤ untouched g u c + (bounds rule.rhs c).1 + edge_sum c (map (new_edge u.fresh) u.legs)
unfolding bounds
measure-result g c rule u wires =
    let placed_vertices = map (placed u.fresh) (interior rule.rhs.vertices) in
    let placed_edges = map (placed_edge u.fresh) rule.rhs.edges in
    let (_, high) = vertices_between g c u.fresh rule.rhs.vertices in
    let total = measure-parts g c u placed_vertices placed_edges (map (new_edge u.fresh) u.legs) in
    omega (arith, total, high, rhs_edges c rule u rule.rhs.edges wires)
