-- ===== src/Zx/Termination/Uses.antt =====
-- A use of a rule in a host, as `apply` of src/empiricist/packs/zx/rewrite.py builds its result.
use empiricist.Base.{ℕ, ◌≡◌, ◌≢◌, ◌⊎◌, Bool, false, not, List, [], ◌∷◌, ◌++◌, map, keep, All}
use empiricist.Base.Sets.{xor}
use empiricist.Ledger.Models.{Text}
use empiricist.Zx.Diagrams.{
  Phase, fraction, phase_expr, Vertex, Edge, Diagram, Target, Rule, stars, targets,
}
use empiricist.Zx.Termination.{Component, is_boundary, bounds}

-- A fraction for every expression.
abbrev pub Grounding : Type 0
Grounding = Text → ℕ × ℕ

abbrev pub grounded_phase : Grounding → Phase → Phase
grounded_phase g (fraction p q) = fraction p q
grounded_phase g (phase_expr e) = fraction (g e).0 (g e).1

abbrev pub grounded_vertex : Grounding → Vertex → Vertex
grounded_vertex g v = record v { phase = grounded_phase g v.phase }

abbrev pub grounded : Grounding → Diagram → Diagram
grounded g d = record d { vertices = map (grounded_vertex g) d.vertices }

-- A component of the measure of a diagram, with fractions for its expressions.
abbrev pub measure : Grounding → Diagram → Component → ℕ
measure g d c = (bounds (grounded g d) c).0

abbrev pub In : {A : Type 0} → A → List A → Type 0
In x [] = ⊥
In x (y ∷ ys) = (x ≡ y) ⊎ In x ys

-- An end of an edge that is not matched: at the image of a star, with the target that is chosen for
-- it, or at a vertex of the host that stays.
pub data End : Type 0 where
  at_star : (star : ℕ) (target : Target) → End
  at_context : (vertex : ℕ) → End

pub record ResidualLeg : Type 0 where
  pub left : End
  pub right : End
  pub hadamard : Bool

-- Where a rule is used: the images of the vertices of its left side and of its right side, the
-- vertices and the edges of the host that it does not touch, and the residual legs.
pub record Use : Type 0 where
  pub matched : ℕ → ℕ
  pub fresh : ℕ → ℕ
  pub vertices : List Vertex
  pub edges : List Edge
  pub legs : List ResidualLeg
  pub inputs : List ℕ
  pub outputs : List ℕ

abbrev pub placed : (ℕ → ℕ) → Vertex → Vertex
placed at v = record v { id = at v.id }

abbrev pub interior : List Vertex → List Vertex
interior vs = keep (λ v. not (is_boundary v.kind)) vs

abbrev pub placed_edge : (ℕ → ℕ) → Edge → Edge
placed_edge at e = record { source = at e.source; target = at e.target; hadamard = e.hadamard }

abbrev pub old_end : (ℕ → ℕ) → End → ℕ
old_end matched (at_star s t) = matched s
old_end matched (at_context v) = v

abbrev pub new_end : (ℕ → ℕ) → End → ℕ
new_end fresh (at_star s t) = fresh t.to
new_end fresh (at_context v) = v

abbrev pub flips : End → Bool
flips (at_star s t) = t.flip
flips (at_context v) = false

abbrev pub old_edge : (ℕ → ℕ) → ResidualLeg → Edge
old_edge matched leg = record {
  source = old_end matched leg.left;
  target = old_end matched leg.right;
  hadamard = leg.hadamard;
}

-- `(x, y, h ^ fx ^ fy)`
abbrev pub new_edge : (ℕ → ℕ) → ResidualLeg → Edge
new_edge fresh leg = record {
  source = new_end fresh leg.left;
  target = new_end fresh leg.right;
  hadamard = xor (xor leg.hadamard (flips leg.left)) (flips leg.right);
}

module _ (rule : Rule) (u : Use) where
  abbrev pub host : Diagram
  host = record {
    vertices = u.vertices ++ map (placed u.matched) (interior rule.lhs.vertices);
    edges =
        u.edges ++ map (placed_edge u.matched) rule.lhs.edges ++ map (old_edge u.matched) u.legs;
    inputs = u.inputs;
    outputs = u.outputs;
  }

  abbrev pub result : Diagram
  result = record {
    vertices = u.vertices ++ map (placed u.fresh) (interior rule.rhs.vertices);
    edges = u.edges ++ map (placed_edge u.fresh) rule.rhs.edges ++ map (new_edge u.fresh) u.legs;
    inputs = u.inputs;
    outputs = u.outputs;
  }

  -- The star of an end is one of the rule's and the target one of that star's.
  abbrev pub EndFits : End → Type 0
  EndFits (at_star s t) = In s (stars rule) × In t (targets rule s)
  EndFits (at_context v) = Unit

  -- Fresh vertices differ for different targets and from the vertices that stay.
  abbrev pub Apart : End → End → Type 0
  Apart (at_star s1 t1) (at_star s2 t2) = u.fresh t1.to ≡ u.fresh t2.to → t1.to ≡ t2.to
  Apart (at_star s t) (at_context v) = u.fresh t.to ≢ v
  Apart (at_context v) (at_star s t) = u.fresh t.to ≢ v
  Apart (at_context v) (at_context w) = Unit

  abbrev pub LegFits : ResidualLeg → Type 0
  LegFits leg = EndFits leg.left × EndFits leg.right × Apart leg.left leg.right

  -- The ends of an edge of the right side are one vertex in the result only if they are in the rule.
  abbrev pub WireFits : Edge → Type 0
  WireFits e = u.fresh e.source ≡ u.fresh e.target → e.source ≡ e.target

  pub record Fits : Type 0 where
    pub legs_fit : All LegFits u.legs
    pub wires_fit : All WireFits rule.rhs.edges
