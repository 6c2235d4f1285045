-- ===== src/Tests/Zx.antt =====
-- The witness of the termination certificates, and a use of a rule that a certificate does not cover.
use empiricist.Base.{
  ◌+◌, ◌≡◌, refl, true, false, none, some, [], ◌∷◌, ◌==◌, inl, inr, arith, if◌then◌else◌,
}
use empiricist.Zx.Diagrams.{Kind, fraction, phase_expr, Target, Rule}
use empiricist.Zx.Termination.{
  vertices, edges, self_loops, check, check_from, bounds, vertex_bounds, edge_sum, legs,
  context_legs, star_legs, legs_from, TerminationReport,
}
use empiricist.Zx.Termination.Uses.{
  Grounding, measure, at_star, at_context, Use, host, result, Fits,
}
use empiricist.Zx.Termination.Decrease.{Falls, check_ok}

abbrev same_spider : Target
same_spider = record { to = 0; flip = false }

-- The fusion of two Z spiders that a plain edge joins.
abbrev fusion : Rule
fusion = record {
  name = 1;
  lhs = record {
    vertices =
        record { id = 0; kind = Kind.z; phase = phase_expr 1 }
        ∷ record { id = 1; kind = Kind.z; phase = phase_expr 2 }
        ∷ [];
    edges = record { source = 0; target = 1; hadamard = false } ∷ [];
    inputs = [];
    outputs = [];
  };
  rhs = record {
    vertices = record { id = 0; kind = Kind.z; phase = phase_expr 3 } ∷ [];
    edges = [];
    inputs = [];
    outputs = [];
  };
  residual = (0, same_spider ∷ []) ∷ (1, same_spider ∷ []) ∷ [];
}

abbrev report : TerminationReport
report = record {
  components = vertices ∷ edges ∷ [];
  rules = record { rule = 1; decreases = true; component = some vertices } ∷ [];
  failure = none;
}

abbrev halves : Grounding
halves e = (1, 2)

fusion_passes : check (fusion ∷ []) (vertices ∷ edges ∷ []) ≡ some report
unfolding check check_from bounds vertex_bounds edge_sum legs context_legs star_legs legs_from
fusion_passes = refl

-- The spiders 10 and 11, joined by a matched plain edge and a Hadamard edge, with a loop at 10 and an
-- edge from 11 to the spider 12.
abbrev fusion_use : Use
fusion_use = record {
  matched = λ i. i + 10;
  fresh = λ i. i + 20;
  vertices = record { id = 12; kind = Kind.x; phase = fraction 0 1 } ∷ [];
  edges = [];
  legs =
      record { left = at_star 1 same_spider; right = at_star 0 same_spider; hadamard = true }
      ∷ record { left = at_star 0 same_spider; right = at_star 0 same_spider; hadamard = false }
      ∷ record { left = at_star 1 same_spider; right = at_context 12; hadamard = false }
      ∷ [];
  inputs = [];
  outputs = [];
}

fusion_fits : Fits fusion fusion_use
fusion_fits = record {
  legs_fit = (
    ((inr (inl refl), inl refl), (inl refl, inl refl), λ _. refl),
    (
      ((inl refl, inl refl), (inl refl, inl refl), λ _. refl),
      (((inr (inl refl), inl refl), tt, λ e. omega arith), tt),
    ),
  );
  wires_fit = tt;
}

check_ok_example :
    Falls
      (measure halves (host fusion fusion_use))
      (measure halves (result fusion fusion_use))
      (vertices ∷ edges ∷ [])
check_ok_example =
    check_ok (fusion ∷ []) (vertices ∷ edges ∷ []) halves fusion fusion_use fusion_passes refl
      (inl refl) fusion_fits

-- A Z spider without a phase between two interface vertices becomes a wire.
abbrev identity : Rule
identity = record {
  name = 2;
  lhs = record {
    vertices =
        record { id = 0; kind = Kind.b; phase = fraction 0 1 }
        ∷ record { id = 1; kind = Kind.z; phase = fraction 0 1 }
        ∷ record { id = 2; kind = Kind.b; phase = fraction 0 1 }
        ∷ [];
    edges =
        record { source = 0; target = 1; hadamard = false }
        ∷ record { source = 1; target = 2; hadamard = false }
        ∷ [];
    inputs = 0 ∷ [];
    outputs = 2 ∷ [];
  };
  rhs = record {
    vertices =
        record { id = 0; kind = Kind.b; phase = fraction 0 1 }
        ∷ record { id = 2; kind = Kind.b; phase = fraction 0 1 }
        ∷ [];
    edges = record { source = 0; target = 2; hadamard = false } ∷ [];
    inputs = 0 ∷ [];
    outputs = 2 ∷ [];
  };
  residual = [];
}

identity_passes :
    check (identity ∷ []) (self_loops ∷ vertices ∷ [])
    ≡ some (record {
      components = self_loops ∷ vertices ∷ [];
      rules = record { rule = 2; decreases = true; component = some vertices } ∷ [];
      failure = none;
    })
unfolding check check_from bounds vertex_bounds edge_sum legs context_legs star_legs legs_from
identity_passes = refl

-- Both interface vertices at the spider 5, and the spider of the rule at 7.
abbrev looping_use : Use
looping_use = record {
  matched = λ i. if i == 1 then 7 else 5;
  fresh = λ _. 5;
  vertices = record { id = 5; kind = Kind.z; phase = fraction 0 1 } ∷ [];
  edges = [];
  legs = [];
  inputs = [];
  outputs = [];
}

-- The wire becomes a loop, so that the first component rises.
loops_rise :
    (measure halves (host identity looping_use) self_loops ≡ 0)
    × (measure halves (result identity looping_use) self_loops ≡ 1)
unfolding bounds vertex_bounds edge_sum
loops_rise = (refl, refl)
