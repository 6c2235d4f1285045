-- ===== src/Zx/Diagrams.antt =====
-- ZX diagrams and rewrite rules: the data of src/empiricist/packs/zx/diagram.py and rules.py. A
-- ground phase is a fraction below 2; an expression in a phase is a text. The checks of their
-- constructors are left out.
use empiricist.Base.{ℕ, Bool, List, [], ◌∷◌, map, ◌==◌, if◌then◌else◌}
use empiricist.Ledger.Models.{Text}

pub data Kind : Type 0 where
  z x b : Kind

pub data Phase : Type 0 where
  fraction : (numerator denominator : ℕ) → Phase
  phase_expr : Text → Phase

pub record Vertex : Type 0 where
  pub id : ℕ
  pub kind : Kind
  pub phase : Phase

pub record Edge : Type 0 where
  pub source : ℕ
  pub target : ℕ
  pub hadamard : Bool

pub record Diagram : Type 0 where
  pub vertices : List Vertex
  pub edges : List Edge
  pub inputs : List ℕ
  pub outputs : List ℕ

-- A target of a star's legs, and whether they are flipped.
pub record Target : Type 0 where
  pub to : ℕ
  pub flip : Bool

pub record Rule : Type 0 where
  pub name : Text
  pub lhs : Diagram
  pub rhs : Diagram
  pub residual : List (ℕ × List Target)

abbrev pub stars : Rule → List ℕ
stars rule = map (λ r. r.0) rule.residual

abbrev pub targets_in : List (ℕ × List Target) → ℕ → List Target
targets_in [] star = []
targets_in ((s, targets) ∷ residual) star = if s == star then targets else targets_in residual star

-- `targets`
abbrev pub targets : Rule → ℕ → List Target
targets rule star = targets_in rule.residual star
