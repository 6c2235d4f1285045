-- ===== src/Fusion/Construction.antt =====
-- Constructions: src/empiricist/domain/p5/construction.py. An engine is a parameter: its states
-- with their active qubits, and what it does with them. An exception is `none`.
pub mod Qubits
use empiricist.Base.{
  ℕ, zero, suc, ◌+◌, ◌-◌, ◌*◌, Bool, true, false, Option, none, some, List, [], ◌∷◌, find, any,
  ◌==◌, if◌then◌else◌,
}
use empiricist.Base.Options.{◌>>=◌}
use empiricist.Fusion.Graphs.{Edge, GraphState, graph_state}
use empiricist.Fusion.Local.{local_complement}
use empiricist.Fusion.Orbit.{range_from}

pub data Step : Type 0 where
  fusion_op : ℕ → ℕ → Step
  local_complement_at : ℕ → Step

pub record Construction : Type 0 where
  pub resources : ℕ
  pub steps : List Step
  pub target : GraphState

-- `sum(1 for s in self.steps if isinstance(s, FusionOp))`
abbrev pub fusions : List Step → ℕ
fusions [] = 0
fusions (fusion_op a b ∷ steps) = suc (fusions steps)
fusions (local_complement_at v ∷ steps) = fusions steps

abbrev pub fusion_count : Construction → ℕ
fusion_count c = fusions c.steps

-- `__post_init__` does not raise.
abbrev pub is_sized : Construction → Bool
is_sized c = c.target.n + 2 * fusion_count c == 3 * c.resources

pub workspace_edges : List ℕ → List Edge
workspace_edges [] = []
workspace_edges (i ∷ is) = (3 * i, 3 * i + 1) ∷ (3 * i, 3 * i + 2) ∷ workspace_edges is

-- `build_workspace`
pub build_workspace : ℕ → Option GraphState
unfolding workspace_edges
build_workspace resources = graph_state (3 * resources) (workspace_edges (range_from 0 resources))

pub record Engine (S : Type 0) : Type 0 where
  pub state_from_graph : GraphState → Option S
  pub fuse : S → ℕ → ℕ → Option S
  pub to_graphstate : S → Option GraphState
  pub active : S → List ℕ

-- `xs.index(x)`
abbrev pub index : ℕ → List ℕ → Option ℕ
index x [] = none
index x (y ∷ ys) =
    if y == x then some 0 else elim (index x ys) [ none ↦ none | some i ↦ some (suc i) ]

-- `id_map[q]`, of a map as a list of pairs
abbrev pub at_key : ℕ → List (ℕ × ℕ) → Option ℕ
at_key q [] = none
at_key q ((k, v) ∷ ids) = if k == q then some v else at_key q ids

-- The ids that are still active, by their places.
abbrev pub relabelled : List ℕ → List (ℕ × ℕ) → List (ℕ × ℕ)
relabelled actives [] = []
relabelled actives ((k, v) ∷ ids) = elim (index v actives) [
  | none ↦ relabelled actives ids
  | some i ↦ (k, i) ∷ relabelled actives ids
]

abbrev pub identity_map : List ℕ → List (ℕ × ℕ)
identity_map [] = []
identity_map (i ∷ is) = (i, i) ∷ identity_map is

module _ {S : Type 0} (engine : Engine S) where
  -- `apply_local_complement`
  pub apply_local_complement : S → ℕ → Option S
  apply_local_complement state v = do
    graph ← engine.to_graphstate state
    turned ← local_complement graph v
    engine.state_from_graph turned

  -- The body of the loop over the steps.
  pub apply_step : Step → S × List (ℕ × ℕ) → Option (S × List (ℕ × ℕ))
  unfolding apply_local_complement
  apply_step (local_complement_at v) (state, ids) = do
    id ← at_key v ids
    local_v ← index id (engine.active state)
    next ← apply_local_complement state local_v
    some (next, relabelled (engine.active state) ids)
  apply_step (fusion_op a b) (state, ids) = do
    id_a ← at_key a ids
    id_b ← at_key b ids
    next ← engine.fuse state id_a id_b
    some (next, ids)

  pub apply_steps : List Step → S × List (ℕ × ℕ) → Option (S × List (ℕ × ℕ))
  unfolding apply_step
  apply_steps [] s = some s
  apply_steps (step ∷ steps) s = do next ← apply_step step s; apply_steps steps next

  -- `apply_construction`
  pub apply_construction : Construction → Option GraphState
  unfolding apply_steps
  apply_construction c = do
    workspace ← build_workspace c.resources
    state ← engine.state_from_graph workspace
    (last, ids) ← apply_steps c.steps (state, identity_map (range_from 0 (3 * c.resources)))
    engine.to_graphstate last
