-- ===== src/Fusion/Local.antt =====
-- Local complementation: `local_complement` of src/empiricist/domain/p5/localcomp.py.
pub mod Bouchet
pub mod Involution
use empiricist.Base.{ℕ, Option, List, [], ◌∷◌}
use empiricist.Base.Sets.{toggle}
use empiricist.Fusion.Graphs.{Edge, edge_lt, GraphState, normal, graph_state, neighbors}

-- The inner loop, over the neighbours after b.
pub toggle_with : ℕ → List ℕ → List Edge → List Edge
toggle_with b [] edges = edges
toggle_with b (c ∷ nbrs) edges = toggle_with b nbrs (toggle edge_lt (normal b c) edges)

pub toggle_pairs : List ℕ → List Edge → List Edge
unfolding toggle_with
toggle_pairs [] edges = edges
toggle_pairs (b ∷ nbrs) edges = toggle_pairs nbrs (toggle_with b nbrs edges)

-- `local_complement`; `none` where `GraphState` raises.
unfoldable pub local_complement : GraphState → ℕ → Option GraphState
unfolding toggle_pairs neighbors graph_state
local_complement gs a = graph_state gs.n (toggle_pairs (neighbors gs a) gs.edges)
