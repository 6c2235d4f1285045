-- ===== src/Fusion/Moves.antt =====
-- The moves of the tablebase search: `merge_fresh_ghz3` and `local_complements` of
-- src/empiricist/domain/p5/moves.py. The fusion within a component is left to the engines there.
pub mod Merging
pub mod Merged
use empiricist.Base.{
  ℕ, ◌+◌, ◌-◌, Bool, true, false, not, ◌&&◌, ◌||◌, Option, none, some, List, [], ◌∷◌, ◌++◌, map,
  ltb, ◌==◌, if◌then◌else◌,
}
use empiricist.Fusion.Graphs.{Edge, GraphState, graph_state, neighbors}
use empiricist.Fusion.Local.{local_complement}
use empiricist.Fusion.Orbit.{range_from}

-- `role`, and any other text
pub data Role : Type 0 where
  center leaf other_role : Role

-- `compact[q]`, of a q other than a
abbrev pub compact : ℕ → ℕ → ℕ
compact a q = if ltb q a then q else q - 1

pub kept_edges : ℕ → List Edge → List Edge
kept_edges a [] = []
kept_edges a ((u, v) ∷ edges) =
    let rest = kept_edges a edges in
    if a == u || a == v then rest else (compact a u, compact a v) ∷ rest

pub bipartite_edges : ℕ → List ℕ → List ℕ → List Edge
bipartite_edges a [] fresh = []
bipartite_edges a (x ∷ nbrs) fresh =
    map (λ v. (compact a x, v)) fresh ++ bipartite_edges a nbrs fresh

-- The fresh neighbours of the fused fresh qubit, and the edges that survive among the fresh qubits.
abbrev pub fresh_nbrs : ℕ → Role → List ℕ
fresh_nbrs n center = (n - 1) ∷ n ∷ []
fresh_nbrs n _ = (n - 1) ∷ []

abbrev pub internal_edges : ℕ → Role → List Edge
internal_edges n center = []
internal_edges n _ = (n - 1, n) ∷ []

abbrev pub is_role : Role → Bool
is_role other_role = false
is_role _ = true

pub new_edges : GraphState → ℕ → Role → List Edge
unfolding kept_edges bipartite_edges
new_edges gs a role =
    kept_edges a gs.edges
    ++ (bipartite_edges a (neighbors gs a) (fresh_nbrs gs.n role) ++ internal_edges gs.n role)

-- `merge_fresh_ghz3`; `none` where it raises ValueError.
pub merge_fresh_ghz3 : GraphState → ℕ → Role → Option GraphState
unfolding new_edges
merge_fresh_ghz3 gs a role =
    if not (ltb a gs.n)
    then none
    else if not (is_role role)
    then none
    else graph_state (gs.n + 1) (new_edges gs a role)

-- `local_complements`, each of which is there on a graph state
unfoldable local_complements : GraphState → List (Option GraphState)
unfolding local_complement range_from
local_complements gs = map (local_complement gs) (range_from 0 gs.n)
