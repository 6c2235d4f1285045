-- ===== src/Fusion/Graphs.antt =====
-- Graph states: src/empiricist/domain/p5/graphstate.py. The views for stim and networkx are left
-- out. A frozen set of edges is an increasing list.
pub mod Edges
pub mod Building
use empiricist.Base.{
  ℕ, ◌+◌, ◌-◌, Bool, true, false, not, ◌&&◌, ◌||◌, Option, none, some, List, [], ◌∷◌, keep, map,
  ltb, ◌==◌, if◌then◌else◌, any,
}
use empiricist.Base.Sets.{mem, add, of_list, Increasing}

abbrev pub Edge : Type 0
Edge = ℕ × ℕ

abbrev pub edge_lt : Edge → Edge → Bool
edge_lt (a, b) (c, d) = ltb a c || (a == c && ltb b d)

pub record GraphState : Type 0 where
  pub n : ℕ
  pub edges : List Edge

-- `(a, b) if a < b else (b, a)`
abbrev pub normal : ℕ → ℕ → Edge
normal a b = if ltb a b then (a, b) else (b, a)

-- The loop of `__init__`; `none` where it raises ValueError.
pub normalize : ℕ → List Edge → List Edge → Option (List Edge)
normalize n [] norm = some norm
normalize n ((a, b) ∷ edges) norm =
    let rest = normalize n edges (add edge_lt (normal a b) norm) in
    if a == b then none else if not (ltb a n && ltb b n) then none else rest

abbrev with_edges : ℕ → Option (List Edge) → Option GraphState
with_edges n none = none
with_edges n (some edges) = some (record { n = n; edges = edges })

-- `GraphState(n, edges)`
unfoldable pub graph_state : ℕ → List Edge → Option GraphState
unfolding normalize
graph_state n edges = with_edges n (normalize n edges [])

-- The other ends of the edges at v, in the order of the edges.
pub ends_at : ℕ → List Edge → List ℕ
ends_at v [] = []
ends_at v ((a, b) ∷ edges) =
    let rest = ends_at v edges in if a == v then b ∷ rest else if b == v then a ∷ rest else rest

-- `neighbors`
unfoldable pub neighbors : GraphState → ℕ → List ℕ
unfolding ends_at
neighbors gs v = of_list ltb (ends_at v gs.edges)
