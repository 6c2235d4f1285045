-- ===== src/Fusion/Orbit.antt =====
-- The orbit under local complementation: `lc_orbit` of src/empiricist/domain/p5/localcomp.py. A
-- round of the search takes fuel; running out of it is an outcome of its own, and two more than the
-- cap is enough.
pub mod Members
pub mod Closed
pub mod Whole
use empiricist.Base.{
  ℕ, zero, suc, ◌+◌, Bool, true, false, not, ◌&&◌, ◌||◌, Option, none, some, List, [], ◌∷◌, ◌++◌,
  any, length, ltb, leb, ◌==◌, if◌then◌else◌,
}
use empiricist.Base.Sets.{same}
use empiricist.Base.Visits.{Visit, going, stopped, out_of_fuel, continue, each}
use empiricist.Fusion.Graphs.{Edge, edge_lt, GraphState}
use empiricist.Fusion.Local.{local_complement}

-- `OrbitTooLarge`, and the error of `GraphState`, which never occurs.
pub data OrbitError : Type 0 where
  orbit_too_large value_error : OrbitError

abbrev pub is_same_edges : List Edge → List Edge → Bool
is_same_edges [] [] = true
is_same_edges (d ∷ ds) (e ∷ es) = same edge_lt d e && is_same_edges ds es
is_same_edges _ _ = false

-- `==` of graph states
abbrev pub is_same : GraphState → GraphState → Bool
is_same g h = g.n == h.n && is_same_edges g.edges h.edges

abbrev pub is_member : GraphState → List GraphState → Bool
is_member g gs = any (is_same g) gs

-- The set of what was found, in the order in which it was, and the queue.
pub record Search : Type 0 where
  pub seen : List GraphState
  pub queue : List GraphState

abbrev pub find_new : ℕ → GraphState → Search → Visit OrbitError Search
find_new limit h s =
    if is_member h s.seen
    then going s
    else if leb limit (length s.seen)
    then stopped orbit_too_large
    else going (record { seen = s.seen ++ h ∷ []; queue = s.queue ++ h ∷ [] })

abbrev pub or_value_error : ℕ → Option GraphState → Search → Visit OrbitError Search
or_value_error limit none s = stopped value_error
or_value_error limit (some h) s = find_new limit h s

-- The body of the loop over the vertices.
pub turn : ℕ → GraphState → ℕ → Search → Visit OrbitError Search
turn limit g v s = or_value_error limit (local_complement g v) s

-- `range(n)`, from a start on
unfoldable pub range_from : ℕ → ℕ → List ℕ
range_from start zero = []
range_from start (suc n) = start ∷ range_from (suc start) n

-- The loop over the queue, up to the set of what was found.
pub explore : ℕ → ℕ → Search → Visit OrbitError (List GraphState)
unfolding turn range_from each
explore limit zero s = out_of_fuel
explore limit (suc fuel) s = elim s.queue [
  | [] ↦ going s.seen
  | ◌∷◌ g queue ↦
      continue (each (turn limit g) (range_from 0 g.n) (record s { queue = queue }))
        (explore limit fuel)
]

-- `<` of lists of edges
abbrev pub is_less : List Edge → List Edge → Bool
is_less [] [] = false
is_less [] (e ∷ es) = true
is_less (d ∷ ds) [] = false
is_less (d ∷ ds) (e ∷ es) = edge_lt d e || (same edge_lt d e && is_less ds es)

-- The order of the keys `(len(g.edges), sorted(g.edges))`.
abbrev pub comes_first : GraphState → GraphState → Bool
comes_first g h =
    ltb (length g.edges) (length h.edges)
    || (length g.edges == length h.edges && not (is_less h.edges g.edges))

pub insert_graph : GraphState → List GraphState → List GraphState
insert_graph g [] = g ∷ []
insert_graph g (h ∷ hs) = if comes_first g h then g ∷ h ∷ hs else h ∷ insert_graph g hs

pub sort_graphs : List GraphState → List GraphState
unfolding insert_graph
sort_graphs [] = []
sort_graphs (g ∷ gs) = insert_graph g (sort_graphs gs)

-- `lc_orbit`
pub lc_orbit : GraphState → ℕ → Visit OrbitError (List GraphState)
unfolding explore sort_graphs
lc_orbit gs limit =
    continue (explore limit (limit + 2) (record { seen = gs ∷ []; queue = gs ∷ [] }))
      λ seen. going (sort_graphs seen)
