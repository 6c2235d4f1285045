-- ===== src/Fusion/Construction/Qubits.antt =====
-- The workspace, and the number of qubits of what a construction makes.
use empiricist.Base.{
  ℕ, zero, suc, ◌+◌, ◌*◌, ◌≤◌, ◌≡◌, refl, ap, subst, true, Option, none, some, List, [], ◌∷◌, all,
  length, ==_iff, arith,
}
use empiricist.Base.Options.{>>=-some}
use empiricist.Fusion.Graphs.{GraphState, normal, graph_state, neighbors}
use empiricist.Fusion.Graphs.Edges.{IsGraph, adjacent}
use empiricist.Fusion.Graphs.Building.{Built, is_edge, joins, graph_state_ok}
use empiricist.Fusion.Orbit.{range_from}
use empiricist.Fusion.Construction.{
  Step, fusion_op, local_complement_at, Construction, fusions, fusion_count, is_sized,
  workspace_edges, build_workspace, Engine, index, at_key, identity_map, apply_local_complement,
  apply_step, apply_steps, apply_construction,
}
use empiricist.Fusion.Local.{toggle_pairs, local_complement}

workspace_edges-fit :
    (n start count : ℕ)
    → 3 * (start + count) ≤ n
    → all (is_edge n) (workspace_edges (range_from start count)) ≡ true
unfolding workspace_edges range_from
workspace_edges-fit n start zero h = refl
workspace_edges-fit n start (suc count) h =
    ground (arith, workspace_edges-fit n (suc start) count (omega (arith, h)))

-- `build_workspace` never raises: it returns a graph state on three qubits for each resource, with
-- the edges of the stars and no others.
pub build_workspace_ok :
    (resources : ℕ)
    → (gs : GraphState) × (build_workspace resources ≡ some gs)
      × (gs.n ≡ 3 * resources)
      × IsGraph gs
      × ((b c : ℕ)
          → adjacent gs b c ≡ joins (workspace_edges (range_from 0 resources)) (normal b c))
unfolding build_workspace
build_workspace_ok resources =
    built (graph_state (3 * resources) (workspace_edges (range_from 0 resources)))
      (graph_state_ok (3 * resources) (workspace_edges (range_from 0 resources)))
  where
    built :
        (o : Option GraphState)
        → Built (3 * resources) (workspace_edges (range_from 0 resources)) o
        → (gs : GraphState) × (o ≡ some gs)
          × (gs.n ≡ 3 * resources)
          × IsGraph gs
          × ((b c : ℕ)
              → adjacent gs b c ≡ joins (workspace_edges (range_from 0 resources)) (normal b c))
    built none h =
        absurd (ground (arith, h, workspace_edges-fit (3 * resources) 0 resources (omega arith)))
    built (some gs) (fits, size, graph, joined) = (gs, refl, size, graph, joined)

-- What the documentation of the engines says of the number of active qubits.
pub record IsCounting {S : Type 0} (engine : Engine S) : Type 0 where
  pub of_graph :
      (g : GraphState) (s : S) → engine.state_from_graph g ≡ some s → length (engine.active s) ≡ g.n
  pub of_fuse :
      (s : S) (a b : ℕ) (t : S)
      → engine.fuse s a b ≡ some t
      → length (engine.active t) + 2 ≡ length (engine.active s)
  pub of_state :
      (s : S) (g : GraphState) → engine.to_graphstate s ≡ some g → g.n ≡ length (engine.active s)

local_complement-n : (gs hs : GraphState) (v : ℕ) → local_complement gs v ≡ some hs → hs.n ≡ gs.n
unfolding local_complement
local_complement-n gs hs v h =
    let edges = toggle_pairs (neighbors gs v) gs.edges in
    (subst (Built gs.n edges) h (graph_state_ok gs.n edges)).1

module _ {S : Type 0} (engine : Engine S) (counting : IsCounting engine) where
  apply_step-active :
      (s : Step) (state : S) (ids : List (ℕ × ℕ)) {next : S} {ids' : List (ℕ × ℕ)}
      → apply_step engine s (state, ids) ≡ some (next, ids')
      → length (engine.active next) + 2 * fusions (s ∷ []) ≡ length (engine.active state)
  unfolding apply_step apply_local_complement
  apply_step-active (local_complement_at v) state ids {next} {ids'} h =
      let (id, _, h1) = >>=-some (at_key v ids) _ h in
      let (local_v, _, h2) = >>=-some (index id (engine.active state)) _ h1 in
      let (turned_state, h3, h4) = >>=-some (apply_local_complement engine state local_v) _ h2 in
      let (graph, made, h5) = >>=-some (engine.to_graphstate state) _ h3 in
      let (turned, complemented, h6) = >>=-some (local_complement graph local_v) _ h5 in
      let same : turned_state ≡ next = ground (arith, h4) in
      let size = counting.of_graph turned turned_state h6 in
      subst (λ s. length (engine.active s) + 0 ≡ length (engine.active state)) same
        (omega (
          arith,
          size,
          local_complement-n graph turned local_v complemented,
          counting.of_state state graph made,
        ))
  apply_step-active (fusion_op a b) state ids {next} {ids'} h =
      let (id_a, _, h1) = >>=-some (at_key a ids) _ h in
      let (id_b, _, h2) = >>=-some (at_key b ids) _ h1 in
      let (fused, run, h3) = >>=-some (engine.fuse state id_a id_b) _ h2 in
      let same : fused ≡ next = ground (arith, h3) in
      subst (λ s. length (engine.active s) + 2 ≡ length (engine.active state)) same
        (counting.of_fuse state id_a id_b fused run)

  apply_steps-active :
      (steps : List Step) (state : S) (ids : List (ℕ × ℕ)) {last : S} {ids' : List (ℕ × ℕ)}
      → apply_steps engine steps (state, ids) ≡ some (last, ids')
      → length (engine.active last) + 2 * fusions steps ≡ length (engine.active state)
  unfolding apply_steps
  apply_steps-active [] state ids {last} {ids'} h =
      let same : state ≡ last = ground (arith, h) in
      subst (λ s. length (engine.active s) + 0 ≡ length (engine.active state)) same (omega arith)
  apply_steps-active (s ∷ steps) state ids {last} {ids'} h =
      let ((next, ids1), one, more) = >>=-some (apply_step engine s (state, ids)) _ h in
      let first = apply_step-active s state ids one in
      let others = apply_steps-active steps next ids1 more in split s first others
    where
      split :
          (s : Step) {m : ℕ}
          → m + 2 * fusions (s ∷ []) ≡ length (engine.active state)
          → length (engine.active last) + 2 * fusions steps ≡ m
          → length (engine.active last) + 2 * fusions (s ∷ steps) ≡ length (engine.active state)
      split (fusion_op a b) e e' = omega (arith, e, e')
      split (local_complement_at v) e e' = omega (arith, e, e')

  -- With an engine that removes two qubits at a fusion and keeps the number in its conversions,
  -- what the construction makes has the number of qubits of its target, if the construction passes
  -- its own check and no step raises.
  pub apply_construction-n :
      (c : Construction) {gs : GraphState}
      → is_sized c ≡ true
      → apply_construction engine c ≡ some gs
      → gs.n ≡ c.target.n
  unfolding apply_construction
  apply_construction-n c {gs} sized h =
      let (workspace, built, h1) = >>=-some (build_workspace c.resources) _ h in
      let (state, started, h2) = >>=-some (engine.state_from_graph workspace) _ h1 in
      let ((last, ids), run, h3) =
        >>=-some (apply_steps engine c.steps (state, identity_map (range_from 0 (3 * c.resources))))
          _ h2 in
      let (ws, made, size, graph, joined) = build_workspace_ok c.resources in
      let same : workspace ≡ ws = ground (arith, built, made) in
      omega (
        arith,
        counting.of_state last gs h3,
        apply_steps-active c.steps state (identity_map (range_from 0 (3 * c.resources))) run,
        counting.of_graph workspace state started,
        ap (λ (g : GraphState). g.n) same,
        size,
        (==_iff (c.target.n + 2 * fusion_count c) (3 * c.resources)).0 sized,
      )
