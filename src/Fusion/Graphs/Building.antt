-- ===== src/Fusion/Graphs/Building.antt =====
-- What `GraphState(n, edges)` makes of a list of edges.
use empiricist.Base.{
  ℕ, ◌≡◌, refl, ◌∙◌, inl, inr, Bool, true, false, not, ◌&&◌, ◌||◌, Option, none, some, List, [],
  ◌∷◌, any, all, ltb, ◌==◌, All, arith, Bool-cases,
}
use empiricist.Base.Sets.{
  same, mem, add, Increasing, mem-add, All-add, Increasing-add, Increasing-ext,
}
use empiricist.Fusion.Graphs.{Edge, edge_lt, GraphState, normal, normalize, graph_state}
use empiricist.Fusion.Graphs.Edges.{edge_lt-IsLinear, IsEdge, IsGraph, adjacent}

-- The two ends differ and are vertices.
abbrev pub is_edge : ℕ → Edge → Bool
is_edge n (a, b) = not (a == b) && ltb a n && ltb b n

-- Some given edge joins the vertices, in one of the two directions.
abbrev pub joins : List Edge → Edge → Bool
joins edges e = any (λ d. same edge_lt e (normal d.0 d.1)) edges

normal-IsEdge : (n a b : ℕ) → is_edge n (a, b) ≡ true → IsEdge n (normal a b)
normal-IsEdge n a b h = elim (Bool-cases (ltb a b)) [
  | inl low ↦ rw low (ground (arith, h, low), ground (arith, h))
  | inr high ↦ rw high (ground (arith, h, high), ground (arith, h))
]

record Normalized (n : ℕ) (edges norm out : List Edge) : Type 0 where
  inc : Increasing edge_lt out
  within : All (IsEdge n) out
  has : (e : Edge) → mem edge_lt e out ≡ (mem edge_lt e norm || joins edges e)

normalize_ok :
    (n : ℕ) (edges norm : List Edge)
    → all (is_edge n) edges ≡ true
    → Increasing edge_lt norm
    → All (IsEdge n) norm
    → (out : List Edge) × (normalize n edges norm ≡ some out) × Normalized n edges norm out
unfolding normalize
normalize_ok n [] norm h inc within =
    (norm, refl, record { inc = inc; within = within; has = λ e. ground arith })
normalize_ok n ((a, b) ∷ edges) norm h inc within =
    let next = add edge_lt (normal a b) norm in
    let (out, run, r) =
      normalize_ok n edges next (ground (arith, h))
        (Increasing-add edge_lt edge_lt-IsLinear (normal a b) norm inc)
        (All-add edge_lt edge_lt-IsLinear (IsEdge n) (normal a b) norm
          (normal-IsEdge n a b (ground (arith, h))) within) in
    let off : (a == b) ≡ false = ground (arith, h) in
    let inside : (ltb a n && ltb b n) ≡ true = ground (arith, h) in
    (
      out,
      rw (off, inside) run,
      record {
        inc = r.inc;
        within = r.within;
        has = λ e.
            rw (r.has e, mem-add edge_lt edge_lt-IsLinear e (normal a b) norm)
              (swap (same edge_lt e (normal a b)) (mem edge_lt e norm) (joins edges e));
      },
    )
  where
    swap : (x y z : Bool) → ((x || y) || z) ≡ (y || (x || z))
    swap x y z = ground arith

normalize_err :
    (n : ℕ) (edges norm : List Edge) → all (is_edge n) edges ≡ false → normalize n edges norm ≡ none
unfolding normalize
normalize_err n [] norm h = cc
normalize_err n ((a, b) ∷ edges) norm h = elim (Bool-cases (is_edge n (a, b))) [
  | inl fits ↦
      let run = normalize_err n edges (add edge_lt (normal a b) norm) (ground (arith, h, fits)) in
      let off : (a == b) ≡ false = ground (arith, fits) in
      let inside : (ltb a n && ltb b n) ≡ true = ground (arith, fits) in rw (off, inside) run
  | inr breaks ↦ elim (Bool-cases (a == b)) [
    | inl loop ↦ rw loop refl
    | inr off ↦ rw (off, stuck a b off breaks) refl
  ]
]
  where
    stuck : (a b : ℕ) → (a == b) ≡ false → is_edge n (a, b) ≡ false → (ltb a n && ltb b n) ≡ false
    stuck a b off breaks = ground (arith, off, breaks)

-- What `GraphState(n, edges)` is to be.
abbrev pub Built : ℕ → List Edge → Option GraphState → Type 0
Built n edges none = all (is_edge n) edges ≡ false
Built n edges (some gs) =
    (all (is_edge n) edges ≡ true)
    × (gs.n ≡ n)
    × IsGraph gs
    × ((b c : ℕ) → adjacent gs b c ≡ joins edges (normal b c))

-- `GraphState(n, edges)` raises where some edge is a loop or has an end that is not below n. Else
-- it returns n vertices with edges between different vertices, in increasing order and each once,
-- and joins exactly those that an edge of the argument joins in one of its directions.
pub graph_state_ok : (n : ℕ) (edges : List Edge) → Built n edges (graph_state n edges)
unfolding graph_state
graph_state_ok n edges = elim (Bool-cases (all (is_edge n) edges)) [
  | inl fits ↦
      let (out, run, r) = normalize_ok n edges [] fits tt tt in
      rw run
        (fits, refl, record { increasing = r.inc; in_range = r.within }, λ b c. r.has (normal b c))
  | inr breaks ↦ rw (normalize_err n edges [] breaks) breaks
]

joins-mem :
    (n : ℕ) (edges : List Edge) (e : Edge)
    → All (IsEdge n) edges
    → joins edges e ≡ mem edge_lt e edges
joins-mem n [] e h = refl
joins-mem n ((a, b) ∷ edges) e (h, hs) =
    let low : ltb a b ≡ true = ground (arith, h.0) in rw (low, joins-mem n edges e hs) refl

IsEdge-is_edge : (n : ℕ) (edges : List Edge) → All (IsEdge n) edges → all (is_edge n) edges ≡ true
IsEdge-is_edge n [] h = refl
IsEdge-is_edge n ((a, b) ∷ edges) ((low, high), hs) = ground (arith, IsEdge-is_edge n edges hs)

-- The edges of a graph state make that graph state again.
pub graph_state_same : (gs : GraphState) → IsGraph gs → graph_state gs.n gs.edges ≡ some gs
unfolding graph_state
graph_state_same gs h =
    let (out, run, r) =
      normalize_ok gs.n gs.edges [] (IsEdge-is_edge gs.n gs.edges h.in_range) tt tt in
    let e : out ≡ gs.edges =
      Increasing-ext edge_lt edge_lt-IsLinear out gs.edges r.inc h.increasing
        (λ d. r.has d ∙ joins-mem gs.n gs.edges d h.in_range) in
    rw (run, e) refl
