-- ===== src/Fusion/Local/Bouchet.antt =====
-- What local complementation does to the edges.
use empiricist.Base.{
  ℕ, ◌≡◌, refl, sym, ◌∙◌, subst, inl, inr, Bool, ap, true, not, false, ◌&&◌, ◌||◌, some, List, [],
  ◌∷◌, ltb, ◌==◌, ==_iff, All, arith, Bool-cases,
}
use empiricist.Base.Sets.{
  mem, toggle, xor, Increasing, mem-toggle, below-mem, Increasing-toggle, All-toggle, All-mem,
}
use empiricist.Fusion.Graphs.{Edge, edge_lt, GraphState, ends_at, neighbors}
use empiricist.Fusion.Graphs.Edges.{
  ltb-IsLinear, edge_lt-IsLinear, IsEdge, IsGraph, adjacent, same_edge, same_num, mem-neighbors,
  Increasing-of_list, adjacent-below, adjacent_sym, adjacent_irreflexive,
}
use empiricist.Fusion.Graphs.Building.{graph_state_same}
use empiricist.Fusion.Local.{toggle_with, toggle_pairs, local_complement}

mem-toggle_with :
    (p q b : ℕ) (nbrs : List ℕ) (edges : List Edge)
    → All (λ c. ltb b c ≡ true) nbrs
    → Increasing ltb nbrs
    → mem edge_lt (p, q) (toggle_with b nbrs edges)
      ≡ xor (mem edge_lt (p, q) edges) (p == b && mem ltb q nbrs)
unfolding toggle_with
mem-toggle_with p q b [] edges low inc = ground arith
mem-toggle_with p q b (c ∷ nbrs) edges (low, lows) (above, inc) =
    rw
      (
        low,
        mem-toggle_with p q b nbrs (toggle edge_lt (b, c) edges) lows inc,
        mem-toggle edge_lt edge_lt-IsLinear (p, q) (b, c) edges,
        same_edge p q b c,
        same_num q c,
      )
      (once (mem edge_lt (p, q) edges) (p == b) (mem ltb q nbrs) apart)
  where
    apart : (q == c) ≡ true → mem ltb q nbrs ≡ false
    apart e =
        subst (λ w. mem ltb w nbrs ≡ false) (sym ((==_iff q c).0 e))
          (below-mem ltb ltb-IsLinear c nbrs above)

    once :
        (m x r : Bool)
        → ((q == c) ≡ true → r ≡ false)
        → xor (xor m (x && q == c)) (x && r) ≡ xor m (x && (q == c || r))
    once m x r h = elim (Bool-cases (q == c)) [
      | inl hit ↦ ground (arith, hit, h hit)
      | inr miss ↦ ground (arith, miss)
    ]

mem_above :
    (b x : ℕ) (nbrs : List ℕ)
    → All (λ c. ltb b c ≡ true) nbrs
    → mem ltb x nbrs ≡ true
    → ltb b x ≡ true
mem_above b x [] h m = cc
mem_above b x (c ∷ nbrs) (h, hs) m = elim (Bool-cases (x == c)) [
  | inl hit ↦ subst (λ w. ltb b w ≡ true) (sym ((==_iff x c).0 hit)) h
  | inr miss ↦ mem_above b x nbrs hs (ground (arith, m, miss))
]

mem-toggle_pairs :
    (p q : ℕ) (nbrs : List ℕ) (edges : List Edge)
    → Increasing ltb nbrs
    → mem edge_lt (p, q) (toggle_pairs nbrs edges)
      ≡ xor (mem edge_lt (p, q) edges) (ltb p q && (mem ltb p nbrs && mem ltb q nbrs))
unfolding toggle_pairs
mem-toggle_pairs p q [] edges inc = ground arith
mem-toggle_pairs p q (b ∷ nbrs) edges (above, inc) =
    rw
      (
        mem-toggle_pairs p q nbrs (toggle_with b nbrs edges) inc,
        mem-toggle_with p q b nbrs edges above inc,
        same_num p b,
        same_num q b,
      )
      (split (mem edge_lt (p, q) edges) (mem ltb p nbrs) (mem ltb q nbrs) (apart p) (apart q)
        (mem_above b p nbrs above) (mem_above b q nbrs above))
  where
    apart : (x : ℕ) → (x == b) ≡ true → mem ltb x nbrs ≡ false
    apart x e =
        subst (λ w. mem ltb w nbrs ≡ false) (sym ((==_iff x b).0 e))
          (below-mem ltb ltb-IsLinear b nbrs above)

    split :
        (m u v : Bool)
        → ((p == b) ≡ true → u ≡ false)
        → ((q == b) ≡ true → v ≡ false)
        → (u ≡ true → ltb b p ≡ true)
        → (v ≡ true → ltb b q ≡ true)
        → xor (xor m (p == b && v)) (ltb p q && (u && v))
          ≡ xor m (ltb p q && ((p == b || u) && (q == b || v)))
    split m u true hu hv ku kv = ground (arith, hu, hv, ku, kv refl)
    split m true false hu hv ku kv = ground (arith, hu, hv, ku refl, kv)
    split m false false hu hv ku kv = ground (arith, hu, hv, ku, kv)

module _ (n : ℕ) where
  abbrev Kept : List Edge → Type 0
  Kept edges = Increasing edge_lt edges × All (IsEdge n) edges

  toggle_with-Kept :
      (b : ℕ) (nbrs : List ℕ) (edges : List Edge)
      → All (λ c. ltb b c ≡ true) nbrs
      → All (λ c. ltb c n ≡ true) nbrs
      → Kept edges
      → Kept (toggle_with b nbrs edges)
  unfolding toggle_with
  toggle_with-Kept b [] edges low high h = h
  toggle_with-Kept b (c ∷ nbrs) edges (low, lows) (high, highs) (inc, within) = rw low (
      toggle_with-Kept b nbrs (toggle edge_lt (b, c) edges) lows highs (
        Increasing-toggle edge_lt edge_lt-IsLinear (b, c) edges inc,
        All-toggle edge_lt edge_lt-IsLinear (IsEdge n) (b, c) edges
            (ground (arith, low), ground (arith, high)) within,
      ))

  toggle_pairs-Kept :
      (nbrs : List ℕ) (edges : List Edge)
      → Increasing ltb nbrs
      → All (λ c. ltb c n ≡ true) nbrs
      → Kept edges
      → Kept (toggle_pairs nbrs edges)
  unfolding toggle_pairs
  toggle_pairs-Kept [] edges inc high h = h
  toggle_pairs-Kept (b ∷ nbrs) edges (low, inc) (high, highs) h =
      toggle_pairs-Kept nbrs (toggle_with b nbrs edges) inc highs
        (toggle_with-Kept b nbrs edges low highs h)

-- The local complement of a graph state: the edges between two neighbours of the vertex are toggled.
pub record IsComplement (gs : GraphState) (a : ℕ) (hs : GraphState) : Type 0 where
  pub size : hs.n ≡ gs.n
  pub graph : IsGraph hs
  pub toggled :
      (b c : ℕ)
      → adjacent hs b c
        ≡ xor (adjacent gs b c) (not (b == c) && (adjacent gs a b && adjacent gs a c))

everywhere :
    (gs hs : GraphState) (a : ℕ)
    → IsGraph gs
    → IsGraph hs
    → ((b c : ℕ)
        → ltb b c ≡ true
        → adjacent hs b c ≡ xor (adjacent gs b c) (adjacent gs a b && adjacent gs a c))
    → (b c : ℕ)
    → adjacent hs b c ≡ xor (adjacent gs b c) (not (b == c) && (adjacent gs a b && adjacent gs a c))
everywhere gs hs a h k f b c = elim (Bool-cases (ltb b c)) [
  | inl low ↦
      f b c low
      ∙ apart b c (adjacent gs b c) (adjacent gs a b) (adjacent gs a c) (ground (arith, low))
  | inr not_low ↦ elim (Bool-cases (ltb c b)) [
    | inl high ↦
        adjacent_sym hs b c
        ∙ f c b high
        ∙ ap (λ x. xor x (adjacent gs a c && adjacent gs a b)) (adjacent_sym gs c b)
        ∙ swapped b c (adjacent gs b c) (adjacent gs a b) (adjacent gs a c) (ground (arith, high))
    | inr not_high ↦
        let e : b ≡ c = ground (arith, not_low, not_high) in
        subst
          (λ x.
            adjacent hs b x
            ≡ xor (adjacent gs b x) (not (b == x) && (adjacent gs a b && adjacent gs a x)))
          e
          (adjacent_irreflexive hs b k
            ∙ same b (adjacent gs b b) (adjacent gs a b) (adjacent_irreflexive gs b h))
  ]
]
  where
    apart :
        (b c : ℕ) (x y z : Bool)
        → (b == c) ≡ false
        → xor x (y && z) ≡ xor x (not (b == c) && (y && z))
    apart b c x y z e = rw e refl

    swapped :
        (b c : ℕ) (x y z : Bool)
        → (b == c) ≡ false
        → xor x (z && y) ≡ xor x (not (b == c) && (y && z))
    swapped b c x y z e = ground (arith, e)

    same : (b : ℕ) (x y : Bool) → x ≡ false → false ≡ xor x (not (b == b) && (y && y))
    same b x y e = ground (arith, e)

-- `local_complement` never raises on a graph state. It keeps the vertices and makes a graph state
-- in which two vertices are adjacent exactly if either they were adjacent, or both were neighbours
-- of the given vertex, but not both.
pub local_complement_ok :
    (gs : GraphState) (a : ℕ)
    → IsGraph gs
    → (hs : GraphState) × (local_complement gs a ≡ some hs) × IsComplement gs a hs
unfolding local_complement neighbors
local_complement_ok gs a h =
    let (inc, within) =
      toggle_pairs-Kept gs.n (neighbors gs a) gs.edges (Increasing-of_list (ends_at a gs.edges))
        (All-mem ltb ltb-IsLinear (λ x. ltb x gs.n ≡ true) (neighbors gs a)
          (λ x m. adjacent-below gs a x h (sym (mem-neighbors gs a x h) ∙ m)))
        (h.increasing, h.in_range) in
    let hs : GraphState = record { n = gs.n; edges = toggle_pairs (neighbors gs a) gs.edges } in
    let graph : IsGraph hs = record { increasing = inc; in_range = within } in
    (
      hs,
      graph_state_same hs graph,
      record {
        size = refl;
        graph = graph;
        toggled = everywhere gs hs a h graph λ b c low.
            rw
              (
                low,
                mem-toggle_pairs b c (neighbors gs a) gs.edges
                    (Increasing-of_list (ends_at a gs.edges)),
                mem-neighbors gs a b h,
                mem-neighbors gs a c h,
              )
              (rw low refl);
      },
    )
