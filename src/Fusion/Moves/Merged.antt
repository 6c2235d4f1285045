-- ===== src/Fusion/Moves/Merged.antt =====
-- What `merge_fresh_ghz3` returns.
use empiricist.Base.{
  ℕ, ◌+◌, ◌<◌, ◌≡◌, refl, sym, ◌∙◌, subst, inl, inr, true, false, Option, none, some, ◌++◌, all,
  ltb, ◌==◌, ==_iff, All, arith, Bool-cases,
}
use empiricist.Base.Sets.{mem, All-mem}
use empiricist.Fusion.Graphs.{edge_lt, GraphState, graph_state, neighbors}
use empiricist.Fusion.Graphs.Edges.{
  ltb-IsLinear, IsGraph, adjacent, mem-neighbors, adjacent-below, adjacent_irreflexive,
}
use empiricist.Fusion.Graphs.Building.{Built, is_edge, joins, graph_state_ok}
use empiricist.Fusion.Moves.{
  Role, is_role, kept_edges, bipartite_edges, fresh_nbrs, internal_edges, new_edges,
  merge_fresh_ghz3,
}
use empiricist.Fusion.Moves.Merging.{
  expand, is_center, merged, joins-append, all-append, joins-kept_edges, joins-bipartite_edges,
  joins-internal_edges, kept_edges-is_edge, bipartite_edges-is_edge, internal_edges-is_edge, settle,
}

module _ (gs : GraphState) (a : ℕ) (h : IsGraph gs) (inside : a < gs.n) where
  nbrs_below : All (λ x. ltb x gs.n ≡ true) (neighbors gs a)
  nbrs_below =
      All-mem ltb ltb-IsLinear (λ x. ltb x gs.n ≡ true) (neighbors gs a)
        (λ x m. adjacent-below gs a x h (sym (mem-neighbors gs a x h) ∙ m))

  nbrs_apart : All (λ x. (a == x) ≡ false) (neighbors gs a)
  nbrs_apart =
      All-mem ltb ltb-IsLinear (λ x. (a == x) ≡ false) (neighbors gs a)
        λ x m. elim (Bool-cases (a == x)) [
          | inl hit ↦
              let own : adjacent gs a x ≡ false =
                subst (λ y. adjacent gs a y ≡ false) ((==_iff a x).0 hit)
                  (adjacent_irreflexive gs a h) in
              absurd (ground (arith, own, m, mem-neighbors gs a x h))
          | inr off ↦ off
        ]

  new_edges-is_edge : (role : Role) → all (is_edge (gs.n + 1)) (new_edges gs a role) ≡ true
  unfolding new_edges
  new_edges-is_edge role =
      rw
        (
          all-append (gs.n + 1) (kept_edges a gs.edges) (
              bipartite_edges a (neighbors gs a) (fresh_nbrs gs.n role)
              ++ internal_edges gs.n role),
          all-append (gs.n + 1) (bipartite_edges a (neighbors gs a) (fresh_nbrs gs.n role))
              (internal_edges gs.n role),
          kept_edges-is_edge gs.n a inside gs.edges h.in_range,
          bipartite_edges-is_edge gs.n a inside (neighbors gs a) role nbrs_below nbrs_apart,
          internal_edges-is_edge gs.n a inside role,
        )
        refl

  expand_order : (p q : ℕ) → p < q → ltb (expand a p) (expand a q) ≡ true
  expand_order p q less = ground arith

  joins-new_edges :
      (role : Role) (p q : ℕ) → p < q → joins (new_edges gs a role) (p, q) ≡ merged gs a role p q
  unfolding new_edges
  joins-new_edges role p q less =
      rw
        (
          joins-append (kept_edges a gs.edges)
              (bipartite_edges a (neighbors gs a) (fresh_nbrs gs.n role)
                ++ internal_edges gs.n role)
              (p, q),
          joins-append (bipartite_edges a (neighbors gs a) (fresh_nbrs gs.n role))
              (internal_edges gs.n role) (p, q),
          joins-kept_edges gs.n a inside p q gs.edges h.in_range,
          joins-bipartite_edges gs.n a inside p q (neighbors gs a) role less nbrs_below nbrs_apart,
          joins-internal_edges gs.n a inside p q role,
          mem-neighbors gs a (expand a p) h,
          expand_order p q less,
        )
        (settle gs.n a inside p q (mem edge_lt (expand a p, expand a q) gs.edges)
          (adjacent gs a (expand a p)) (is_center role) less)

-- On a graph state, for a vertex of it and the role of the center or of a leaf, `merge_fresh_ghz3`
-- returns a graph state with one more vertex. It keeps the edges between the other vertices; it
-- joins the first fresh one to the former neighbours of the vertex, and the second one to them if
-- the role is the center, and to the first one if it is the leaf; and it joins no others. Here p
-- and q are two vertices of it.
pub merge_fresh_ghz3_ok :
    (gs : GraphState) (a : ℕ) (role : Role) (p q : ℕ)
    → IsGraph gs
    → a < gs.n
    → is_role role ≡ true
    → p < q
    → (hs : GraphState) × (merge_fresh_ghz3 gs a role ≡ some hs)
      × (hs.n ≡ gs.n + 1)
      × IsGraph hs
      × (adjacent hs p q ≡ merged gs a role p q)
unfolding merge_fresh_ghz3
merge_fresh_ghz3_ok gs a role p q h inside valid less =
    let below : ltb a gs.n ≡ true = ground arith in
    let order : ltb p q ≡ true = ground arith in
    rw (below, valid)
      (built order (graph_state (gs.n + 1) (new_edges gs a role))
        (graph_state_ok (gs.n + 1) (new_edges gs a role)))
  where
    built :
        ltb p q ≡ true
        → (o : Option GraphState) → Built (gs.n + 1) (new_edges gs a role) o
        → (hs : GraphState) × (o ≡ some hs)
          × (hs.n ≡ gs.n + 1)
          × IsGraph hs
          × (adjacent hs p q ≡ merged gs a role p q)
    built order none refused =
        absurd (ground (arith, refused, new_edges-is_edge gs a h inside role))
    built order (some hs) (fits, size, graph, joined) =
        (hs, refl, size, graph, joined p q ∙ rw order (joins-new_edges gs a h inside role p q less))
