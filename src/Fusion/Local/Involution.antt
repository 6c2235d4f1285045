-- ===== src/Fusion/Local/Involution.antt =====
-- Local complementation twice at a vertex.
use empiricist.Base.{ℕ, ◌≡◌, ◌∙◌, ap, Bool, true, ◌&&◌, some, ltb, arith, ◌==◌, not}
use empiricist.Base.Sets.{xor}
use empiricist.Fusion.Graphs.{GraphState}
use empiricist.Fusion.Graphs.Edges.{IsGraph, adjacent, adjacent_irreflexive, IsGraph_ext}
use empiricist.Fusion.Local.{local_complement}
use empiricist.Fusion.Local.Bouchet.{IsComplement, local_complement_ok}

-- The neighbours of the vertex itself stay.
neighbors_stay :
    (gs hs : GraphState) (a b : ℕ)
    → IsGraph gs
    → IsComplement gs a hs
    → adjacent hs a b ≡ adjacent gs a b
neighbors_stay gs hs a b h k = ground (arith, k.toggled a b, adjacent_irreflexive gs a h)

-- On a graph state `local_complement` at a vertex, and again at the same vertex, returns the graph
-- state.
pub local_complement_involutive :
    (gs : GraphState) (a : ℕ)
    → IsGraph gs
    → (hs : GraphState) × (local_complement gs a ≡ some hs) × (local_complement hs a ≡ some gs)
local_complement_involutive gs a h =
    let (hs, first, k) = local_complement_ok gs a h in
    let (ks, second, l) = local_complement_ok hs a k.graph in
    let back : ks ≡ gs = IsGraph_ext ks gs l.graph h (l.size ∙ k.size) (again hs ks k l) in
    (hs, first, second ∙ ap some back)
  where
    twice : (x y : Bool) → xor (xor x y) y ≡ x
    twice x y = ground arith

    again :
        (hs ks : GraphState)
        → IsComplement gs a hs
        → IsComplement hs a ks
        → (b c : ℕ) → ltb b c ≡ true
        → adjacent ks b c ≡ adjacent gs b c
    again hs ks k l b c _ =
        rw
          (l.toggled b c, neighbors_stay gs hs a b h k, neighbors_stay gs hs a c h k, k.toggled b c)
          (twice (adjacent gs b c) (not (b == c) && (adjacent gs a b && adjacent gs a c)))
