-- ===== src/Fusion/Orbit/Members.antt =====
-- Membership in lists of graph states, and the sorted list.
use empiricist.Base.{
  ℕ, zero, suc, ◌+◌, ◌≡◌, refl, sym, ◌∙◌, ap, subst, inl, inr, Bool, true, false, ◌||◌, List, [],
  ◌∷◌, ◌++◌, length, ltb, leb, ◌==◌, ==_iff, ==_refl, All, All-map, arith, Bool-cases,
}
use empiricist.Base.Pairwise.{Pairwise}
use empiricist.Base.Sets.{same, same_refl, same_eq}
use empiricist.Fusion.Graphs.{Edge, edge_lt, GraphState}
use empiricist.Fusion.Graphs.Edges.{edge_lt-IsLinear}
use empiricist.Fusion.Orbit.{
  is_same_edges, is_same, is_member, range_from, comes_first, insert_graph, sort_graphs,
}

is_same_edges_refl : (es : List Edge) → is_same_edges es es ≡ true
is_same_edges_refl [] = refl
is_same_edges_refl (e ∷ es) = rw (same_refl edge_lt edge_lt-IsLinear e) (is_same_edges_refl es)

is_same_edges_eq : (ds es : List Edge) → is_same_edges ds es ≡ true → ds ≡ es
is_same_edges_eq [] [] h = refl
is_same_edges_eq [] (e ∷ es) h = cc
is_same_edges_eq (d ∷ ds) [] h = cc
is_same_edges_eq (d ∷ ds) (e ∷ es) h =
    let head : same edge_lt d e ≡ true = ground (arith, h) in
    let tail : is_same_edges ds es ≡ true = ground (arith, h) in
    ap (λ x. x ∷ ds) (same_eq edge_lt edge_lt-IsLinear d e head)
    ∙ ap (λ xs. e ∷ xs) (is_same_edges_eq ds es tail)

pub is_same_refl : (g : GraphState) → is_same g g ≡ true
is_same_refl g = ground (arith, ==_refl g.n, is_same_edges_refl g.edges)

pub is_same_eq : (g h : GraphState) → is_same g h ≡ true → g ≡ h
is_same_eq g h e =
    let size : g.n ≡ h.n = (==_iff g.n h.n).0 (ground (arith, e)) in
    let edges : g.edges ≡ h.edges = is_same_edges_eq g.edges h.edges (ground (arith, e)) in
    ap (λ n. record { n = n; edges = g.edges }) size
    ∙ ap (λ es. record { n = h.n; edges = es }) edges

pub is_same_sym : (g h : GraphState) → is_same g h ≡ false → is_same h g ≡ false
is_same_sym g h e = elim (Bool-cases (is_same h g)) [
  | inl hit ↦ absurd (
      ground (
        arith,
        e,
        is_same_refl g,
        subst (λ x. is_same g x ≡ true) (sym (is_same_eq h g hit)) (is_same_refl g),
      ))
  | inr miss ↦ miss
]

pub is_member-snoc :
    (g h : GraphState) (gs : List GraphState)
    → is_member g (gs ++ h ∷ []) ≡ (is_member g gs || is_same g h)
is_member-snoc g h [] = ground arith
is_member-snoc g h (x ∷ gs) = ground (arith, is_member-snoc g h gs)

pub member_get :
    (P : GraphState → Type 0) (g : GraphState) (gs : List GraphState)
    → All P gs
    → is_member g gs ≡ true
    → P g
member_get P g [] h m = cc
member_get P g (x ∷ gs) (h, hs) m = elim (Bool-cases (is_same g x)) [
  | inl hit ↦ subst P (sym (is_same_eq g x hit)) h
  | inr miss ↦ member_get P g gs hs (ground (arith, m, miss))
]

pub length-snoc : (g : GraphState) (gs : List GraphState) → length (gs ++ g ∷ []) ≡ length gs + 1
length-snoc g [] = refl
length-snoc g (x ∷ gs) = omega (arith, length-snoc g gs)

-- Below n every number is in the range.
pub range_get :
    (P : ℕ → Type 0) (v start n : ℕ)
    → All P (range_from start n)
    → leb start v ≡ true
    → ltb v (start + n) ≡ true
    → P v
unfolding range_from
range_get P v start zero h low high = absurd (ground (arith, low, high))
range_get P v start (suc n) (h, hs) low high = elim (Bool-cases (start == v)) [
  | inl hit ↦ subst P ((==_iff start v).0 hit) h
  | inr miss ↦ range_get P v (suc start) n hs (ground (arith, low, miss)) (ground (arith, high))
]

pub range_below : (start n : ℕ) → All (λ v. ltb v (start + n) ≡ true) (range_from start n)
unfolding range_from
range_below start zero = tt
range_below start (suc n) = (
  ground arith,
  All-map _ _ (range_from (suc start) n) (λ v h. ground (arith, h)) (range_below (suc start) n),
)

is_member-insert_graph :
    (g x : GraphState) (gs : List GraphState)
    → is_member g (insert_graph x gs) ≡ (is_same g x || is_member g gs)
unfolding insert_graph
is_member-insert_graph g x [] = refl
is_member-insert_graph g x (y ∷ gs) = elim (Bool-cases (comes_first x y)) [
  | inl first ↦ rw first refl
  | inr later ↦
      rw (later, is_member-insert_graph g x gs) (swap (is_same g y) (is_same g x) (is_member g gs))
]
  where
    swap : (a b c : Bool) → (a || (b || c)) ≡ (b || (a || c))
    swap a b c = ground arith

pub is_member-sort_graphs :
    (g : GraphState) (gs : List GraphState) → is_member g (sort_graphs gs) ≡ is_member g gs
unfolding sort_graphs
is_member-sort_graphs g [] = refl
is_member-sort_graphs g (x ∷ gs) =
    is_member-insert_graph g x (sort_graphs gs)
    ∙ ap (λ b. is_same g x || b) (is_member-sort_graphs g gs)

length-insert_graph :
    (x : GraphState) (gs : List GraphState) → length (insert_graph x gs) ≡ suc (length gs)
unfolding insert_graph
length-insert_graph x [] = refl
length-insert_graph x (y ∷ gs) = elim (Bool-cases (comes_first x y)) [
  | inl first ↦ rw first refl
  | inr later ↦ rw later (ap suc (length-insert_graph x gs))
]

pub length-sort_graphs : (gs : List GraphState) → length (sort_graphs gs) ≡ length gs
unfolding sort_graphs
length-sort_graphs [] = refl
length-sort_graphs (x ∷ gs) =
    length-insert_graph x (sort_graphs gs) ∙ ap suc (length-sort_graphs gs)

-- No two entries are the same graph state.
abbrev pub IsDistinct : List GraphState → Type 0
IsDistinct gs = Pairwise (λ g h. is_same g h ≡ false) gs

All-insert_graph :
    (P : GraphState → Type 0) (x : GraphState) (gs : List GraphState)
    → P x
    → All P gs
    → All P (insert_graph x gs)
unfolding insert_graph
All-insert_graph P x [] p h = (p, tt)
All-insert_graph P x (y ∷ gs) p (h, hs) = elim (Bool-cases (comes_first x y)) [
  | inl first ↦ rw first (p, (h, hs))
  | inr later ↦ rw later (h, All-insert_graph P x gs p hs)
]

pub All-sort_graphs :
    (P : GraphState → Type 0) (gs : List GraphState) → All P gs → All P (sort_graphs gs)
unfolding sort_graphs
All-sort_graphs P [] h = tt
All-sort_graphs P (x ∷ gs) (h, hs) =
    All-insert_graph P x (sort_graphs gs) h (All-sort_graphs P gs hs)

IsDistinct-insert_graph :
    (x : GraphState) (gs : List GraphState)
    → All (λ g. is_same x g ≡ false) gs
    → IsDistinct gs
    → IsDistinct (insert_graph x gs)
unfolding insert_graph
IsDistinct-insert_graph x [] h d = (tt, tt)
IsDistinct-insert_graph x (y ∷ gs) (h, hs) (d, ds) = elim (Bool-cases (comes_first x y)) [
  | inl first ↦ rw first ((h, hs), (d, ds))
  | inr later ↦ rw later (
    All-insert_graph (λ g. is_same y g ≡ false) x gs (is_same_sym x y h) d,
    IsDistinct-insert_graph x gs hs ds,
  )
]

pub IsDistinct-sort_graphs : (gs : List GraphState) → IsDistinct gs → IsDistinct (sort_graphs gs)
unfolding sort_graphs
IsDistinct-sort_graphs [] d = tt
IsDistinct-sort_graphs (x ∷ gs) (d, ds) =
    IsDistinct-insert_graph x (sort_graphs gs) (All-sort_graphs _ gs d)
      (IsDistinct-sort_graphs gs ds)
