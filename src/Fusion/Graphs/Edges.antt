-- ===== src/Fusion/Graphs/Edges.antt =====
-- Which edges and neighbours a graph state has.
use empiricist.Base.{
  ℕ, ◌<◌, ◌≡◌, refl, sym, ◌∙◌, ap, subst, inl, inr, Bool, true, false, ◌&&◌, List, [], ◌∷◌, ltb,
  ◌==◌, ==_iff, All, arith, if◌then◌else◌, Bool-cases,
}
use empiricist.Base.Sets.{
  same, mem, of_list, Increasing, IsLinear, mem-add, Increasing-add, Increasing-ext, mem_get,
}
use empiricist.Fusion.Graphs.{Edge, edge_lt, GraphState, normal, ends_at, neighbors}

pub ltb-IsLinear : IsLinear ltb
ltb-IsLinear = record {
  irreflexive = λ x. ground arith;
  transitive = λ x y z h k. ground arith;
  connected = λ x y h k. ground arith;
}

pub edge_lt-IsLinear : IsLinear edge_lt
edge_lt-IsLinear = record {
  irreflexive = λ (x, y). ground arith;
  transitive = λ (a, b) (c, d) (e, f) h k. ground arith;
  connected = λ (a, b) (c, d) h k.
      let e : a ≡ c = ground arith in
      let e' : b ≡ d = ground arith in ap (λ x. (x, b)) e ∙ ap (λ y. (c, y)) e';
}

-- An edge of a graph state on n vertices.
abbrev pub IsEdge : ℕ → Edge → Type 0
IsEdge n (a, b) = (a < b) × (b < n)

pub record IsGraph (gs : GraphState) : Type 0 where
  pub increasing : Increasing edge_lt gs.edges
  pub in_range : All (IsEdge gs.n) gs.edges

-- The vertices are adjacent.
abbrev pub adjacent : GraphState → ℕ → ℕ → Bool
adjacent gs b c = mem edge_lt (normal b c) gs.edges

pub same_edge : (a b c d : ℕ) → same edge_lt (a, b) (c, d) ≡ (a == c && b == d)
same_edge a b c d = ground arith

pub same_num : (x y : ℕ) → same ltb x y ≡ (x == y)
same_num x y = ground arith

end_hit : (x a b : ℕ) → a < b → same edge_lt (normal a x) (a, b) ≡ (x == b)
end_hit x a b h = elim (Bool-cases (ltb a x)) [
  | inl low ↦ rw low (ground (arith, same_edge a x a b))
  | inr high ↦ rw high (ground (arith, same_edge x a a b))
]

end_hit_up : (x a b : ℕ) → a < b → same edge_lt (normal b x) (a, b) ≡ (x == a)
end_hit_up x a b h = elim (Bool-cases (ltb b x)) [
  | inl low ↦ rw low (ground (arith, same_edge b x a b))
  | inr high ↦ rw high (ground (arith, same_edge x b a b))
]

end_miss :
    (v x a b : ℕ) → (a == v) ≡ false → (b == v) ≡ false → same edge_lt (normal v x) (a, b) ≡ false
end_miss v x a b h k = elim (Bool-cases (ltb v x)) [
  | inl low ↦ rw low (ground (arith, same_edge v x a b))
  | inr high ↦ rw high (ground (arith, same_edge x v a b))
]

pub mem-ends_at :
    (x v n : ℕ) (edges : List Edge)
    → All (IsEdge n) edges
    → mem ltb x (ends_at v edges) ≡ mem edge_lt (normal v x) edges
unfolding ends_at
mem-ends_at x v n [] h = refl
mem-ends_at x v n ((a, b) ∷ edges) (h, hs) = elim (Bool-cases (a == v)) [
  | inl low ↦
      let e : same edge_lt (normal v x) (a, b) ≡ (x == b) =
        subst (λ w. same edge_lt (normal w x) (a, b) ≡ (x == b)) ((==_iff a v).0 low)
          (end_hit x a b h.0) in
      rw (low, e, mem-ends_at x v n edges hs, same_num x b) refl
  | inr not_low ↦ elim (Bool-cases (b == v)) [
    | inl high ↦
        let e : same edge_lt (normal v x) (a, b) ≡ (x == a) =
          subst (λ w. same edge_lt (normal w x) (a, b) ≡ (x == a)) ((==_iff b v).0 high)
            (end_hit_up x a b h.0) in
        rw (not_low, high, e, mem-ends_at x v n edges hs, same_num x a) refl
    | inr not_high ↦
        rw (not_low, not_high, end_miss v x a b not_low not_high, mem-ends_at x v n edges hs) refl
  ]
]

pub mem-of_list : (x : ℕ) (xs : List ℕ) → mem ltb x (of_list ltb xs) ≡ mem ltb x xs
mem-of_list x [] = refl
mem-of_list x (y ∷ xs) =
    mem-add ltb ltb-IsLinear x y (of_list ltb xs) ∙ ground (arith, mem-of_list x xs)

pub Increasing-of_list : (xs : List ℕ) → Increasing ltb (of_list ltb xs)
Increasing-of_list [] = tt
Increasing-of_list (x ∷ xs) =
    Increasing-add ltb ltb-IsLinear x (of_list ltb xs) (Increasing-of_list xs)

pub mem-neighbors :
    (gs : GraphState) (v x : ℕ) → IsGraph gs → mem ltb x (neighbors gs v) ≡ adjacent gs v x
unfolding neighbors
mem-neighbors gs v x h =
    mem-of_list x (ends_at v gs.edges) ∙ mem-ends_at x v gs.n gs.edges h.in_range

pub adjacent-below :
    (gs : GraphState) (v x : ℕ) → IsGraph gs → adjacent gs v x ≡ true → ltb x gs.n ≡ true
adjacent-below gs v x h m = elim (Bool-cases (ltb v x)) [
  | inl low ↦
      let (_, high) =
        mem_get edge_lt edge_lt-IsLinear (IsEdge gs.n) (v, x) gs.edges h.in_range
          (subst (λ b. mem edge_lt (if b then (v, x) else (x, v)) gs.edges ≡ true) low m) in
      ground arith
  | inr not_low ↦
      let (under, high) =
        mem_get edge_lt edge_lt-IsLinear (IsEdge gs.n) (x, v) gs.edges h.in_range
          (subst (λ b. mem edge_lt (if b then (v, x) else (x, v)) gs.edges ≡ true) not_low m) in
      ground arith
]

-- A pair that is out of order is no edge.
pub mem_unordered :
    (gs : GraphState) (p q : ℕ) → IsGraph gs → ltb p q ≡ false → mem edge_lt (p, q) gs.edges ≡ false
mem_unordered gs p q h order = elim (Bool-cases (mem edge_lt (p, q) gs.edges)) [
  | inl there ↦
      let (low, high) =
        mem_get edge_lt edge_lt-IsLinear (IsEdge gs.n) (p, q) gs.edges h.in_range there in
      absurd (ground (arith, order, low))
  | inr missing ↦ missing
]

pub adjacent_irreflexive : (gs : GraphState) (v : ℕ) → IsGraph gs → adjacent gs v v ≡ false
adjacent_irreflexive gs v h =
    let off : ltb v v ≡ false = ground arith in rw off (mem_unordered gs v v h off)

pub adjacent_sym : (gs : GraphState) (b c : ℕ) → adjacent gs b c ≡ adjacent gs c b
adjacent_sym gs b c = ap (λ e. mem edge_lt e gs.edges) (normal_sym b c)
  where
    normal_sym : (b c : ℕ) → normal b c ≡ normal c b
    normal_sym b c = ground arith

-- Graph states on the same vertices with the same adjacent vertices are equal.
pub IsGraph_ext :
    (gs hs : GraphState)
    → IsGraph gs
    → IsGraph hs
    → gs.n ≡ hs.n
    → ((b c : ℕ) → ltb b c ≡ true → adjacent gs b c ≡ adjacent hs b c)
    → gs ≡ hs
IsGraph_ext gs hs h k e same_adjacent =
    ap (λ n. record { n = n; edges = gs.edges }) e
    ∙ ap (λ es. record { n = hs.n; edges = es })
        (Increasing-ext edge_lt edge_lt-IsLinear gs.edges hs.edges h.increasing k.increasing
          same_edges)
  where
    same_edges : (d : Edge) → mem edge_lt d gs.edges ≡ mem edge_lt d hs.edges
    same_edges (p, q) = elim (Bool-cases (ltb p q)) [
      | inl low ↦
          subst
            (λ b.
              mem edge_lt (if b then (p, q) else (q, p)) gs.edges
              ≡ mem edge_lt (if b then (p, q) else (q, p)) hs.edges)
            low (same_adjacent p q low)
      | inr high ↦ mem_unordered gs p q h high ∙ sym (mem_unordered hs p q k high)
    ]
