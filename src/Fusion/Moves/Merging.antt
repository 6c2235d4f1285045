-- ===== src/Fusion/Moves/Merging.antt =====
-- What `merge_fresh_ghz3` makes of a graph state.
use empiricist.Base.{
  ℕ, ◌+◌, ◌-◌, ◌<◌, ◌≤◌, ◌≡◌, refl, inl, inr, Bool, true, false, not, ◌&&◌, ◌||◌, List, [], ◌∷◌,
  ◌++◌, all, ltb, ◌==◌, All, arith, if◌then◌else◌, Bool-cases,
}
use empiricist.Base.Sets.{same, mem}
use empiricist.Fusion.Graphs.{Edge, edge_lt, GraphState, normal}
use empiricist.Fusion.Graphs.Edges.{IsEdge, adjacent, same_edge, same_num}
use empiricist.Fusion.Graphs.Building.{is_edge, joins}
use empiricist.Fusion.Moves.{
  Role, center, leaf, other_role, compact, kept_edges, bipartite_edges, fresh_nbrs, internal_edges,
}

-- The old name of a vertex below the fresh ones.
abbrev pub expand : ℕ → ℕ → ℕ
expand a p = if ltb p a then p else p + 1

abbrev pub is_center : Role → Bool
is_center center = true
is_center _ = false

-- Whether p and q, of which p is less, are to be joined: two old vertices as before, an old vertex
-- and the first fresh one if the old one was a neighbour of a, an old vertex and the second one if
-- so and the role is the center, and the two fresh ones if it is the leaf.
abbrev pub merged : GraphState → ℕ → Role → ℕ → ℕ → Bool
merged gs a role p q =
    if ltb q (gs.n - 1)
    then adjacent gs (expand a p) (expand a q)
    else if q == gs.n - 1
    then adjacent gs a (expand a p)
    else if q == gs.n
    then if p == gs.n - 1
      then not (is_center role)
      else is_center role && adjacent gs a (expand a p)
    else false

pub joins-append : (xs ys : List Edge) (e : Edge) → joins (xs ++ ys) e ≡ (joins xs e || joins ys e)
joins-append [] ys e = refl
joins-append ((u, v) ∷ xs) ys e = ground (arith, joins-append xs ys e)

pub all-append :
    (n : ℕ) (xs ys : List Edge)
    → all (is_edge n) (xs ++ ys) ≡ (all (is_edge n) xs && all (is_edge n) ys)
all-append n [] ys = refl
all-append n ((u, v) ∷ xs) ys = ground (arith, all-append n xs ys)

module _ (n a : ℕ) (below : a < n) where
  compact_order :
      (u v : ℕ)
      → u < v
      → (a == u) ≡ false
      → (a == v) ≡ false
      → ltb (compact a u) (compact a v) ≡ true
  compact_order u v h off off' = ground (arith, off, off')

  never : (x : ℕ) → (expand a x == a) ≡ false
  never x = ground arith

  old_one :
      (p x : ℕ) → x < n → (a == x) ≡ false → (p == compact a x) ≡ (ltb p (n - 1) && expand a p == x)
  old_one p x h off = ground (arith, off)

  old_pair :
      (p q u v : ℕ)
      → u < v
      → v < n
      → (a == u) ≡ false
      → (a == v) ≡ false
      → (p == compact a u && q == compact a v)
        ≡ (ltb q (n - 1) && (expand a p == u && expand a q == v))
  old_pair p q u v h k off off' =
      rw (old_one p u (omega (arith, h, k)) off, old_one q v k off')
        (tidy (ltb p (n - 1)) (expand a p == u) (ltb q (n - 1)) (expand a q == v) order)
    where
      order :
          (expand a p == u) ≡ true
          → (expand a q == v) ≡ true
          → ltb q (n - 1) ≡ true
          → ltb p (n - 1) ≡ true
      order e e' low = ground (arith, e, e', low)

      tidy :
          (x y z w : Bool)
          → (y ≡ true → w ≡ true → z ≡ true → x ≡ true)
          → ((x && y) && (z && w)) ≡ (z && (y && w))
      tidy true y z w f = ground arith
      tidy false true true true f = f refl refl refl
      tidy false false z w f = ground arith
      tidy false true false w f = refl
      tidy false true true false f = refl

  pub joins-kept_edges :
      (p q : ℕ) (edges : List Edge)
      → All (IsEdge n) edges
      → joins (kept_edges a edges) (p, q)
        ≡ (ltb q (n - 1) && mem edge_lt (expand a p, expand a q) edges)
  unfolding kept_edges
  joins-kept_edges p q [] h = ground arith
  joins-kept_edges p q ((u, v) ∷ edges) ((low, high), hs) = elim (Bool-cases (a == u || a == v)) [
    | inl touched ↦
        rw (touched, joins-kept_edges p q edges hs, same_edge (expand a p) (expand a q) u v)
          (gone (ltb q (n - 1)) (mem edge_lt (expand a p, expand a q) edges) (miss u v touched))
    | inr apart ↦
        let off : (a == u) ≡ false = ground (arith, apart) in
        let off' : (a == v) ≡ false = ground (arith, apart) in
        rw
          (
            apart,
            joins-kept_edges p q edges hs,
            compact_order u v low off off',
            same_edge p q (compact a u) (compact a v),
            old_pair p q u v low high off off',
            same_edge (expand a p) (expand a q) u v,
          )
          (both (ltb q (n - 1)) (expand a p == u && expand a q == v)
            (mem edge_lt (expand a p, expand a q) edges))
  ]
    where
      miss : (u v : ℕ) → (a == u || a == v) ≡ true → (expand a p == u && expand a q == v) ≡ false
      miss u v t = ground (arith, t)

      gone : (x m : Bool) {y : Bool} → y ≡ false → (x && m) ≡ (x && (y || m))
      gone x m {y} e = ground (arith, e)

      both : (x y m : Bool) → ((x && y) || (x && m)) ≡ (x && (y || m))
      both x y m = ground arith

  or_false : (f : Bool) → (f || false) ≡ f
  or_false f = ground arith

  single :
      (b e g f m : Bool) → g ≡ f → (((b && e) && f) || ((b && m) && g)) ≡ ((b && (e || m)) && g)
  single b e g f m h = ground (arith, h)

  to_fresh :
      (p q x f : ℕ)
      → ltb x n ≡ true
      → (a == x) ≡ false
      → n ≤ f + 1
      → same edge_lt (p, q) (normal (compact a x) f)
        ≡ ((ltb p (n - 1) && expand a p == x) && q == f)
  to_fresh p q x f low off late =
      let order : ltb (compact a x) f ≡ true = ground (arith, low, off, late) in
      rw (order, same_edge p q (compact a x) f, old_one p x (ground (arith, low)) off) refl

  pub joins-bipartite_edges :
      (p q : ℕ) (nbrs : List ℕ) (role : Role)
      → p < q
      → All (λ x. ltb x n ≡ true) nbrs
      → All (λ x. (a == x) ≡ false) nbrs
      → joins (bipartite_edges a nbrs (fresh_nbrs n role)) (p, q) ≡ (
          (ltb p (n - 1) && mem ltb (expand a p) nbrs)
          && (q == n - 1 || (is_center role && q == n)))
  unfolding bipartite_edges
  joins-bipartite_edges p q [] role h hs offs = ground arith
  joins-bipartite_edges p q (x ∷ nbrs) center h (low, lows) (off, offs) =
      rw
        (
          to_fresh p q x (n - 1) low off (omega arith),
          to_fresh p q x n low off (omega arith),
          joins-bipartite_edges p q nbrs center h lows offs,
          same_num (expand a p) x,
        )
        (spread (ltb p (n - 1)) (expand a p == x) (q == n - 1) (q == n) (mem ltb (expand a p) nbrs))
    where
      spread :
          (b e f g m : Bool)
          → (((b && e) && f) || (((b && e) && g) || ((b && m) && (f || g))))
            ≡ ((b && (e || m)) && (f || g))
      spread b e f g m = ground arith
  joins-bipartite_edges p q (x ∷ nbrs) leaf h (low, lows) (off, offs) =
      rw
        (
          to_fresh p q x (n - 1) low off (omega arith),
          joins-bipartite_edges p q nbrs leaf h lows offs,
          same_num (expand a p) x,
        )
        (single (ltb p (n - 1)) (expand a p == x) (q == n - 1 || false) (q == n - 1)
          (mem ltb (expand a p) nbrs) (or_false (q == n - 1)))
  joins-bipartite_edges p q (x ∷ nbrs) other_role h (low, lows) (off, offs) =
      rw
        (
          to_fresh p q x (n - 1) low off (omega arith),
          joins-bipartite_edges p q nbrs other_role h lows offs,
          same_num (expand a p) x,
        )
        (single (ltb p (n - 1)) (expand a p == x) (q == n - 1 || false) (q == n - 1)
          (mem ltb (expand a p) nbrs) (or_false (q == n - 1)))

  last_edge : (p q : ℕ) → joins ((n - 1, n) ∷ []) (p, q) ≡ (p == n - 1 && q == n)
  last_edge p q =
      let order : ltb (n - 1) n ≡ true = ground arith in
      rw (order, same_edge p q (n - 1) n) (or_false (p == n - 1 && q == n))

  pub joins-internal_edges :
      (p q : ℕ) (role : Role)
      → joins (internal_edges n role) (p, q) ≡ (not (is_center role) && (p == n - 1 && q == n))
  joins-internal_edges p q center = refl
  joins-internal_edges p q leaf = last_edge p q
  joins-internal_edges p q other_role = last_edge p q

  pub kept_edges-is_edge :
      (edges : List Edge) → All (IsEdge n) edges → all (is_edge (n + 1)) (kept_edges a edges) ≡ true
  unfolding kept_edges
  kept_edges-is_edge [] h = refl
  kept_edges-is_edge ((u, v) ∷ edges) ((low, high), hs) = elim (Bool-cases (a == u || a == v)) [
    | inl touched ↦ rw touched (kept_edges-is_edge edges hs)
    | inr apart ↦
        let fits : is_edge (n + 1) (compact a u, compact a v) ≡ true =
          ground (arith, apart, low, high) in
        rw apart (ground (arith, fits, kept_edges-is_edge edges hs))
  ]

  pub bipartite_edges-is_edge :
      (nbrs : List ℕ) (role : Role)
      → All (λ x. ltb x n ≡ true) nbrs
      → All (λ x. (a == x) ≡ false) nbrs
      → all (is_edge (n + 1)) (bipartite_edges a nbrs (fresh_nbrs n role)) ≡ true
  unfolding bipartite_edges
  bipartite_edges-is_edge [] role h offs = refl
  bipartite_edges-is_edge (x ∷ nbrs) role (low, lows) (off, offs) =
      each_role role (bipartite_edges-is_edge nbrs role lows offs)
    where
      fits : (f : ℕ) → n ≤ f + 1 → f ≤ n → is_edge (n + 1) (compact a x, f) ≡ true
      fits f late soon = ground (arith, low, off, late, soon)

      each_role :
          (role : Role)
          → all (is_edge (n + 1)) (bipartite_edges a nbrs (fresh_nbrs n role)) ≡ true
          → all (is_edge (n + 1)) (bipartite_edges a (x ∷ nbrs) (fresh_nbrs n role)) ≡ true
      each_role center h =
          ground
            (arith, h, fits (n - 1) (omega arith) (omega arith), fits n (omega arith) (omega arith))
      each_role leaf h = ground (arith, h, fits (n - 1) (omega arith) (omega arith))
      each_role other_role h = ground (arith, h, fits (n - 1) (omega arith) (omega arith))

  pub internal_edges-is_edge : (role : Role) → all (is_edge (n + 1)) (internal_edges n role) ≡ true
  internal_edges-is_edge center = refl
  internal_edges-is_edge leaf = ground arith
  internal_edges-is_edge other_role = ground arith

  pub settle :
      (p q : ℕ) (x y c : Bool)
      → p < q
      → ((ltb q (n - 1) && x)
          || (((ltb p (n - 1) && y) && (q == n - 1 || (c && q == n)))
              || (not c && (p == n - 1 && q == n))))
        ≡ (if ltb q (n - 1)
            then x
            else if q == n - 1
            then y
            else if q == n
            then if p == n - 1 then not c else c && y
            else false)
  settle p q x y c h = ground arith
