-- ===== src/Claims/Graph/Placing.antt =====
-- The visits of the second traversal, after the first one has found no cycle.
use empiricist.Base.{
  ℕ, zero, suc, ◌≤◌, ◌<◌, ◌≡◌, subst, inl, inr, Bool, true, false, not, ◌||◌, List, [], ◌∷◌, ◌++◌,
  count, ltb, All, All-map, arith, Bool-cases, ◌==◌, ==_refl, ==_iff,
}
use empiricist.Base.Rows.{any-append, any-append_last}
use empiricist.Base.Pairwise.{any-snoc}
use empiricist.Ledger.Models.{Text}
use empiricist.Base.Visits.{Visit, going, stopped, out_of_fuel, each}
use empiricist.Claims.Graph.{Graph, is_in, deps, keys, Placed, place}
use empiricist.Base.Visits.{Holds, Holds-continue, each-Holds}
use empiricist.Claims.Graph.Paths.{deps_key}
use empiricist.Claims.Graph.Cycles.{Ordered, All-is_in, count_le, count_lt}
use empiricist.Claims.Graph.Order.{rank, IsTopological, IsTopological-snoc, done_deps}

pub record Good (g : Graph) (K : Text → Bool) (s : Placed) : Type 0 where
  pub topological : IsTopological g [] s.order
  pub sees : (x : Text) → is_in x s.order ≡ true → is_in x s.seen ≡ true
  pub within : (x : Text) → is_in x s.order ≡ true → K x ≡ true

-- What a visit does to the state.
pub record Moved (s t : Placed) : Type 0 where
  pub seen : (x : Text) → is_in x s.seen ≡ true → is_in x t.seen ≡ true
  pub placed : (x : Text) → is_in x s.order ≡ true → is_in x t.order ≡ true
  pub finished : (x : Text) → is_in x t.seen ≡ true → (is_in x s.seen || is_in x t.order) ≡ true
  pub fresh : (x : Text) → is_in x t.order ≡ true → (is_in x s.order || not (is_in x s.seen)) ≡ true

pub Moved_refl : (s : Placed) → Moved s s
Moved_refl s = record {
  seen = λ x h. h;
  placed = λ x h. h;
  finished = λ x h. ground (arith, h);
  fresh = λ x h. ground (arith, h);
}

pub Moved_trans : (s t u : Placed) → Moved s t → Moved t u → Moved s u
Moved_trans s t u p q = record {
  seen = λ x h. q.seen x (p.seen x h);
  placed = λ x h. q.placed x (p.placed x h);
  finished = λ x h. ground (arith, h, q.finished x h, p.finished x, q.placed x);
  fresh = λ x h. ground (arith, h, q.fresh x h, p.fresh x, p.seen x);
}

-- Nothing is raised.
abbrev pub Never : {A : Type 0} → A → Type 0
Never a = ⊥

module _ (g : Graph) (done : List Text) (K : Text → Bool) where
  abbrev pub unseen : Placed → ℕ
  unseen s = count (λ k. not (is_in k s.seen)) (keys g)

  -- What is seen and not yet placed is on the way to the node, and so was done after it.
  abbrev pub Fits : Text → Placed → Type 0
  Fits node s =
      (x : Text)
      → is_in x s.seen ≡ true
      → (is_in x s.order || ltb (rank done node) (rank done x)) ≡ true

  abbrev pub Put : Text → Placed → Placed → Type 0
  Put node s t = Good g K t × Moved s t × (is_in node t.order ≡ true)

  abbrev pub begun : Text → Placed → Placed
  begun node s = record s { seen = node ∷ s.seen }

  abbrev pub put : Text → Placed → Placed
  put node t = record t { order = t.order ++ node ∷ [] }

  Put-put :
      (node : Text) (s t : Placed)
      → is_in node s.seen ≡ false
      → K node ≡ true
      → Good g K s
      → Good g K t
      → Moved (begun node s) t
      → All (λ d. is_in d t.order ≡ true) (deps g node)
      → Put node s (put node t)
  Put-put node s t new kind good h r ds =
      let at_end = λ (x : Text). any-snoc (λ y. y == x) t.order node in
      let unplaced : is_in node t.order ≡ false =
        ground (arith, new, r.fresh node, good.sees node, ==_refl node) in
      (
        record {
          topological =
              IsTopological-snoc g [] t.order node h.topological
                (All-map (λ d. is_in d t.order ≡ true) _ (deps g node) (λ d m. m) ds) unplaced;
          sees = λ x m. ground (arith, m, at_end x, h.sees x, r.seen x);
          within = λ x m. elim (Bool-cases (node == x)) [
            | inl same ↦ subst (λ z. K z ≡ true) ((==_iff node x).0 same) kind
            | inr other ↦ h.within x (ground (arith, m, at_end x, other))
          ];
        },
        record {
          seen = λ x m. r.seen x (ground (arith, m));
          placed = λ x m. any-append (λ y. y == x) t.order (node ∷ []) (r.placed x m);
          finished = λ x m. ground (arith, m, r.finished x m, at_end x);
          fresh = λ x m. ground (arith, m, at_end x, r.fresh x, new);
        },
        any-append_last (λ y. y == node) t.order node (==_refl node),
      )

  -- Where the node has a dependency, it is a claim, and seeing it leaves fewer to see.
  unseen-begun :
      (node d : Text) (s : Placed)
      → is_in node s.seen ≡ false
      → is_in d (deps g node) ≡ true
      → unseen (begun node s) < unseen s
  unseen-begun node d s new e =
      count_lt (λ k. not (is_in k (begun node s).seen)) (λ k. not (is_in k s.seen)) (keys g) node
        (λ k h. ground (arith, h)) (deps_key g node d e) (ground (arith, ==_refl node))
        (ground (arith, new))

  unseen-Moved : (s t : Placed) → Moved s t → unseen t ≤ unseen s
  unseen-Moved s t r =
      count_le (λ k. not (is_in k t.seen)) (λ k. not (is_in k s.seen)) (keys g)
        (λ k h. ground (arith, h, r.seen k))

  module _ (ordered : Ordered g done)
      (K_deps : (x d : Text) → K x ≡ true → is_in d (deps g x) ≡ true → K d ≡ true) where
    -- A dependency fits where its node did.
    Fits-dep :
        (node d : Text) (s t : Placed)
        → is_in node done ≡ true
        → is_in d (deps g node) ≡ true
        → Fits node s
        → Moved (begun node s) t
        → Fits d t
    Fits-dep node d s t known e fits r x m =
        let lower = done_deps g done node d ordered known e in
        elim (Bool-cases (node == x)) [
          | inl same ↦
              let at : node ≡ x = (==_iff node x).0 same in
              let below = subst (λ z. rank done d < rank done z) at lower.1 in ground (arith, below)
          | inr other ↦ ground (arith, lower.1, m, r.finished x, r.placed x, fits x, other)
        ]

    unfoldable pub Step : ℕ → Type 0
    Step f =
        (x : Text) (t : Placed)
        → unseen t < f
        → is_in x done ≡ true
        → K x ≡ true
        → Fits x t
        → Good g K t
        → Holds {A = List Text} Never (Put x t) (place g f x t)

    pub place-Holds : (f : ℕ) → Step f
    unfolding Step place
    place-Holds zero node s bound known kind fits h = absurd (omega arith)
    place-Holds (suc f) node s bound known kind fits h = elim (Bool-cases (is_in node s.seen)) [
      | inl old ↦ rw old (h, Moved_refl s, ground (arith, fits node old))
      | inr new ↦ rw new (
          Holds-continue Never _ (Put node s) (each (place g f) (deps g node) (begun node s)) _
            (each-Holds Never (λ t. Good g K t × Moved (begun node s) t) Moved
              (λ x. is_in x (deps g node) ≡ true) (λ x t. is_in x t.order ≡ true) Moved_refl
              Moved_trans (λ x t u r m. r.placed x m) (place g f)
              (λ x t e (good, r). widen (begun node s) x t r (place g f x t) (
                place-Holds f x t
                  (omega
                    (arith, bound, unseen-begun node x s new e, unseen-Moved (begun node s) t r))
                  (done_deps g done node x ordered known e).0 (K_deps node x kind e)
                  (Fits-dep node x s t known e fits r) good))
              (deps g node) (begun node s) (All-is_in (deps g node))
              (
                record {
                  topological = h.topological;
                  sees = λ x m. ground (arith, h.sees x m);
                  within = h.within;
                },
                Moved_refl (begun node s),
              ))
            (λ t ((good, r), _, ds). Put-put node s t new kind h good r ds))
    ]
      where
        widen :
            (s' : Placed) (x : Text) (t : Placed)
            → Moved s' t
            → (v : Visit (List Text) Placed) → Holds Never (Put x t) v
            → Holds Never (λ u. (Good g K u × Moved s' u) × Moved t u × (is_in x u.order ≡ true)) v
        widen s' x t r (going u) (p, q, m) = ((p, Moved_trans s' t u r q), q, m)
        widen s' x t r (stopped c) h = h
        widen s' x t r out_of_fuel h = elim h [ ]
