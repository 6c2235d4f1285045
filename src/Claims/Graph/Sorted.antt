-- ===== src/Claims/Graph/Sorted.antt =====
-- The outcome of `topological_order`.
use empiricist.Base.{
  ◌+◌, ◌≡◌, refl, sym, ◌∙◌, inl, inr, true, not, ◌||◌, List, [], ◌∷◌, length, All, sort_by,
  insert_by, arith, Bool-cases, ◌==◌, ==_refl,
}
use empiricist.Ledger.Models.{Text}
use empiricist.Base.Visits.{Visit, going, stopped, out_of_fuel, continue, each}
use empiricist.Claims.Graph.{
  Graph, is_in, deps, keys, Marks, Placed, place, find_cycle, topological_order,
}
use empiricist.Base.Visits.{Holds, Holds-continue, each-Holds}
use empiricist.Claims.Graph.Paths.{IsCycle}
use empiricist.Claims.Graph.Cycles.{Complete, count_le_length, find_cycle-Holds}
use empiricist.Claims.Graph.Order.{IsTopological, All_get}
use empiricist.Claims.Graph.Placing.{
  Good, Moved, Moved_refl, Moved_trans, Never, Put, Step, place-Holds,
}

-- The ids of the claims are closed under dependencies.
abbrev pub IsClosed : Graph → Type 0
IsClosed g = All (λ e. All (λ d. is_in d (keys g) ≡ true) e.1) g

-- An order in which every claim stands once and after its dependencies, and nothing else stands.
pub record IsOrder (g : Graph) (order : List Text) : Type 0 where
  pub topological : IsTopological g [] order
  pub all_keys : All (λ k. is_in k order ≡ true) (keys g)
  pub only_keys : All (λ x. is_in x (keys g) ≡ true) order

is_in-insert_by :
    (x y : Text) (xs : List Text) → is_in x (insert_by (λ z. z) y xs) ≡ (y == x || is_in x xs)
is_in-insert_by x y [] = refl
is_in-insert_by x y (z ∷ zs) = ground (arith, is_in-insert_by x y zs)

is_in-sort_by : (x : Text) (xs : List Text) → is_in x (sort_by (λ z. z) xs) ≡ is_in x xs
is_in-sort_by x [] = refl
is_in-sort_by x (y ∷ ys) =
    ground (arith, is_in-insert_by x y (sort_by (λ z. z) ys), is_in-sort_by x ys)

members-All :
    (xs ys : List Text)
    → ((x : Text) → is_in x ys ≡ true → is_in x xs ≡ true)
    → All (λ y. is_in y xs ≡ true) ys
members-All xs [] h = tt
members-All xs (y ∷ ys) h =
    (h y (ground (arith, ==_refl y)), members-All xs ys (λ x m. h x (ground (arith, m))))

deps-keys :
    (g es : Graph) (x d : Text)
    → All (λ e. All (λ d. is_in d (keys g) ≡ true) e.1) es
    → is_in d (deps es x) ≡ true
    → is_in d (keys g) ≡ true
deps-keys g [] x d h m = cc
deps-keys g ((k, ds) ∷ es) x d (h, hs) m = elim (Bool-cases (k == x)) [
  | inl same ↦ All_get (λ d. is_in d (keys g) ≡ true) ds d h (ground (arith, m, same))
  | inr differs ↦ deps-keys g es x d hs (ground (arith, m, differs))
]

abbrev blank : Placed
blank = record { seen = []; order = [] }

abbrev Kept : Graph → Placed → Type 0
Kept g t =
    Good g (λ x. is_in x (keys g)) t × ((x : Text) → is_in x t.seen ≡ true → is_in x t.order ≡ true)

module _ (g : Graph) (closed : IsClosed g) (marks : Marks) (complete : Complete g marks) where
  K_deps :
      (x d : Text) → is_in x (keys g) ≡ true → is_in d (deps g x) ≡ true → is_in d (keys g) ≡ true
  K_deps x d h e = deps-keys g g x d closed e

  round :
      (x : Text) (t : Placed)
      → is_in x (keys g) ≡ true
      → Kept g t
      → Holds {A = List Text} Never
          (λ u. Kept g u × Moved t u × (is_in x u.order ≡ true))
          (place g (length g + 1) x t)
  unfolding Step
  round x t key (good, all_placed) = widen (place g (length g + 1) x t) (
      place-Holds g marks.done (λ x. is_in x (keys g)) complete.0 K_deps (length g + 1) x t
        (omega (arith, count_le_length (λ k. not (is_in k t.seen)) g))
        (All_get (λ k. is_in k marks.done ≡ true) (keys g) x complete.1 key) key
        (λ y m. ground (arith, all_placed y m)) good)
    where
      widen :
          (v : Visit (List Text) Placed)
          → Holds Never (Put g marks.done (λ x. is_in x (keys g)) x t) v
          → Holds Never (λ u. Kept g u × Moved t u × (is_in x u.order ≡ true)) v
      widen (going u) (p, q, m) =
          ((p, λ y m. ground (arith, q.finished y m, all_placed y, q.placed y)), q, m)
      widen (stopped c) h = h
      widen out_of_fuel h = elim h [ ]

  rounds :
      Holds {A = List Text} Never
        (λ u.
          Kept g u × Moved blank u × All (λ x. is_in x u.order ≡ true) (sort_by (λ x. x) (keys g)))
        (each (place g (length g + 1)) (sort_by (λ x. x) (keys g)) blank)
  rounds =
      each-Holds Never (Kept g) Moved (λ x. is_in x (keys g) ≡ true) (λ x t. is_in x t.order ≡ true)
        Moved_refl Moved_trans (λ x t u r m. r.placed x m) (place g (length g + 1)) round
        (sort_by (λ x. x) (keys g)) blank
        (members-All (keys g) (sort_by (λ x. x) (keys g))
          (λ x m. sym (is_in-sort_by x (keys g)) ∙ m))
        (record { topological = tt; sees = λ x m. cc; within = λ x m. cc }, λ x m. cc)

  end-IsOrder :
      (u : Placed)
      → Kept g u × Moved blank u × All (λ x. is_in x u.order ≡ true) (sort_by (λ x. x) (keys g))
      → IsOrder g u.order
  end-IsOrder u ((good, _), _, all_in) = record {
    topological = good.topological;
    all_keys = members-All u.order (keys g) (λ x m.
        All_get (λ y. is_in y u.order ≡ true) (sort_by (λ x. x) (keys g)) x all_in
          (is_in-sort_by x (keys g) ∙ m));
    only_keys = members-All (keys g) u.order good.within;
  }

-- On a graph whose dependencies are all claims of it `topological_order` returns: it raises with a
-- cycle of the graph, or gives an order in which exactly the claims stand, each once and after its
-- dependencies.
pub topological_order_ok :
    (g : Graph) → IsClosed g → Holds (IsCycle g) (IsOrder g) (topological_order g)
unfolding topological_order
topological_order_ok g closed =
    Holds-continue (IsCycle g) (Complete g) (IsOrder g) (find_cycle g) _ (find_cycle-Holds g)
      λ marks complete.
        finish marks complete (each (place g (length g + 1)) (sort_by (λ x. x) (keys g)) blank)
          (rounds g closed marks complete)
  where
    finish :
        (marks : Marks)
        → Complete g marks
        → (v : Visit (List Text) Placed)
        → Holds Never
            (λ u.
              Kept g u
              × Moved blank u
              × All (λ x. is_in x u.order ≡ true) (sort_by (λ x. x) (keys g)))
            v
        → Holds (IsCycle g) (IsOrder g) (continue v λ s. going s.order)
    finish marks complete (going u) h = end-IsOrder g closed marks complete u h
    finish marks complete (stopped c) h = elim h [ ]
    finish marks complete out_of_fuel h = elim h [ ]
