-- ===== src/Claims/Graph/Cycles.antt =====
-- `find_cycle` returns, and stops only with a cycle.
use empiricist.Base.{
  ℕ, zero, suc, ◌+◌, ◌≤◌, ◌<◌, ◌≡◌, refl, sym, ◌∙◌, ap, subst, inl, inr, Bool, true, false, List,
  [], ◌∷◌, count, length, All, arith, Bool-cases, ◌==◌, ==_refl, ==_iff,
}
use empiricist.Ledger.Models.{Text}
use empiricist.Base.Visits.{Visit, going, stopped, out_of_fuel, each}
use empiricist.Claims.Graph.{
  Graph, is_in, deps, keys, Marks, is_unmarked, closing, push, close, popped, look_at, visit,
  visit_unmarked, find_cycle,
}
use empiricist.Base.Visits.{Holds, Holds-continue, each-Holds}
use empiricist.Claims.Graph.Paths.{Chain, IsCycle, deps_key, closing-IsCycle}

-- The nodes in the order of their completion, the last one first: the dependencies come before.
abbrev pub Ordered : Graph → List Text → Type 0
Ordered g [] = Unit
Ordered g (x ∷ rest) =
    All (λ d. is_in d rest ≡ true) (deps g x) × (is_in x rest ≡ false) × Ordered g rest

abbrev pub unmarked : Graph → Marks → ℕ
unmarked g s = count (λ k. is_unmarked k s) (keys g)

pub record Inv (g : Graph) (s : Marks) : Type 0 where
  pub ordered : Ordered g s.done
  pub path : Chain g s.stack
  pub apart : All (λ x. is_in x s.done ≡ false) s.stack

pub record Grown (s t : Marks) : Type 0 where
  pub same : t.stack ≡ s.stack
  pub more : (x : Text) → is_in x s.done ≡ true → is_in x t.done ≡ true

Grown_refl : (s : Marks) → Grown s s
Grown_refl s = record { same = refl; more = λ x h. h }

Grown_trans : (s t u : Marks) → Grown s t → Grown t u → Grown s u
Grown_trans s t u p q = record { same = q.same ∙ p.same; more = λ x h. q.more x (p.more x h) }

-- Marking more nodes leaves fewer unmarked.
pub count_le :
    (p q : Text → Bool) (xs : List Text)
    → ((x : Text) → p x ≡ true → q x ≡ true)
    → count p xs ≤ count q xs
count_le p q [] h = omega arith
count_le p q (x ∷ xs) h = ground (arith, h x, count_le p q xs h)

pub count_lt :
    (p q : Text → Bool) (xs : List Text) (y : Text)
    → ((x : Text) → p x ≡ true → q x ≡ true)
    → is_in y xs ≡ true
    → p y ≡ false
    → q y ≡ true
    → count p xs < count q xs
count_lt p q [] y h e f t = cc
count_lt p q (x ∷ xs) y h e f t = elim (Bool-cases (x == y)) [
  | inl same ↦
      let at : x ≡ y = (==_iff x y).0 same in ground (arith, count_le p q xs h, ap p at, ap q at)
  | inr differs ↦ ground (arith, h x, differs, count_lt p q xs y h)
]

module _ (g : Graph) where
  unmarked-Grown : (s t : Marks) → Grown s t → unmarked g t ≤ unmarked g s
  unmarked-Grown s t r =
      count_le (λ k. is_unmarked k t) (λ k. is_unmarked k s) (keys g)
        (λ k h. ground (arith, h, ap (is_in k) r.same, r.more k))

pub All-is_in : (xs : List Text) → All (λ x. is_in x xs ≡ true) xs
All-is_in xs = inside xs (λ x h. h)
  where
    inside :
        (ys : List Text)
        → ((x : Text) → is_in x ys ≡ true → is_in x xs ≡ true)
        → All (λ x. is_in x xs ≡ true) ys
    inside [] f = tt
    inside (y ∷ ys) f =
        (f y (ground (arith, ==_refl y)), inside ys (λ x h. f x (ground (arith, h))))

Chain-tail : (g : Graph) (x : Text) (xs : List Text) → Chain g (x ∷ xs) → Chain g xs
Chain-tail g x [] p = tt
Chain-tail g x (y ∷ ys) p = p.1

All-apart :
    (node : Text) (done stack : List Text)
    → All (λ x. is_in x done ≡ false) stack
    → is_in node stack ≡ false
    → All (λ x. is_in x (node ∷ done) ≡ false) stack
All-apart node done [] h e = tt
All-apart node done (x ∷ xs) (h, hs) e =
    (ground (arith, h, e), All-apart node done xs hs (ground (arith, e)))

module _ (g : Graph) where
  abbrev Reached : Text → Marks → Marks → Type 0
  Reached node s t = Inv g t × Grown s t × (is_in node t.done ≡ true)

  Inv-push :
      (node : Text) (s : Marks)
      → is_unmarked node s ≡ true
      → Chain g (node ∷ s.stack)
      → Inv g s
      → Inv g (push node s)
  Inv-push node s free path h = record {
    ordered = h.ordered;
    path = path;
    apart = (ground (arith, free), h.apart);
  }

  Inv-close :
      (node : Text) (s t : Marks)
      → is_unmarked node s ≡ true
      → Inv g t
      → t.stack ≡ node ∷ s.stack
      → Grown (push node s) t
      → All (λ d. is_in d t.done ≡ true) (deps g node)
      → Reached node s (close node t)
  Inv-close node s t free h e r ds =
      let (own, others) = subst (All (λ x. is_in x t.done ≡ false)) e h.apart in
      let stack : (close node t).stack ≡ s.stack = ap popped e in
      (
        record {
          ordered = (ds, own, h.ordered);
          path = subst (Chain g) (sym stack) (Chain-tail g node s.stack (subst (Chain g) e h.path));
          apart =
              subst (All (λ x. is_in x (node ∷ t.done) ≡ false)) (sym stack)
                (All-apart node t.done s.stack others (ground (arith, free)));
        },
        record { same = stack; more = λ x m. ground (arith, r.more x m) },
        ground (arith, ==_refl node),
      )

  unmarked-push :
      (node d : Text) (s : Marks)
      → is_unmarked node s ≡ true
      → is_in d (deps g node) ≡ true
      → unmarked g (push node s) < unmarked g s
  unmarked-push node d s free e =
      count_lt (λ k. is_unmarked k (push node s)) (λ k. is_unmarked k s) (keys g) node
        (λ k h. ground (arith, h)) (deps_key g node d e) (ground (arith, ==_refl node)) free

  look_at-Holds :
      (f : ℕ) (node : Text) (s : Marks)
      → ((x : Text) (t : Marks)
          → unmarked g t < f
          → is_unmarked x t ≡ true
          → Chain g (x ∷ t.stack)
          → Inv g t
          → Holds (IsCycle g) (Reached x t) (visit g f x t))
      → unmarked g s < suc f
      → is_unmarked node s ≡ true
      → (x : Text) (t : Marks) → is_in x (deps g node) ≡ true
      → Inv g t × Grown (push node s) t
      → Holds
          (IsCycle g)
          (λ u. (Inv g u × Grown (push node s) u) × Grown t u × (is_in x u.done ≡ true))
          (look_at (visit g f) x t)
  look_at-Holds f node s rec bound free x t dep (h, r) =
      let path = subst (Chain g) r.same h.path in
      elim (Bool-cases (is_in x t.stack)) [
        | inl on_stack ↦ rw on_stack (
            subst (λ st. IsCycle g (closing x st)) (sym r.same)
              (closing-IsCycle g x node s.stack path
                (subst (λ st. is_in x st ≡ true) r.same on_stack) dep))
        | inr off_stack ↦ elim (Bool-cases (is_in x t.done)) [
          | inl finished ↦ rw (off_stack, finished) ((h, r), Grown_refl t, finished)
          | inr new ↦
              rw (off_stack, new)
                (widen (visit g f x t) (
                  rec x t
                    (omega (
                      arith,
                      bound,
                      unmarked-push node x s free dep,
                      unmarked-Grown g (push node s) t r,
                    ))
                    (rw (off_stack, new) refl)
                    (subst (λ st. Chain g (x ∷ st)) (sym r.same) (dep, path)) h))
        ]
      ]
    where
      widen :
          (v : Visit (List Text) Marks)
          → Holds (IsCycle g) (Reached x t) v
          → Holds
              (IsCycle g)
              (λ u. (Inv g u × Grown (push node s) u) × Grown t u × (is_in x u.done ≡ true))
              v
      widen (going u) (p, q, m) = ((p, Grown_trans (push node s) t u r q), q, m)
      widen (stopped c) h = h
      widen out_of_fuel h = elim h [ ]

  visit-Holds :
      (f : ℕ) (node : Text) (s : Marks)
      → unmarked g s < f
      → is_unmarked node s ≡ true
      → Chain g (node ∷ s.stack)
      → Inv g s
      → Holds (IsCycle g) (Reached node s) (visit g f node s)
  unfolding visit
  visit-Holds zero node s bound free path h = absurd (omega arith)
  visit-Holds (suc f) node s bound free path h =
      Holds-continue (IsCycle g) _ (Reached node s)
        (each (look_at (visit g f)) (deps g node) (push node s)) _
        (each-Holds (IsCycle g) (λ t. Inv g t × Grown (push node s) t) Grown
          (λ x. is_in x (deps g node) ≡ true) (λ x t. is_in x t.done ≡ true) Grown_refl Grown_trans
          (λ x t u r m. r.more x m) (look_at (visit g f))
          (look_at-Holds f node s (visit-Holds f) bound free) (deps g node) (push node s)
          (All-is_in (deps g node)) (Inv-push node s free path h, Grown_refl (push node s)))
        (λ t ((p, r), _, ds). Inv-close node s t free p r.same r ds)

  abbrev pub Complete : Marks → Type 0
  Complete t = Ordered g t.done × All (λ k. is_in k t.done ≡ true) (keys g)

pub count_le_length : (p : Text → Bool) (es : Graph) → count p (keys es) ≤ length es
count_le_length p [] = omega arith
count_le_length p (e ∷ es) = ground (arith, count_le_length p es)

-- `find_cycle` returns: it stops with a cycle of the graph, or marks every node, in an order in which
-- dependencies are done first.
pub find_cycle-Holds : (g : Graph) → Holds (IsCycle g) (Complete g) (find_cycle g)
unfolding find_cycle
find_cycle-Holds g = finish (find_cycle g) (
    each-Holds (IsCycle g) (λ t. Inv g t × (t.stack ≡ [])) Grown (λ x. Unit {0})
      (λ x t. is_in x t.done ≡ true) Grown_refl Grown_trans (λ x t u r m. r.more x m)
      (visit_unmarked g (length g + 1)) step (keys g) begin (anything (keys g))
      (record { ordered = tt; path = tt; apart = tt }, refl))
  where
    begin : Marks
    begin = record { stack = []; done = [] }

    anything : (xs : List Text) → All (λ x. Unit {0}) xs
    anything [] = tt
    anything (x ∷ xs) = (tt, anything xs)

    step :
        (x : Text) (t : Marks)
        → Unit {0}
        → Inv g t × (t.stack ≡ [])
        → Holds
            (IsCycle g)
            (λ u. (Inv g u × (u.stack ≡ [])) × Grown t u × (is_in x u.done ≡ true))
            (visit_unmarked g (length g + 1) x t)
    step x t d (h, e) = elim (Bool-cases (is_unmarked x t)) [
      | inl new ↦ rw new (
          widen (visit g (length g + 1) x t) (
            visit-Holds g (length g + 1) x t
              (omega (arith, count_le_length (λ k. is_unmarked k t) g)) new
              (subst (λ st. Chain g (x ∷ st)) (sym e) tt) h))
      | inr old ↦ rw old ((h, e), Grown_refl t, ground (arith, old, e))
    ]
      where
        widen :
            (v : Visit (List Text) Marks)
            → Holds (IsCycle g) (Reached g x t) v
            → Holds
                (IsCycle g)
                (λ u. (Inv g u × (u.stack ≡ [])) × Grown t u × (is_in x u.done ≡ true))
                v
        widen (going u) (p, q, m) = ((p, q.same ∙ e), q, m)
        widen (stopped c) h = h
        widen out_of_fuel h = elim h [ ]

    finish :
        (v : Visit (List Text) Marks)
        → Holds
            (IsCycle g)
            (λ t.
              (Inv g t × (t.stack ≡ []))
              × Grown begin t
              × All (λ x. is_in x t.done ≡ true) (keys g))
            v
        → Holds (IsCycle g) (Complete g) v
    finish (going t) ((p, _), _, all_done) = (p.ordered, all_done)
    finish (stopped c) h = h
    finish out_of_fuel h = elim h [ ]
