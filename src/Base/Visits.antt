-- ===== src/Base/Visits.antt =====
-- Traversals that may stop with an answer, and what holds of them in whichever way they end: a
-- total-correctness rule for loops of visits.
use mathlib.Core.List.{List, [], ◌∷◌}
use empiricist.Base.Lists.{All}

-- A traversal goes on in a state, stops with an answer, or has no fuel left.
pub data Visit (A S : Type 0) : Type 0 where
  going : S → Visit A S
  stopped : A → Visit A S
  out_of_fuel : Visit A S

abbrev pub continue : {A S T : Type 0} → Visit A S → (S → Visit A T) → Visit A T
continue (going s) k = k s
continue (stopped a) k = stopped a
continue out_of_fuel k = out_of_fuel

-- `for x in xs: visit(x)`, left at the first answer.
unfoldable pub each : {A S B : Type 0} → (B → S → Visit A S) → List B → S → Visit A S
each visit [] s = going s
each visit (x ∷ xs) s = continue (visit x s) (each visit xs)

-- A traversal that goes on does so in a good state, and stops with a good answer only; it has fuel.
abbrev pub Holds : {A S : Type 0} → (A → Type 0) → (S → Type 0) → Visit A S → Type 0
Holds C G (going s) = G s
Holds C G (stopped a) = C a
Holds C G out_of_fuel = ⊥

module _ {A S T : Type 0} (C : A → Type 0) (G : S → Type 0) (K : T → Type 0) where
  pub Holds-continue :
      (r : Visit A S) (k : S → Visit A T)
      → Holds C G r
      → ((s : S) → G s → Holds C K (k s))
      → Holds C K (continue r k)
  Holds-continue (going s) k h f = f s h
  Holds-continue (stopped a) k h f = h
  Holds-continue out_of_fuel k h f = elim h [ ]

-- A loop of visits: `P` is its invariant, `R` what each round does to the state, `D` holds of the
-- nodes and `Q` afterwards of each of them.
module _ {A S B : Type 0} (C : A → Type 0) (P : S → Type 0) (R : S → S → Type 0) (D : B → Type 0)
    (Q : B → S → Type 0) (R_refl : (s : S) → R s s) (R_trans : (s t u : S) → R s t → R t u → R s u)
    (Q_keeps : (x : B) (s t : S) → R s t → Q x s → Q x t) where
  pub each-Holds :
      (step : B → S → Visit A S)
      → ((x : B) (s : S) → D x → P s → Holds C (λ t. P t × R s t × Q x t) (step x s))
      → (xs : List B) (s : S) → All D xs
      → P s
      → Holds C (λ t. P t × R s t × All (λ x. Q x t) xs) (each step xs s)
  unfolding each
  each-Holds step h [] s d p = (p, R_refl s, tt)
  each-Holds step h (x ∷ xs) s (d, ds) p =
      Holds-continue C (λ t. P t × R s t × Q x t) (λ t. P t × R s t × All (λ x. Q x t) (x ∷ xs))
        (step x s) (each step xs) (h x s d p)
        λ t (p', r, q). widen t r q (each step xs t) (each-Holds step h xs t ds p')
    where
      widen :
          (t : S)
          → R s t
          → Q x t
          → (v : Visit A S) → Holds C (λ u. P u × R t u × All (λ y. Q y u) xs) v
          → Holds C (λ u. P u × R s u × All (λ y. Q y u) (x ∷ xs)) v
      widen t r q (going u) (p, r', qs) = (p, R_trans s t u r r', (Q_keeps x t u r' q, qs))
      widen t r q (stopped a) c = c
      widen t r q out_of_fuel c = elim c [ ]
