-- ===== src/Claims/Graph/Order.antt =====
-- The order of the nodes that are done, and topological orders.
use empiricist.Base.{
  ℕ, suc, ◌≤◌, ◌<◌, ◌≡◌, sym, subst, inl, inr, true, false, ◌||◌, List, [], ◌∷◌, ◌++◌, length, All,
  All-map, arith, if◌then◌else◌, Bool-cases, ◌==◌, ==_iff,
}
use empiricist.Ledger.Models.{Text}
use empiricist.Claims.Graph.{Graph, is_in, deps}
use empiricist.Claims.Graph.Cycles.{Ordered}

-- The number of nodes that are done no later than the node.
pub rank : List Text → Text → ℕ
rank [] x = 0
rank (y ∷ ys) x = if y == x then suc (length ys) else rank ys x

pub rank_le_length : (ys : List Text) (x : Text) → rank ys x ≤ length ys
unfolding rank
rank_le_length [] x = omega arith
rank_le_length (y ∷ ys) x = ground (arith, rank_le_length ys x)

pub All_get : (P : Text → Type 0) (xs : List Text) (x : Text) → All P xs → is_in x xs ≡ true → P x
All_get P [] x h m = cc
All_get P (y ∷ ys) x (h, hs) m = elim (Bool-cases (y == x)) [
  | inl same ↦ subst P ((==_iff y x).0 same) h
  | inr differs ↦ All_get P ys x hs (ground (arith, m, differs))
]

module _ (g : Graph) where
  pub done_deps :
      (done : List Text) (x d : Text)
      → Ordered g done
      → is_in x done ≡ true
      → is_in d (deps g x) ≡ true
      → (is_in d done ≡ true) × (rank done d < rank done x)
  unfolding rank
  done_deps [] x d h m e = cc
  done_deps (y ∷ ys) x d (ds, own, h) m e = elim (Bool-cases (y == x)) [
    | inl same ↦
        let at : y ≡ x = (==_iff y x).0 same in
        let inside =
          All_get (λ z. is_in z ys ≡ true) (deps g y) d ds
            (subst (λ z. is_in d (deps g z) ≡ true) (sym at) e) in
        let other : (y == d) ≡ false = differs y d ys own inside in
        ground (arith, inside, same, other, rank_le_length ys d)
    | inr no_match ↦
        let (inside, lower) = done_deps ys x d h (ground (arith, m, no_match)) e in
        let other : (y == d) ≡ false = differs y d ys own inside in
        ground (arith, inside, no_match, other, lower)
  ]
    where
      differs :
          (y d : Text) (ys : List Text) → is_in y ys ≡ false → is_in d ys ≡ true → (y == d) ≡ false
      differs y d ys own inside = elim (Bool-cases (y == d)) [
        | inl same ↦
            absurd (
              ground
                (arith, own, subst (λ z. is_in z ys ≡ true) (sym ((==_iff y d).0 same)) inside))
        | inr off ↦ off
      ]

-- Every entry stands once, and after its dependencies; `before` are the entries before.
abbrev pub IsTopological : Graph → List Text → List Text → Type 0
IsTopological g before [] = Unit
IsTopological g before (x ∷ xs) =
    All (λ d. is_in d before ≡ true) (deps g x)
    × (is_in x before ≡ false)
    × IsTopological g (x ∷ before) xs

module _ (g : Graph) where
  pub IsTopological-snoc :
      (before xs : List Text) (y : Text)
      → IsTopological g before xs
      → All (λ d. (is_in d before || is_in d xs) ≡ true) (deps g y)
      → (is_in y before || is_in y xs) ≡ false
      → IsTopological g before (xs ++ y ∷ [])
  IsTopological-snoc before [] y h ds own = (
    All-map _ (λ d. is_in d before ≡ true) (deps g y) (λ d m. ground (arith, m)) ds,
    ground (arith, own),
    tt,
  )
  IsTopological-snoc before (x ∷ xs) y (ds', own', h) ds own = (
    ds',
    own',
    IsTopological-snoc (x ∷ before) xs y h
        (All-map _ (λ d. (is_in d (x ∷ before) || is_in d xs) ≡ true) (deps g y)
          (λ d m. ground (arith, m)) ds)
        (ground (arith, own)),
  )
