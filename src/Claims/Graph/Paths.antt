-- ===== src/Claims/Graph/Paths.antt =====
-- Walks along dependencies, and the cycle that the stack closes.
use mathlib.Core.List.{reverse}
use empiricist.Base.{◌≡◌, refl, inl, inr, Bool, true, false, List, [], ◌∷◌, arith, Bool-cases, ◌==◌}
use empiricist.Ledger.Models.{Text}
use empiricist.Claims.Graph.{Graph, is_in, deps, keys, down_to, closing}

-- Each node is a dependency of the next one.
abbrev pub Chain : Graph → List Text → Type 0
Chain g [] = Unit
Chain g (x ∷ []) = Unit
Chain g (x ∷ y ∷ rest) = (is_in x (deps g y) ≡ true) × Chain g (y ∷ rest)

abbrev pub ends_with : Text → List Text → Bool
ends_with x [] = false
ends_with x (y ∷ []) = x == y
ends_with x (y ∷ z ∷ rest) = ends_with x (z ∷ rest)

-- A closed walk along dependencies, of one step at least.
abbrev pub IsCycle : Graph → List Text → Type 0
IsCycle g c =
    (x : Text) × (p : List Text) × (c ≡ reverse (x ∷ p)) × Chain g (x ∷ p) × (ends_with x p ≡ true)

module _ (g : Graph) where
  pub deps_key : (x d : Text) → is_in d (deps g x) ≡ true → is_in x (keys g) ≡ true
  deps_key x d h = found_key g h
    where
      found_key : (es : Graph) → is_in d (deps es x) ≡ true → is_in x (keys es) ≡ true
      found_key [] h = cc
      found_key ((k, ds) ∷ es) h = ground (arith, found_key es)

  ends_with-cons :
      (x y z : Text) (rest : List Text) → ends_with x (y ∷ z ∷ rest) ≡ ends_with x (z ∷ rest)
  ends_with-cons x y z rest = refl

  down_to-Chain :
      (h x y : Text) (stack : List Text)
      → Chain g (y ∷ stack)
      → is_in x (y ∷ stack) ≡ true
      → is_in h (deps g y) ≡ true
      → Chain g (h ∷ down_to x (y ∷ stack)) × (ends_with x (down_to x (y ∷ stack)) ≡ true)
  unfolding down_to
  down_to-Chain h x y [] p m e = ground (arith, m, e)
  down_to-Chain h x y (z ∷ rest) (q, p) m e = elim (Bool-cases (y == x)) [
    | inl same ↦ ground (arith, same, e)
    | inr differs ↦
        let ih = down_to-Chain y x z rest p (ground (arith, m, differs)) q in
        elim (Bool-cases (z == x)) [
          | inl last ↦ ground (arith, differs, last, ih, e)
          | inr more ↦ ground (arith, differs, more, ih, e)
        ]
  ]

  pub closing-IsCycle :
      (x y : Text) (stack : List Text)
      → Chain g (y ∷ stack)
      → is_in x (y ∷ stack) ≡ true
      → is_in x (deps g y) ≡ true
      → IsCycle g (closing x (y ∷ stack))
  closing-IsCycle x y stack p m e =
      let (path, last) = down_to-Chain x x y stack p m e in
      (x, down_to x (y ∷ stack), refl, path, last)
