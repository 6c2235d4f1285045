-- ===== src/Zx/Termination/Covered.antt =====
-- The categories that `_leg_diffs` of src/empiricist/packs/zx/termination.py goes through.
use empiricist.Base.{ℕ, sym, subst, ◌⊎◌, inl, inr, Bool, true, false, List, [], ◌∷◌, ◌++◌, map, All}
use empiricist.Zx.Diagrams.{Target, Rule, stars, targets}
use empiricist.Zx.Termination.{
  Leg, to_context, between, context_legs, products, legs_from, star_legs, legs,
}
use empiricist.Zx.Termination.Uses.{In}

module _ {A : Type 0} (P : A → Type 0) where
  All-In : (xs : List A) (x : A) → All P xs → In x xs → P x
  All-In [] x h at = absurd at
  All-In (y ∷ ys) x (h, hs) (inl same) = subst P (sym same) h
  All-In (y ∷ ys) x (h, hs) (inr at) = All-In ys x hs at

  All-front : (xs ys : List A) → All P (xs ++ ys) → All P xs
  All-front [] ys h = tt
  All-front (x ∷ xs) ys (h, hs) = (h, All-front xs ys hs)

  All-back : (xs ys : List A) → All P (xs ++ ys) → All P ys
  All-back [] ys h = h
  All-back (x ∷ xs) ys (h, hs) = All-back xs ys hs

  All_unmap : {B : Type 0} (f : B → A) (xs : List B) (x : B) → All P (map f xs) → In x xs → P (f x)
  All_unmap f [] x h at = absurd at
  All_unmap f (y ∷ ys) x (h, hs) (inl same) = subst (λ z. P (f z)) (sym same) h
  All_unmap f (y ∷ ys) x (h, hs) (inr at) = All_unmap f ys x hs at

module _ (rule : Rule) (P : Leg → Type 0) where
  context_legs-covers :
      (ss : List ℕ) (s : ℕ) (hadamard : Bool) (t : Target)
      → All P (context_legs rule ss)
      → In s ss
      → In t (targets rule s)
      → P (to_context s hadamard t)
  unfolding context_legs
  context_legs-covers [] s hadamard t h at listed = absurd at
  context_legs-covers (x ∷ ss) s hadamard t h at listed =
      let plain = map (to_context x false) (targets rule x) in
      let marked = map (to_context x true) (targets rule x) in
      let rest = context_legs rule ss in
      let here = All-front P (plain ++ marked) rest h in
      elim at [
        | inr later ↦
            context_legs-covers ss s hadamard t (All-back P (plain ++ marked) rest h) later listed
        | inl same ↦
            let at_x : In t (targets rule x) = subst (λ k. In t (targets rule k)) same listed in
            subst (λ k. P (to_context k hadamard t)) (sym same)
              (elim hadamard as (λ b. P (to_context x b t)) [
                | true ↦
                    All_unmap P (to_context x true) (targets rule x) t
                      (All-back P plain marked here) at_x
                | false ↦
                    All_unmap P (to_context x false) (targets rule x) t
                      (All-front P plain marked here) at_x
              ])
      ]

  products-covers :
      (s1 s2 : ℕ) (hadamard : Bool) (t1s t2s : List Target) (t1 t2 : Target)
      → All P (products s1 s2 hadamard t1s t2s)
      → In t1 t1s
      → In t2 t2s
      → P (between s1 s2 hadamard t1 t2)
  products-covers s1 s2 hadamard [] t2s t1 t2 h at1 at2 = absurd at1
  products-covers s1 s2 hadamard (x ∷ t1s) t2s t1 t2 h (inl same) at2 =
      subst (λ k. P (between s1 s2 hadamard k t2)) (sym same)
        (All_unmap P (between s1 s2 hadamard x) t2s t2 (All-front P _ _ h) at2)
  products-covers s1 s2 hadamard (x ∷ t1s) t2s t1 t2 h (inr at1) at2 =
      products-covers s1 s2 hadamard t1s t2s t1 t2 (All-back P _ _ h) at1 at2

  -- What holds of the legs between two stars.
  abbrev Pair : ℕ → ℕ → Type 0
  Pair s1 s2 =
      (hadamard : Bool) (t1 t2 : Target)
      → In t1 (targets rule s1)
      → In t2 (targets rule s2)
      → P (between s1 s2 hadamard t1 t2)

  Pair-by :
      (s1 s2 : ℕ)
      → All P (products s1 s2 false (targets rule s1) (targets rule s2))
      → All P (products s1 s2 true (targets rule s1) (targets rule s2))
      → Pair s1 s2
  Pair-by s1 s2 plain marked true t1 t2 = products-covers s1 s2 true _ _ t1 t2 marked
  Pair-by s1 s2 plain marked false t1 t2 = products-covers s1 s2 false _ _ t1 t2 plain

  legs_from-covers :
      (s1 : ℕ) (ss : List ℕ) (s2 : ℕ) → All P (legs_from rule s1 ss) → In s2 ss → Pair s1 s2
  unfolding legs_from
  legs_from-covers s1 [] s2 h at = absurd at
  legs_from-covers s1 (x ∷ ss) s2 h at =
      let plain = products s1 x false (targets rule s1) (targets rule x) in
      let marked = products s1 x true (targets rule s1) (targets rule x) in
      let rest = legs_from rule s1 ss in
      let here = All-front P (plain ++ marked) rest h in
      elim at [
        | inr later ↦ legs_from-covers s1 ss s2 (All-back P (plain ++ marked) rest h) later
        | inl same ↦
            subst (Pair s1) (sym same)
              (Pair-by s1 x (All-front P plain marked here) (All-back P plain marked here))
      ]

  star_legs-covers :
      (ss : List ℕ) (s1 s2 : ℕ)
      → All P (star_legs rule ss)
      → In s1 ss
      → In s2 ss
      → Pair s1 s2 ⊎ Pair s2 s1
  unfolding star_legs
  star_legs-covers [] s1 s2 h at1 at2 = absurd at1
  star_legs-covers (x ∷ ss) s1 s2 h (inl same) at2 =
      inl
        (subst (λ k. Pair k s2) (sym same) (legs_from-covers x (x ∷ ss) s2 (All-front P _ _ h) at2))
  star_legs-covers (x ∷ ss) s1 s2 h (inr at1) (inl same) = inr (
      subst (λ k. Pair k s1) (sym same)
        (legs_from-covers x (x ∷ ss) s1 (All-front P _ _ h) (inr at1)))
  star_legs-covers (x ∷ ss) s1 s2 h (inr at1) (inr at2) =
      star_legs-covers ss s1 s2 (All-back P _ _ h) at1 at2

  pub legs-covers_context :
      (s : ℕ) (hadamard : Bool) (t : Target)
      → All P (legs rule)
      → In s (stars rule)
      → In t (targets rule s)
      → P (to_context s hadamard t)
  unfolding legs
  legs-covers_context s hadamard t h =
      context_legs-covers (stars rule) s hadamard t (All-front P _ _ h)

  pub legs-covers_stars :
      (s1 s2 : ℕ)
      → All P (legs rule)
      → In s1 (stars rule)
      → In s2 (stars rule)
      → Pair s1 s2 ⊎ Pair s2 s1
  unfolding legs
  legs-covers_stars s1 s2 h = star_legs-covers (stars rule) s1 s2 (All-back P _ _ h)
