-- ===== src/Base/Sets.antt =====
-- Finite sets, kept as increasing lists: equal sets are equal lists, and `sorted` of a set is the list.
use mathlib.Core.Path.{◌≡◌, refl, sym, ◌∙◌, ap, subst}
use mathlib.Core.Logic.{inl, inr}
use mathlib.Core.Bool.{Bool, true, false, not, ◌&&◌, ◌||◌}
use mathlib.Core.List.{List, [], ◌∷◌}
use native.Mathlib.Omega.{arith}
use empiricist.Base.Tests.{if◌then◌else◌, Bool-cases}
use empiricist.Base.Lists.{any, keep, All, All-map}
use empiricist.Base.Pairwise.{Pairwise, Pairwise-keep, All-keep}

abbrev pub xor : Bool → Bool → Bool
xor a b = if a then not b else b

pub record IsLinear {A : Type 0} (lt : A → A → Bool) : Type 0 where
  pub irreflexive : (x : A) → lt x x ≡ false
  pub transitive : (x y z : A) → lt x y ≡ true → lt y z ≡ true → lt x z ≡ true
  pub connected : (x y : A) → lt x y ≡ false → lt y x ≡ false → x ≡ y

module _ {A : Type 0} (lt : A → A → Bool) where
  abbrev pub same : A → A → Bool
  same x y = not (lt x y) && not (lt y x)

  -- `x in s`
  abbrev pub mem : A → List A → Bool
  mem x s = any (same x) s

  abbrev pub add : A → List A → List A
  add x [] = x ∷ []
  add x (y ∷ s) = if lt x y then x ∷ y ∷ s else if lt y x then y ∷ add x s else y ∷ s

  abbrev pub discard : A → List A → List A
  discard x s = keep (λ y. not (same x y)) s

  abbrev pub of_list : List A → List A
  of_list [] = []
  of_list (x ∷ xs) = add x (of_list xs)

  abbrev pub Increasing : List A → Type 0
  Increasing s = Pairwise (λ x y. lt x y ≡ true) s

  -- `if x in s: s.discard(x) else: s.add(x)`
  abbrev pub toggle : A → List A → List A
  toggle x s = if mem x s then discard x s else add x s

module _ {A : Type 0} (lt : A → A → Bool) (linear : IsLinear lt) where
  pub same_refl : (x : A) → same lt x x ≡ true
  same_refl x = ground (arith, linear.irreflexive x)

  pub same_eq : (x y : A) → same lt x y ≡ true → x ≡ y
  same_eq x y h = linear.connected x y (ground (arith, h)) (ground (arith, h))

  same_sym : (x y : A) → same lt x y ≡ same lt y x
  same_sym x y = ground arith

  pub below-mem : (x : A) (s : List A) → All (λ y. lt x y ≡ true) s → mem lt x s ≡ false
  below-mem x [] h = refl
  below-mem x (y ∷ s) (h, hs) = ground (arith, h, below-mem x s hs)

  pub mem-discard :
      (y x : A) (s : List A) → mem lt y (discard lt x s) ≡ (mem lt y s && not (same lt y x))
  mem-discard y x [] = refl
  mem-discard y x (z ∷ s) = elim (Bool-cases (same lt y z)) [
    | inr other ↦ ground (arith, other, mem-discard y x s)
    | inl at ↦
        let e : same lt x z ≡ same lt y x = ap (same lt x) (sym (same_eq y z at)) ∙ same_sym x y in
        ground (arith, at, e, mem-discard y x s)
  ]

  pub mem-add : (y x : A) (s : List A) → mem lt y (add lt x s) ≡ (same lt y x || mem lt y s)
  mem-add y x [] = refl
  mem-add y x (z ∷ s) = elim (Bool-cases (lt x z)) [
    | inl low ↦ ground (arith, low)
    | inr not_low ↦ elim (Bool-cases (lt z x)) [
      | inl high ↦ ground (arith, not_low, high, mem-add y x s)
      | inr not_high ↦
          let e : same lt y z ≡ same lt y x =
            ap (same lt y) (sym (linear.connected x z not_low not_high)) in
          ground (arith, not_low, not_high, e)
    ]
  ]

  pub mem-toggle :
      (y x : A) (s : List A) → mem lt y (toggle lt x s) ≡ xor (mem lt y s) (same lt y x)
  mem-toggle y x s = elim (Bool-cases (same lt y x)) [
    | inr other ↦ ground (arith, other, mem-discard y x s, mem-add y x s)
    | inl at ↦
        let e : mem lt y s ≡ mem lt x s = ap (λ z. mem lt z s) (same_eq y x at) in
        ground (arith, at, e, mem-discard y x s, mem-add y x s)
  ]

  pub All-add : (P : A → Type 0) (x : A) (s : List A) → P x → All P s → All P (add lt x s)
  All-add P x [] p h = (p, tt)
  All-add P x (z ∷ s) p (h, hs) = elim (Bool-cases (lt x z)) [
    | inl low ↦ rw low (p, (h, hs))
    | inr not_low ↦ elim (Bool-cases (lt z x)) [
      | inl high ↦ rw (not_low, high) (h, All-add P x s p hs)
      | inr not_high ↦ rw (not_low, not_high) (h, hs)
    ]
  ]

  pub Increasing-add : (x : A) (s : List A) → Increasing lt s → Increasing lt (add lt x s)
  Increasing-add x [] h = (tt, tt)
  Increasing-add x (z ∷ s) (h, hs) = elim (Bool-cases (lt x z)) [
    | inl low ↦ rw low ((low, All-map _ _ s (λ y k. linear.transitive x z y low k) h), (h, hs))
    | inr not_low ↦ elim (Bool-cases (lt z x)) [
      | inl high ↦
          rw (not_low, high) (All-add (λ y. lt z y ≡ true) x s high h, Increasing-add x s hs)
      | inr not_high ↦ rw (not_low, not_high) (h, hs)
    ]
  ]

  pub Increasing-toggle : (x : A) (s : List A) → Increasing lt s → Increasing lt (toggle lt x s)
  Increasing-toggle x s h = elim (Bool-cases (mem lt x s)) [
    | inl there ↦ rw there (Pairwise-keep (λ y z. lt y z ≡ true) _ s h)
    | inr missing ↦ rw missing (Increasing-add x s h)
  ]

  pub All-toggle : (P : A → Type 0) (x : A) (s : List A) → P x → All P s → All P (toggle lt x s)
  All-toggle P x s p h = elim (Bool-cases (mem lt x s)) [
    | inl there ↦ rw there (All-keep P _ s h)
    | inr missing ↦ rw missing (All-add P x s p h)
  ]

  -- Sets with the same elements are equal.
  pub Increasing-ext :
      (s t : List A)
      → Increasing lt s
      → Increasing lt t
      → ((x : A) → mem lt x s ≡ mem lt x t)
      → s ≡ t
  Increasing-ext [] [] h k e = refl
  Increasing-ext [] (y ∷ t) h k e = absurd (ground (arith, e y, same_refl y))
  Increasing-ext (x ∷ s) [] h k e = absurd (ground (arith, e x, same_refl x))
  Increasing-ext (x ∷ s) (y ∷ t) (h, hs) (k, ks) e = elim (Bool-cases (lt x y)) [
    | inl low ↦ absurd (
        ground (
          arith,
          low,
          e x,
          same_refl x,
          below-mem x t (All-map _ _ t (λ z q. linear.transitive x y z low q) k),
        ))
    | inr not_low ↦ elim (Bool-cases (lt y x)) [
      | inl high ↦ absurd (
          ground (
            arith,
            high,
            e y,
            same_refl y,
            below-mem y s (All-map _ _ s (λ z q. linear.transitive y x z high q) h),
          ))
      | inr not_high ↦
          let at : x ≡ y = linear.connected x y not_low not_high in
          let rest : s ≡ t = Increasing-ext s t hs ks (λ z. elim (Bool-cases (same lt z x)) [
            | inl hit ↦
                let zx : z ≡ x = same_eq z x hit in
                subst (λ w. mem lt w s ≡ mem lt w t) (sym zx)
                  (below-mem x s h
                    ∙ sym (subst (λ w. mem lt w t ≡ false) (sym at) (below-mem y t k)))
            | inr miss ↦
                let e' : same lt z y ≡ false = subst (λ w. same lt z w ≡ false) at miss in
                ground (arith, e z, miss, e')
          ]) in
          ap (λ w. w ∷ s) at ∙ ap (λ w. y ∷ w) rest
    ]
  ]

  pub mem_get : (P : A → Type 0) (x : A) (s : List A) → All P s → mem lt x s ≡ true → P x
  mem_get P x [] h m = cc
  mem_get P x (y ∷ s) (h, hs) m = elim (Bool-cases (same lt x y)) [
    | inl hit ↦ subst P (sym (same_eq x y hit)) h
    | inr miss ↦ mem_get P x s hs (ground (arith, m, miss))
  ]

  pub All-mem : (P : A → Type 0) (s : List A) → ((x : A) → mem lt x s ≡ true → P x) → All P s
  All-mem P [] f = tt
  All-mem P (y ∷ s) f =
      (f y (ground (arith, same_refl y)), All-mem P s (λ x m. f x (ground (arith, m))))
