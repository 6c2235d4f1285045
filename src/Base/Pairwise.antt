-- ===== src/Base/Pairwise.antt =====
-- A relation between every two elements of a list, and statements about filtered lists.
use mathlib.Core.Path.{◌≡◌, refl}
use mathlib.Core.Bool.{Bool, true, false, ◌||◌}
use mathlib.Core.List.{List, [], ◌∷◌, ◌++◌}
use native.Mathlib.Omega.{arith}
use empiricist.Base.Tests.{Bool-cases}
use mathlib.Core.Logic.{inl, inr}
use empiricist.Base.Lists.{any, keep, All}

module _ {ℓ κ} {A : Type ℓ} where
  abbrev pub Pairwise : (A → A → Type κ) → List A → Type κ
  Pairwise R [] = Unit
  Pairwise R (x ∷ xs) = All (R x) xs × Pairwise R xs

  pub All-keep : (P : A → Type κ) (p : A → Bool) (xs : List A) → All P xs → All P (keep p xs)
  All-keep P p [] h = tt
  All-keep P p (x ∷ xs) (h, hs) = elim (Bool-cases (p x)) [
    | inl passes ↦ rw passes (h, All-keep P p xs hs)
    | inr fails ↦ rw fails (All-keep P p xs hs)
  ]

  pub Pairwise-keep :
      (R : A → A → Type κ) (p : A → Bool) (xs : List A) → Pairwise R xs → Pairwise R (keep p xs)
  Pairwise-keep R p [] h = tt
  Pairwise-keep R p (x ∷ xs) (h, hs) = elim (Bool-cases (p x)) [
    | inl passes ↦ rw passes (All-keep (R x) p xs h, Pairwise-keep R p xs hs)
    | inr fails ↦ rw fails (Pairwise-keep R p xs hs)
  ]

  pub All-snoc : (P : A → Type κ) (xs : List A) (y : A) → All P xs → P y → All P (xs ++ y ∷ [])
  All-snoc P [] y h p = (p, tt)
  All-snoc P (x ∷ xs) y (h, hs) p = (h, All-snoc P xs y hs p)

  pub Pairwise-snoc :
      (R : A → A → Type κ) (xs : List A) (y : A)
      → Pairwise R xs
      → All (λ x. R x y) xs
      → Pairwise R (xs ++ y ∷ [])
  Pairwise-snoc R [] y h p = (tt, tt)
  Pairwise-snoc R (x ∷ xs) y (h, hs) (p, ps) = (All-snoc (R x) xs y h p, Pairwise-snoc R xs y hs ps)

  -- What survives a filter has passed it.
  pub All-keep_passes :
      (P Q : A → Type κ) (p : A → Bool) (xs : List A)
      → ((x : A) → p x ≡ true → P x → Q x)
      → All P xs
      → All Q (keep p xs)
  All-keep_passes P Q p [] f h = tt
  All-keep_passes P Q p (x ∷ xs) f (h, hs) = elim (Bool-cases (p x)) [
    | inl passes ↦ rw passes (f x passes h, All-keep_passes P Q p xs f hs)
    | inr fails ↦ rw fails (All-keep_passes P Q p xs f hs)
  ]

module _ {ℓ} {A : Type ℓ} where
  pub All-any : (p : A → Bool) (xs : List A) → any p xs ≡ false → All (λ x. p x ≡ false) xs
  All-any p [] h = tt
  All-any p (x ∷ xs) h = (ground arith, All-any p xs (ground arith))

  pub All-zip {κ μ} :
      (P : A → Type κ) (Q : A → Type μ) (xs : List A)
      → All P xs
      → All Q xs
      → All (λ x. P x × Q x) xs
  All-zip P Q [] h k = tt
  All-zip P Q (x ∷ xs) (h, hs) (k, ks) = ((h, k), All-zip P Q xs hs ks)

  pub any-All : (p : A → Bool) (xs : List A) → All (λ x. p x ≡ false) xs → any p xs ≡ false
  any-All p [] h = refl
  any-All p (x ∷ xs) (h, hs) = ground (arith, any-All p xs hs)

  pub any-snoc : (p : A → Bool) (xs : List A) (y : A) → any p (xs ++ y ∷ []) ≡ (any p xs || p y)
  any-snoc p [] y = ground arith
  any-snoc p (x ∷ xs) y = ground (arith, any-snoc p xs y)
