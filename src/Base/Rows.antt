-- ===== src/Base/Rows.antt =====
-- Rows under a numeric key: what a query sees after an INSERT, an UPDATE and a DELETE.
use Prim.Native.Nat.{ℕ, suc}
use mathlib.Core.Path.{◌≡◌, refl, ap}
use mathlib.Core.Bool.{Bool, true}
use mathlib.Core.Option.{Option, none, some}
use mathlib.Core.List.{List, [], ◌∷◌, ◌++◌}
use native.Mathlib.Omega.{arith}
use empiricist.Base.Tests.{◌==◌, if◌then◌else◌}
use empiricist.Base.Lists.{any, find, update, length}

abbrev pub or_else {ℓ} : {A : Type ℓ} → Option A → Option A → Option A
or_else none b = b
or_else (some a) b = some a

module _ {ℓ} {A : Type ℓ} where
  pub find-append :
      (p : A → Bool) (xs ys : List A) → find p (xs ++ ys) ≡ or_else (find p xs) (find p ys)
  find-append p [] ys = refl
  find-append p (x ∷ xs) ys = ground (arith, find-append p xs ys)

  -- A found row passes the test.
  pub find_passes : (p : A → Bool) (xs : List A) {x : A} → find p xs ≡ some x → p x ≡ true
  find_passes p [] h = cc
  find_passes p (y ∷ ys) {x} h = ground (arith, find_passes p ys {x = x})

  pub length-update : (p : A → Bool) (f : A → A) (xs : List A) → length (update p f xs) ≡ length xs
  length-update p f [] = refl
  length-update p f (x ∷ xs) = ap suc (length-update p f xs)

  abbrev pub rewrite_at : Bool → (A → A) → Option A → Option A
  rewrite_at b f none = none
  rewrite_at b f (some x) = some (if b then f x else x)

  module _ (key : A → ℕ) where
    -- An UPDATE at one key that keeps the keys.
    pub find-update :
        (f : A → A) (j k : ℕ) (xs : List A)
        → ((x : A) → key (f x) ≡ key x)
        → find (λ x. key x == k) (update (λ x. key x == j) f xs)
          ≡ rewrite_at (k == j) f (find (λ x. key x == k) xs)
    find-update f j k [] keeps = refl
    find-update f j k (x ∷ xs) keeps = ground (arith, keeps x, find-update f j k xs keeps)

  pub any-append : (p : A → Bool) (xs ys : List A) → any p xs ≡ true → any p (xs ++ ys) ≡ true
  any-append p [] ys h = cc
  any-append p (x ∷ xs) ys h = ground (arith, any-append p xs ys)

  pub any-append_last :
      (p : A → Bool) (xs : List A) (y : A) → p y ≡ true → any p (xs ++ y ∷ []) ≡ true
  any-append_last p [] y h = ground arith
  any-append_last p (x ∷ xs) y h = ground (arith, any-append_last p xs y)

  pub any_weaken :
      (p q : A → Bool) (xs : List A)
      → ((x : A) → p x ≡ true → q x ≡ true)
      → any p xs ≡ true
      → any q xs ≡ true
  any_weaken p q [] f h = cc
  any_weaken p q (x ∷ xs) f h = ground (arith, f x, any_weaken p q xs f)
