-- ===== src/Base/Options.antt =====
-- The bind of results that may be missing, for do blocks.
use mathlib.Core.Path.{◌≡◌, refl}
use mathlib.Core.Option.{Option, none, some}

infixl 5 ◌>>=◌
abbrev pub ◌>>=◌ : {A B : Type 0} → Option A → (A → Option B) → Option B
none >>= f = none
some a >>= f = f a

-- A bind that succeeds: both of its parts did.
pub >>=-some :
    {A B : Type 0} (m : Option A) (f : A → Option B) {b : B}
    → (m >>= f) ≡ some b
    → (a : A) × (m ≡ some a) × (f a ≡ some b)
>>=-some none f h = cc
>>=-some (some a) f h = (a, refl, h)
