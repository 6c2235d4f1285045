-- ===== src/Ledger/Objective/Order.antt =====
-- The comparisons of finite vectors of one length: `dominates(v, w) or v == w` is the order of the
-- components, which is reflexive and transitive.
use empiricist.Base.{◌≡◌, refl, true, false, [], ◌∷◌, length, all, arith}
use empiricist.Ledger.Tables.{Number, Vector}
use empiricist.Ledger.Objective.{num_le, is_finite, vec_eq, all_le, any_lt}

num_le_trans : (a b c : Number) → num_le a b ≡ true → num_le b c ≡ true → num_le a c ≡ true
num_le_trans a b c p q = ground arith

pub all_le_refl : (v : Vector) → all is_finite v ≡ true → all_le v v ≡ true
unfolding all_le
all_le_refl [] h = refl
all_le_refl (x ∷ v) h = ground (arith, all_le_refl v)

pub all_le_trans :
    (u v w : Vector)
    → length u ≡ length v
    → length v ≡ length w
    → all_le u v ≡ true
    → all_le v w ≡ true
    → all_le u w ≡ true
unfolding all_le
all_le_trans [] v w p q h k = refl
all_le_trans (x ∷ u) [] w p q h k = absurd (omega arith)
all_le_trans (x ∷ u) (y ∷ v) [] p q h k = absurd (omega arith)
all_le_trans (x ∷ u) (y ∷ v) (z ∷ w) p q h k =
    ground (arith, num_le_trans x y z, all_le_trans u v w)

-- Equal vectors are in order, and vectors in order that are not strictly so are equal.
pub all_le_of_eq : (v w : Vector) → vec_eq v w ≡ true → all_le v w ≡ true
unfolding all_le vec_eq
all_le_of_eq [] w h = refl
all_le_of_eq (x ∷ v) [] h = refl
all_le_of_eq (x ∷ v) (y ∷ w) h = ground (arith, all_le_of_eq v w)

pub vec_eq_symm : (v w : Vector) → vec_eq v w ≡ true → vec_eq w v ≡ true
unfolding vec_eq
vec_eq_symm [] [] h = refl
vec_eq_symm [] (y ∷ w) h = cc
vec_eq_symm (x ∷ v) [] h = cc
vec_eq_symm (x ∷ v) (y ∷ w) h = ground (arith, vec_eq_symm v w)

pub vec_eq_of_le :
    (v w : Vector)
    → length v ≡ length w
    → all_le v w ≡ true
    → any_lt v w ≡ false
    → vec_eq v w ≡ true
unfolding all_le any_lt vec_eq
vec_eq_of_le [] [] e h k = refl
vec_eq_of_le [] (y ∷ w) e h k = absurd (omega arith)
vec_eq_of_le (x ∷ v) [] e h k = absurd (omega arith)
vec_eq_of_le (x ∷ v) (y ∷ w) e h k = ground (arith, vec_eq_of_le v w)
