-- ===== src/Ledger/Objective.antt =====
-- Objective vectors: the comparisons of Python floats and lists that the ledger uses, and
-- `dominates` of src/empiricist/ledger/models.py.
pub mod Order
use empiricist.Base.{Bool, true, false, ◌&&◌, ◌||◌, [], ◌∷◌, length, ltb, ◌==◌, if◌then◌else◌}
use empiricist.Ledger.Tables.{
  Number, finite, infinite, minus_infinite, Vector, Result, ok, err, value_error,
}

-- `a == b`, `a < b` and `a <= b` on floats.
abbrev pub num_eq : Number → Number → Bool
num_eq (finite a) (finite b) = a == b
num_eq infinite infinite = true
num_eq minus_infinite minus_infinite = true
num_eq _ _ = false

abbrev pub num_lt : Number → Number → Bool
num_lt (finite a) (finite b) = ltb a b
num_lt (finite a) infinite = true
num_lt minus_infinite (finite b) = true
num_lt minus_infinite infinite = true
num_lt _ _ = false

abbrev pub num_le : Number → Number → Bool
num_le a b = num_lt a b || num_eq a b

-- `math.isfinite`
abbrev pub is_finite : Number → Bool
is_finite (finite _) = true
is_finite _ = false

-- `a == b` on lists.
pub vec_eq : Vector → Vector → Bool
vec_eq [] [] = true
vec_eq (x ∷ xs) (y ∷ ys) = num_eq x y && vec_eq xs ys
vec_eq _ _ = false

-- `a < b` on lists: at the first place where they differ, or a proper prefix.
unfoldable pub vec_lt : Vector → Vector → Bool
vec_lt [] [] = false
vec_lt [] (y ∷ ys) = true
vec_lt (x ∷ xs) [] = false
vec_lt (x ∷ xs) (y ∷ ys) = if num_eq x y then vec_lt xs ys else num_lt x y

-- `all(x <= y for x, y in zip(a, b))` and `any(x < y for x, y in zip(a, b))`.
unfoldable pub all_le : Vector → Vector → Bool
all_le (x ∷ xs) (y ∷ ys) = num_le x y && all_le xs ys
all_le _ _ = true

pub any_lt : Vector → Vector → Bool
any_lt (x ∷ xs) (y ∷ ys) = num_lt x y || any_lt xs ys
any_lt _ _ = false

unfoldable pub dominates : Vector → Vector → Result Bool
dominates a b = if length a == length b then ok (all_le a b && any_lt a b) else err value_error
