-- ===== src/Ledger/Frontier/Closed.antt =====
-- On rows of finite vectors of one dimension the frontier's tests do not raise, and they are those
-- of the order of the components.
use empiricist.Base.{
  ℕ, ◌+◌, ◌≡◌, refl, subst, inl, inr, Bool, true, false, not, ◌&&◌, ◌||◌, Option, none, some, List,
  [], ◌∷◌, ◌++◌, length, any, keep, find, All, arith, if◌then◌else◌, Bool-cases, Option-cases, ◌==◌,
}
use empiricist.Base.Pairwise.{All-keep}
use empiricist.Ledger.Models.{Text}
use empiricist.Ledger.Tables.{Vector, FrontierRow, ok}
use empiricist.Ledger.Objective.{all_le, any_lt, dominates}
use empiricist.Ledger.Objective.Order.{all_le_of_eq, vec_eq_of_le}
use empiricist.Ledger.Frontier.{
  all_finite, covers, any_covers, survivors, max_version, other_rows, find_row, incumbent_covers,
  improve,
}

-- A finite vector of dimension `n`.
pub record IsPoint (n : ℕ) (v : Vector) : Type 0 where
  pub dimension : length v ≡ n
  pub is_finite : all_finite v ≡ true

abbrev pub strictly : Vector → Vector → Bool
strictly v w = all_le v w && any_lt v w

abbrev pub row_le : Vector → FrontierRow → Bool
row_le v r = all_le r.objective_vec v

module _ {n : ℕ} where
  dominates-eq : (v w : Vector) → IsPoint n v → IsPoint n w → dominates v w ≡ ok (strictly v w)
  unfolding dominates
  dominates-eq v w p q = ground arith

  pub covers-eq : (v w : Vector) → IsPoint n v → IsPoint n w → covers v w ≡ ok (all_le v w)
  unfolding covers
  covers-eq v w p q =
      ground
        (arith, dominates-eq v w p q, all_le_of_eq v w, vec_eq_of_le v w, p.dimension, q.dimension)

  pub any_covers-eq :
      (rows : List FrontierRow) (v : Vector)
      → All (λ r. IsPoint n r.objective_vec) rows
      → IsPoint n v
      → any_covers rows v ≡ ok (any (row_le v) rows)
  unfolding any_covers
  any_covers-eq [] v h p = refl
  any_covers-eq (r ∷ rows) v (h, hs) p =
      ground (arith, covers-eq r.objective_vec v h p, any_covers-eq rows v hs p)

  pub survivors-eq :
      (v : Vector) (rows : List FrontierRow)
      → All (λ r. IsPoint n r.objective_vec) rows
      → IsPoint n v
      → survivors v rows ≡ ok (keep (λ r. not (strictly v r.objective_vec)) rows)
  unfolding survivors
  survivors-eq v [] h p = refl
  survivors-eq v (r ∷ rows) (h, hs) p =
      ground (arith, dominates-eq v r.objective_vec p h, survivors-eq v rows hs p)

-- The test on the incumbent of the key.
abbrev pub incumbent_le : Vector → Option FrontierRow → Bool
incumbent_le v none = false
incumbent_le v (some r) = row_le v r

-- The table after an improvement.
abbrev pub improved : Text → Vector → List FrontierRow → List FrontierRow
improved key v rows =
    keep (λ r. not (strictly v r.objective_vec)) (other_rows key rows)
    ++ record { lc_orbit_key = key; objective_vec = v; frontier_version = max_version rows + 1 }
      ∷ []

pub All-find :
    (P : FrontierRow → Type 0) (p : FrontierRow → Bool) (rows : List FrontierRow) (r : FrontierRow)
    → All P rows
    → find p rows ≡ some r
    → P r
All-find P p [] r h e = cc
All-find P p (x ∷ rows) r (h, hs) e = elim (Bool-cases (p x)) [
  | inl y ↦ let same : x ≡ r = ground (arith, e, y) in subst P same h
  | inr y ↦ All-find P p rows r hs (rw y at e)
]

-- `improve` in closed form.
pub improve-eq :
    {n : ℕ} (key : Text) (v : Vector) (rows : List FrontierRow)
    → All (λ r. IsPoint n r.objective_vec) rows
    → IsPoint n v
    → improve key v rows
      ≡ ok (
          if any (row_le v) (other_rows key rows) || incumbent_le v (find_row key rows)
          then none
          else some (improved key v rows))
unfolding improve incumbent_covers
improve-eq {n} key v rows h p =
    let others =
      All-keep (λ r. IsPoint n r.objective_vec) (λ r. not (r.lc_orbit_key == key)) rows h in
    let a = any_covers-eq (other_rows key rows) v others p in
    let s = survivors-eq v (other_rows key rows) others p in
    elim (Option-cases (find_row key rows)) [
      | inl missing ↦ ground (arith, a, s)
      | inr (r, found) ↦ ground (
        arith,
        a,
        s,
        covers-eq r.objective_vec v (All-find (λ r. IsPoint n r.objective_vec) _ rows r h found) p,
      )
    ]
