-- ===== src/Ledger/Frontier/Cover.antt =====
-- `Frontier.consider`: the answer, and which vectors the table covers afterwards.
use empiricist.Base.{
  ℕ, ◌≡◌, refl, ◌∙◌, subst, inl, inr, true, false, not, ◌||◌, some, List, [], ◌∷◌, length, any,
  keep, All, All-map, arith, if◌then◌else◌, Bool-cases, ◌==◌,
}
use empiricist.Base.Pairwise.{Pairwise, All-keep, any-All, any-snoc}
use empiricist.Ledger.Models.{Text}
use empiricist.Ledger.Tables.{Db, Vector, FrontierRow, ok}
use empiricist.Ledger.Objective.{all_le}
use empiricist.Ledger.Objective.Order.{all_le_trans, all_le_refl}
use empiricist.Ledger.Frontier.{other_rows, find_row, consider}
use empiricist.Ledger.Frontier.Closed.{IsPoint, strictly, row_le, improved, All-find}
use empiricist.Ledger.Frontier.Antichain.{Apart, IsFrontier}
use empiricist.Ledger.Frontier.Consider.{consider-eq}

module _ {n : ℕ} (v w : Vector) (p : IsPoint n v) (q : length w ≡ n) where
  -- What the new vector evicts, it covers in its place.
  pub any-survivors :
      (rows : List FrontierRow)
      → All (λ r. IsPoint n r.objective_vec) rows
      → (any (row_le w) (keep (λ r. not (strictly v r.objective_vec)) rows) || all_le v w)
        ≡ (any (row_le w) rows || all_le v w)
  any-survivors [] h = refl
  any-survivors (r ∷ rows) (h, hs) =
      ground
        (arith, any-survivors rows hs, all_le_trans v r.objective_vec w, p.dimension, h.dimension)

  pub any-improved :
      (key : Text) (rows : List FrontierRow)
      → All (λ r. IsPoint n r.objective_vec) rows
      → any (row_le w) (improved key v rows) ≡ (any (row_le w) (other_rows key rows) || all_le v w)
  any-improved key rows h =
      any-snoc (row_le w) (keep (λ r. not (strictly v r.objective_vec)) (other_rows key rows)) _
      ∙ any-survivors (other_rows key rows) (All-keep _ _ rows h)

-- On a frontier of dimension n outside a transaction, `consider` with a finite vector of that
-- dimension returns true exactly when no row was at least as good as the vector in every component;
-- afterwards some row is.
pub consider_answers :
    {n : ℕ} (key : Text) (v : Vector) (d : Db)
    → IsFrontier n d.pareto_frontier
    → IsPoint n v
    → d.in_transaction ≡ false
    → ((consider key v d).0 ≡ ok (not (any (row_le v) d.pareto_frontier)))
      × (any (row_le v) ((consider key v d).1).pareto_frontier ≡ true)
consider_answers key v d h p idle = ground (
  arith,
  consider-eq key v d h p idle,
  any-improved v v p p.dimension key d.pareto_frontier h.points,
  all_le_refl v p.is_finite,
)

pub consider_covers :
    {n : ℕ} (key : Text) (v w : Vector) (d : Db)
    → IsFrontier n d.pareto_frontier
    → IsPoint n v
    → length w ≡ n
    → d.in_transaction ≡ false
    → any (row_le w) ((consider key v d).1).pareto_frontier ≡ (
        if any (row_le v) d.pareto_frontier
        then any (row_le w) d.pareto_frontier
        else any (row_le w) (other_rows key d.pareto_frontier) || all_le v w)
consider_covers key v w d h p size idle =
    ground
      (arith, consider-eq key v d h p idle, any-improved v w p size key d.pareto_frontier h.points)

-- The rows of other keys do not cover the vector of a row of a frontier.
incumbent_alone :
    (key : Text) (rows : List FrontierRow) (r : FrontierRow)
    → Pairwise Apart rows
    → find_row key rows ≡ some r
    → any (row_le r.objective_vec) (other_rows key rows) ≡ false
incumbent_alone key [] r h e = cc
incumbent_alone key (x ∷ rows) r (h, hs) e = elim (Bool-cases (x.lc_orbit_key == key)) [
  | inl same ↦
      let found : x ≡ r = ground (arith, e, same) in
      subst (λ s. any (row_le s.objective_vec) (other_rows key (x ∷ rows)) ≡ false) found
        (rw same (
          any-All (row_le x.objective_vec) (other_rows key rows) (
            All-keep (λ s. row_le x.objective_vec s ≡ false) _ rows
              (All-map (Apart x) (λ s. row_le x.objective_vec s ≡ false) rows (λ s a. a.2) h))))
  | inr differs ↦
      let rest : find_row key rows ≡ some r = rw differs at e in
      ground (
        arith,
        differs,
        incumbent_alone key rows r hs rest,
        (All-find (Apart x) (λ s. s.lc_orbit_key == key) rows r h rest).1,
      )
]

-- On a frontier of dimension n outside a transaction: where the key has a row whose vector the new one
-- is not at least as good as, and no row is as good as the new one, `consider` returns true and no
-- row covers the old vector any more.
pub consider_forgets :
    {n : ℕ} (key : Text) (v : Vector) (r : FrontierRow) (d : Db)
    → IsFrontier n d.pareto_frontier
    → IsPoint n v
    → d.in_transaction ≡ false
    → find_row key d.pareto_frontier ≡ some r
    → all_le v r.objective_vec ≡ false
    → any (row_le v) d.pareto_frontier ≡ false
    → ((consider key v d).0 ≡ ok true)
      × (any (row_le r.objective_vec) ((consider key v d).1).pareto_frontier ≡ false)
consider_forgets {n} key v r d h p idle found worse free =
    let q : IsPoint n r.objective_vec =
      All-find (λ r. IsPoint n r.objective_vec) _ d.pareto_frontier r h.points found in
    ground (
      arith,
      consider_answers key v d h p idle,
      consider_covers key v r.objective_vec d h p q.dimension idle,
      incumbent_alone key d.pareto_frontier r h.apart found,
    )
