-- ===== src/Ledger/Frontier/Antichain.antt =====
-- The invariant of the frontier, and what `consider` does to it.
use empiricist.Base.{ℕ, ◌≡◌, ◌≢◌, true, false, not, List, any, keep, All, All-map, arith, ◌==◌}
use empiricist.Base.Pairwise.{
  Pairwise, All-keep, All-keep_passes, Pairwise-keep, All-snoc, Pairwise-snoc, All-any, All-zip,
}
use empiricist.Ledger.Models.{Text}
use empiricist.Ledger.Tables.{Vector, FrontierRow}
use empiricist.Ledger.Objective.{all_le}
use empiricist.Ledger.Objective.Order.{all_le_of_eq, vec_eq_of_le, vec_eq_symm}
use empiricist.Ledger.Frontier.{other_rows}
use empiricist.Ledger.Frontier.Closed.{IsPoint, strictly, row_le, improved}

-- Two rows with different keys, neither as good as the other.
abbrev pub Apart : FrontierRow → FrontierRow → Type 0
Apart r s =
    (r.lc_orbit_key ≢ s.lc_orbit_key)
    × (all_le r.objective_vec s.objective_vec ≡ false)
    × (all_le s.objective_vec r.objective_vec ≡ false)

-- Finite vectors of one dimension, pairwise apart.
pub record IsFrontier (n : ℕ) (rows : List FrontierRow) : Type 0 where
  pub points : All (λ r. IsPoint n r.objective_vec) rows
  pub apart : Pairwise Apart rows

module _ {n : ℕ} (key : Text) (v : Vector) (p : IsPoint n v) where
  -- A row of another key that does not cover the new vector.
  abbrev Open : FrontierRow → Type 0
  Open r = (r.lc_orbit_key ≢ key) × (all_le r.objective_vec v ≡ false) × IsPoint n r.objective_vec

  Open-others :
      (rows : List FrontierRow)
      → All (λ r. IsPoint n r.objective_vec) rows
      → any (row_le v) (other_rows key rows) ≡ false
      → All Open (other_rows key rows)
  Open-others rows points free =
      All-map _ Open (other_rows key rows) (λ r ((a, b), c). (a, c, b))
        (All-zip _ _ (other_rows key rows)
          (All-keep_passes (λ r. IsPoint n r.objective_vec)
            (λ r. (r.lc_orbit_key ≢ key) × IsPoint n r.objective_vec)
            (λ r. not (r.lc_orbit_key == key)) rows (λ r differs q. (ground arith, q)) points)
          (All-any (row_le v) (other_rows key rows) free))

  -- A row that the new vector does not dominate, and that does not cover it, is apart from it.
  kept_apart :
      (r : FrontierRow)
      → not (strictly v r.objective_vec) ≡ true
      → Open r
      → (r.lc_orbit_key ≢ key)
        × (all_le r.objective_vec v ≡ false)
        × (all_le v r.objective_vec ≡ false)
  kept_apart r survives (differs, uncovered, q) = (
    differs,
    uncovered,
    ground (
      arith,
      vec_eq_of_le v r.objective_vec,
      vec_eq_symm v r.objective_vec,
      all_le_of_eq r.objective_vec v,
      p.dimension,
      q.dimension,
    ),
  )

  pub improved-IsFrontier :
      (rows : List FrontierRow)
      → IsFrontier n rows
      → any (row_le v) (other_rows key rows) ≡ false
      → IsFrontier n (improved key v rows)
  improved-IsFrontier rows h free =
      let survives = λ (r : FrontierRow). not (strictly v r.objective_vec) in
      let others = Open-others rows h.points free in
      record {
        points =
            All-snoc _ (keep survives (other_rows key rows)) _
              (All-keep _ survives (other_rows key rows) (All-keep _ _ rows h.points)) p;
        apart =
            Pairwise-snoc Apart (keep survives (other_rows key rows)) _
              (Pairwise-keep Apart survives (other_rows key rows)
                (Pairwise-keep Apart _ rows h.apart))
              (All-keep_passes Open _ survives (other_rows key rows) kept_apart others);
      }
