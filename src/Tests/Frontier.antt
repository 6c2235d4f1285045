-- ===== src/Tests/Frontier.antt =====
-- The witnesses of the Pareto frontier.
use empiricist.Base.{◌≡◌, refl, true, false, not, List, [], ◌∷◌, any, arith}
use empiricist.Base.Pairwise.{Pairwise}
use empiricist.Ledger.Tables.{Db, Vector, finite, FrontierRow, ok}
use empiricist.Ledger.Objective.{all_le}
use empiricist.Ledger.Frontier.{consider, recompute_frontier}
use empiricist.Ledger.Frontier.Closed.{IsPoint, row_le}
use empiricist.Ledger.Frontier.Antichain.{IsFrontier}
use empiricist.Ledger.Frontier.Consider.{consider-IsFrontier}
use empiricist.Ledger.Frontier.Cover.{consider_answers, consider_forgets}
use empiricist.Ledger.Frontier.Recompute.{Incomparable, recompute_frontier_ok}
use empiricist.Tests.Samples.{db, point}

abbrev east : Vector
east = finite 1 ∷ finite 5 ∷ []

abbrev north : Vector
north = finite 4 ∷ finite 2 ∷ []

abbrev middle : Vector
middle = finite 3 ∷ finite 3 ∷ []

abbrev rows : List FrontierRow
rows = point 1 east ∷ point 2 north ∷ []

abbrev frontier_db : Db
frontier_db = record db { pareto_frontier = rows }

is_frontier : IsFrontier 2 rows
unfolding all_le
is_frontier = record {
  points = (
    record { dimension = refl; is_finite = refl },
    (record { dimension = refl; is_finite = refl }, tt),
  );
  apart = (((ground arith, refl, refl), tt), (tt, tt));
}

middle-IsPoint : IsPoint 2 middle
middle-IsPoint = record { dimension = refl; is_finite = refl }

consider-IsFrontier_example : IsFrontier 2 ((consider 3 middle frontier_db).1).pareto_frontier
consider-IsFrontier_example = consider-IsFrontier 3 middle frontier_db is_frontier refl

consider_answers_example :
    ((consider 3 middle frontier_db).0 ≡ ok (not (any (row_le middle) rows)))
    × (any (row_le middle) ((consider 3 middle frontier_db).1).pareto_frontier ≡ true)
consider_answers_example = consider_answers 3 middle frontier_db is_frontier middle-IsPoint refl

-- The row of key 2 is replaced by a vector that is not as good as it.
traded : all_le middle north ≡ false
unfolding all_le
traded = refl

uncovered : any (row_le middle) rows ≡ false
unfolding all_le
uncovered = refl

consider_forgets_example :
    ((consider 2 middle frontier_db).0 ≡ ok true)
    × (any (row_le north) ((consider 2 middle frontier_db).1).pareto_frontier ≡ false)
consider_forgets_example =
    consider_forgets 2 middle (point 2 north) frontier_db is_frontier middle-IsPoint refl refl
      traded uncovered

recompute_frontier_ok_example :
    (out : List FrontierRow) × (recompute_frontier rows ≡ ok out)
    × Pairwise Incomparable out
    × (any (row_le middle) out ≡ any (row_le middle) rows)
recompute_frontier_ok_example = recompute_frontier_ok rows middle is_frontier.points refl
