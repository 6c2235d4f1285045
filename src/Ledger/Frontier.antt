-- ===== src/Ledger/Frontier.antt =====
-- src/empiricist/ledger/frontier.py: the Pareto frontier in the ledger and its recomputation.
pub mod Closed
pub mod Consider
pub mod Antichain
pub mod Cover
pub mod Recompute
use empiricist.Base.{
  ℕ, ◌+◌, max, Bool, true, false, not, Option, none, some, List, [], ◌∷◌, ◌++◌, all, find, keep,
  sort_by, ◌==◌, if◌then◌else◌,
}
use empiricist.Ledger.Models.{Text}
use empiricist.Ledger.Tables.{
  Vector, FrontierRow, Result, ok, err, value_error, Action, pure, select, ◌>>=◌, ◌>>◌, raise_if,
  write, transaction,
}
use empiricist.Ledger.Objective.{is_finite, vec_eq, dominates}

-- `_require_finite` raises unless this holds.
abbrev pub all_finite : Vector → Bool
all_finite vec = all is_finite vec

-- `dominates(v, vec) or v == vec`
pub covers : Vector → Vector → Result Bool
covers v vec = elim (dominates v vec) [
  | ok true ↦ ok true
  | ok false ↦ ok (vec_eq v vec)
  | err e ↦ err e
]

-- `any(dominates(v, vec) or v == vec for v in others.values())`
pub any_covers : List FrontierRow → Vector → Result Bool
unfolding covers
any_covers [] vec = ok false
any_covers (r ∷ rows) vec = elim (covers r.objective_vec vec) [
  | ok true ↦ ok true
  | ok false ↦ any_covers rows vec
  | err e ↦ err e
]

-- The rows that the new vector does not dominate.
pub survivors : Vector → List FrontierRow → Result (List FrontierRow)
survivors vec [] = ok []
survivors vec (r ∷ rows) = elim (dominates vec r.objective_vec) [
  | ok true ↦ survivors vec rows
  | ok false ↦ elim (survivors vec rows) [ ok kept ↦ ok (r ∷ kept) | err e ↦ err e ]
  | err e ↦ err e
]

-- MAX(frontier_version), 0 on an empty table.
pub max_version : List FrontierRow → ℕ
max_version [] = 0
max_version (r ∷ rows) = max r.frontier_version (max_version rows)

abbrev pub version : Action ℕ
version = select (λ d. max_version d.pareto_frontier)

abbrev pub other_rows : Text → List FrontierRow → List FrontierRow
other_rows key rows = keep (λ r. not (r.lc_orbit_key == key)) rows

abbrev pub find_row : Text → List FrontierRow → Option FrontierRow
find_row key rows = find (λ r. r.lc_orbit_key == key) rows

-- The incumbent of the key, if any, is as good as the new vector.
pub incumbent_covers : Option FrontierRow → Vector → Result Bool
unfolding covers
incumbent_covers none vec = ok false
incumbent_covers (some r) vec = covers r.objective_vec vec

-- The new table, or `none` where the vector is no improvement. The row of the key is deleted and
-- the new one stands last, as INSERT OR REPLACE leaves them.
pub improve : Text → Vector → List FrontierRow → Result (Option (List FrontierRow))
unfolding any_covers incumbent_covers survivors max_version
improve key vec rows = elim (any_covers (other_rows key rows) vec) [
  | ok true ↦ ok none
  | ok false ↦ elim (incumbent_covers (find_row key rows) vec) [
    | ok true ↦ ok none
    | ok false ↦ elim (survivors vec (other_rows key rows)) [
      | ok kept ↦ ok (
          some (
            kept
            ++ record {
              lc_orbit_key = key;
              objective_vec = vec;
              frontier_version = max_version rows + 1;
            }
              ∷ []))
      | err e ↦ err e
    ]
    | err e ↦ err e
  ]
  | err e ↦ err e
]

abbrev of_result : {A : Type 0} → Result A → Action A
of_result r d = (r, d)

abbrev store_frontier : Option (List FrontierRow) → Action Bool
store_frontier none = pure false
store_frontier (some rows) = write (λ d. record d { pareto_frontier = rows }) >> pure true

-- `Frontier.consider`
unfoldable pub consider : Text → Vector → Action Bool
unfolding improve
consider key vec = do
  raise_if (not (all_finite vec)) value_error
  transaction
      do rows ← select (λ d. d.pareto_frontier); store_frontier (← of_result (improve key vec rows))

-- `recompute_frontier`, on the keyed vectors in the order of their keys.
pub recompute_from : List FrontierRow → List FrontierRow → Result (List FrontierRow)
unfolding any_covers survivors
recompute_from result [] = ok result
recompute_from result (r ∷ rows) =
    if not (all_finite r.objective_vec)
    then err value_error
    else elim (any_covers result r.objective_vec) [
      | ok true ↦ recompute_from result rows
      | ok false ↦ elim (survivors r.objective_vec result) [
        | ok kept ↦ recompute_from (kept ++ r ∷ []) rows
        | err e ↦ err e
      ]
      | err e ↦ err e
    ]

pub recompute_frontier : List FrontierRow → Result (List FrontierRow)
unfolding recompute_from
recompute_frontier rows = recompute_from [] (sort_by (λ r. r.lc_orbit_key) rows)
