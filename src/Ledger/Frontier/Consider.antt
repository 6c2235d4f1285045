-- ===== src/Ledger/Frontier/Consider.antt =====
-- `Frontier.consider` on a frontier: the invariant, the answer, and what stays covered.
use empiricist.Base.{
  ℕ, ◌≡◌, refl, sym, subst, ap, inl, inr, ◌≢◌, true, false, not, ◌||◌, none, List, [], ◌∷◌, length,
  any, All, All-map, arith, if◌then◌else◌, Bool-cases, ◌==◌,
}
use empiricist.Base.Pairwise.{Pairwise}
use empiricist.Ledger.Models.{Text}
use empiricist.Ledger.Tables.{Db, Vector, FrontierRow, ok}
use empiricist.Ledger.Frontier.{all_finite, other_rows, find_row, consider}
use empiricist.Ledger.Frontier.Closed.{IsPoint, row_le, incumbent_le, improved, improve-eq}
use empiricist.Ledger.Frontier.Antichain.{Apart, IsFrontier, improved-IsFrontier}

-- Some row of the table is at least as good as the vector in every component.
abbrev pub Covered : Vector → List FrontierRow → Type 0
Covered v rows = any (row_le v) rows ≡ true

absent_key :
    (key : Text) (rows : List FrontierRow)
    → All (λ s. s.lc_orbit_key ≢ key) rows
    → (other_rows key rows ≡ rows) × (find_row key rows ≡ none)
absent_key key [] h = (refl, refl)
absent_key key (r ∷ rows) (h, hs) = ground (arith, absent_key key rows hs)

-- The two tests together ask whether any row covers the vector, as the keys differ.
tests-eq :
    (key : Text) (v : Vector) (rows : List FrontierRow)
    → Pairwise Apart rows
    → (any (row_le v) (other_rows key rows) || incumbent_le v (find_row key rows))
      ≡ any (row_le v) rows
tests-eq key v [] h = refl
tests-eq key v (r ∷ rows) (h, hs) = elim (Bool-cases (r.lc_orbit_key == key)) [
  | inl same ↦
      let others =
        All-map (Apart r) (λ s. s.lc_orbit_key ≢ key) rows (λ s a e. a.0 (ground arith)) h in
      ground (arith, same, absent_key key rows others)
  | inr differs ↦ ground (arith, differs, tests-eq key v rows hs)
]

pub consider-eq :
    {n : ℕ} (key : Text) (v : Vector) (d : Db)
    → IsFrontier n d.pareto_frontier
    → IsPoint n v
    → d.in_transaction ≡ false
    → consider key v d ≡ (
      ok (not (any (row_le v) d.pareto_frontier)),
      if any (row_le v) d.pareto_frontier
          then d
          else record d { pareto_frontier = improved key v d.pareto_frontier },
    )
unfolding consider
consider-eq key v d h p idle = ground (
  arith,
  improve-eq key v d.pareto_frontier h.points p,
  tests-eq key v d.pareto_frontier h.apart,
  p.is_finite,
)

consider_refused :
    (key : Text) (v : Vector) (d : Db) → all_finite v ≡ false → (consider key v d).1 ≡ d
unfolding consider
consider_refused key v d h = ground arith

consider_busy :
    (key : Text) (v : Vector) (d : Db)
    → all_finite v ≡ true
    → d.in_transaction ≡ true
    → (consider key v d).1 ≡ d
unfolding consider
consider_busy key v d h busy = ground arith

-- On a frontier of finite vectors of one dimension, `consider` with any vector of that dimension
-- leaves a frontier: distinct keys, no row as good as another. This holds on the error paths too.
pub consider-IsFrontier :
    {n : ℕ} (key : Text) (v : Vector) (d : Db)
    → IsFrontier n d.pareto_frontier
    → length v ≡ n
    → IsFrontier n ((consider key v d).1).pareto_frontier
consider-IsFrontier {n} key v d h size = elim (Bool-cases (all_finite v)) [
  | inr infinite_place ↦
      subst (λ e. IsFrontier n e.pareto_frontier) (sym (consider_refused key v d infinite_place)) h
  | inl is_point ↦ elim (Bool-cases d.in_transaction) [
    | inl busy ↦
        subst (λ e. IsFrontier n e.pareto_frontier) (sym (consider_busy key v d is_point busy)) h
    | inr idle ↦
        let p : IsPoint n v = record { dimension = size; is_finite = is_point } in
        let e = ap (λ r. r.1) (consider-eq key v d h p idle) in
        subst (λ e. IsFrontier n e.pareto_frontier) (sym e)
          (elim (Bool-cases (any (row_le v) d.pareto_frontier)) [
            | inl covered ↦ rw covered h
            | inr free ↦ rw free (
                improved-IsFrontier key v p d.pareto_frontier h
                  (ground (arith, free, tests-eq key v d.pareto_frontier h.apart)))
          ])
  ]
]
