-- ===== src/Ledger/Frontier/Recompute.antt =====
-- `recompute_frontier`: it returns, and its table is an antichain that covers what the rows cover.
use empiricist.Base.{
  ℕ, ◌≡◌, refl, ◌∙◌, inl, inr, Bool, true, false, not, ◌||◌, List, [], ◌∷◌, ◌++◌, length, any, keep,
  All, insert_by, sort_by, leb, arith, Bool-cases,
}
use empiricist.Base.Pairwise.{
  Pairwise, All-keep, All-keep_passes, Pairwise-keep, All-snoc, Pairwise-snoc, All-any, All-zip,
  any-snoc,
}
use empiricist.Ledger.Tables.{Vector, FrontierRow, ok}
use empiricist.Ledger.Objective.{all_le}
use empiricist.Ledger.Objective.Order.{all_le_of_eq, vec_eq_of_le, vec_eq_symm, all_le_trans}
use empiricist.Ledger.Frontier.{recompute_from, recompute_frontier}
use empiricist.Ledger.Frontier.Closed.{IsPoint, strictly, row_le, any_covers-eq, survivors-eq}
use empiricist.Ledger.Frontier.Cover.{any-survivors}

-- Neither row is as good as the other.
abbrev pub Incomparable : FrontierRow → FrontierRow → Type 0
Incomparable r s =
    (all_le r.objective_vec s.objective_vec ≡ false)
    × (all_le s.objective_vec r.objective_vec ≡ false)

abbrev pub Points : ℕ → List FrontierRow → Type 0
Points n rows = All (λ r. IsPoint n r.objective_vec) rows

module _ {A : Type 0} (key : A → ℕ) where
  any-insert_by :
      (p : A → Bool) (x : A) (xs : List A) → any p (insert_by key x xs) ≡ (p x || any p xs)
  any-insert_by p x [] = refl
  any-insert_by p x (y ∷ ys) = ground (arith, any-insert_by p x ys)

  any-sort_by : (p : A → Bool) (xs : List A) → any p (sort_by key xs) ≡ any p xs
  any-sort_by p [] = refl
  any-sort_by p (x ∷ xs) = ground (arith, any-insert_by p x (sort_by key xs), any-sort_by p xs)

  module _ (P : A → Type 0) where
    All-insert_by : (x : A) (xs : List A) → P x → All P xs → All P (insert_by key x xs)
    All-insert_by x [] p h = (p, tt)
    All-insert_by x (y ∷ ys) p (h, hs) = elim (Bool-cases (leb (key x) (key y))) [
      | inl before ↦ rw before (p, (h, hs))
      | inr after ↦ rw after (h, All-insert_by x ys p hs)
    ]

    All-sort_by : (xs : List A) → All P xs → All P (sort_by key xs)
    All-sort_by [] h = tt
    All-sort_by (x ∷ xs) (h, hs) = All-insert_by x (sort_by key xs) h (All-sort_by xs hs)

module _ {n : ℕ} where
  -- What the vector covers, the row that covers the vector covers.
  any_le_trans :
      (v w : Vector) (rows : List FrontierRow)
      → Points n rows
      → length v ≡ n
      → length w ≡ n
      → all_le v w ≡ true
      → any (row_le v) rows ≡ true
      → any (row_le w) rows ≡ true
  any_le_trans v w [] h p q e k = cc
  any_le_trans v w (r ∷ rows) (h, hs) p q e k =
      ground (arith, all_le_trans r.objective_vec v w, h.dimension, any_le_trans v w rows hs p q e)

  -- A row that the new one does not dominate, and that does not cover it, is not comparable with it.
  survivor-Incomparable :
      (r s : FrontierRow)
      → IsPoint n s.objective_vec
      → not (strictly s.objective_vec r.objective_vec) ≡ true
      → (row_le s.objective_vec r ≡ false) × IsPoint n r.objective_vec
      → Incomparable r s
  survivor-Incomparable r s p survives (uncovered, q) = (
    uncovered,
    ground (
      arith,
      vec_eq_of_le s.objective_vec r.objective_vec,
      vec_eq_symm s.objective_vec r.objective_vec,
      all_le_of_eq r.objective_vec s.objective_vec,
      p.dimension,
      q.dimension,
    ),
  )

  insert-Incomparable :
      (result : List FrontierRow) (r : FrontierRow)
      → Points n result
      → IsPoint n r.objective_vec
      → Pairwise Incomparable result
      → any (row_le r.objective_vec) result ≡ false
      → Pairwise Incomparable
          (keep (λ s. not (strictly r.objective_vec s.objective_vec)) result ++ r ∷ [])
  insert-Incomparable result r points p apart free =
      let survives = λ (s : FrontierRow). not (strictly r.objective_vec s.objective_vec) in
      Pairwise-snoc Incomparable (keep survives result) r
        (Pairwise-keep Incomparable survives result apart)
        (All-keep_passes _ _ survives result (λ s passes h. survivor-Incomparable s r p passes h)
          (All-zip _ _ result (All-any (row_le r.objective_vec) result free) points))

-- A table that covers the vectors of dimension n that the two lists cover together.
pub record Rebuilt (n : ℕ) (result rows out : List FrontierRow) : Type 0 where
  pub points : Points n out
  pub incomparable : Pairwise Incomparable out
  pub covers_same :
      (w : Vector)
      → length w ≡ n
      → any (row_le w) out ≡ (any (row_le w) result || any (row_le w) rows)

module _ {n : ℕ} where
  recompute_from-Rebuilt :
      (result rows : List FrontierRow)
      → Points n result
      → Pairwise Incomparable result
      → Points n rows
      → (out : List FrontierRow) × (recompute_from result rows ≡ ok out) × Rebuilt n result rows out
  unfolding recompute_from
  recompute_from-Rebuilt result [] points apart h = (
    result,
    refl,
    record { points = points; incomparable = apart; covers_same = λ w e. ground arith },
  )
  recompute_from-Rebuilt result (r ∷ rows) points apart (h, hs) =
      let v = r.objective_vec in
      elim (Bool-cases (any (row_le v) result)) [
        | inl covered ↦
            let (out, e, b) = recompute_from-Rebuilt result rows points apart hs in
            (
              out,
              ground (arith, h.is_finite, any_covers-eq result v points h, covered, e),
              record {
                points = b.points;
                incomparable = b.incomparable;
                covers_same = λ w size.
                    ground (
                      arith,
                      b.covers_same w size,
                      any_le_trans v w result points h.dimension size,
                    );
              },
            )
        | inr free ↦
            let kept = keep (λ s. not (strictly v s.objective_vec)) result in
            let (out, e, b) =
              recompute_from-Rebuilt (kept ++ r ∷ []) rows
                (All-snoc _ kept r (All-keep _ _ result points) h)
                (insert-Incomparable result r points h apart free) hs in
            (
              out,
              ground (
                arith,
                h.is_finite,
                any_covers-eq result v points h,
                survivors-eq v result points h,
                free,
                e,
              ),
              record {
                points = b.points;
                incomparable = b.incomparable;
                covers_same = λ w size. ground (
                  arith,
                  b.covers_same w size,
                  any-snoc (row_le w) kept r,
                  any-survivors v w h size result points,
                );
              },
            )
      ]

-- On rows of finite vectors of one dimension `recompute_frontier` returns a table in which no row is as
-- good as another, and that table covers a vector of this dimension exactly when the rows cover it.
pub recompute_frontier_ok :
    {n : ℕ} (rows : List FrontierRow) (w : Vector)
    → Points n rows
    → length w ≡ n
    → (out : List FrontierRow) × (recompute_frontier rows ≡ ok out)
      × Pairwise Incomparable out
      × (any (row_le w) out ≡ any (row_le w) rows)
unfolding recompute_frontier
recompute_frontier_ok rows w h size =
    let key = λ (r : FrontierRow). r.lc_orbit_key in
    let (out, e, b) =
      recompute_from-Rebuilt [] (sort_by key rows) tt tt (All-sort_by key _ rows h) in
    (out, e, b.incomparable, b.covers_same w size ∙ any-sort_by key (row_le w) rows)
