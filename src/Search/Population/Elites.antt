-- ===== src/Search/Population/Elites.antt =====
-- `Population.consider` over a session: the elite of a key is never beaten by a candidate of the key.
use empiricist.Base.{
  ◌≡◌, refl, ◌∙◌, inl, inr, true, false, Option, none, some, List, [], ◌∷◌, ◌++◌, update, All,
  arith, if◌then◌else◌, Bool-cases, Option-cases, ◌==◌, ==_refl,
}
use empiricist.Base.Rows.{find-update, find-append}
use empiricist.Ledger.Models.{Text}
use empiricist.Ledger.Tables.{Db, Vector, Number, PopulationRow}
use empiricist.Ledger.Objective.{num_eq, num_lt, vec_lt}
use empiricist.Search.Population.{find_elite, Candidate, fresh_row, hit, replaced, store, consider}

num_lt_irrefl : (x : Number) → num_lt x x ≡ false
num_lt_irrefl x = ground arith

num_lt_trans : (x y z : Number) → num_lt x y ≡ true → num_lt y z ≡ true → num_lt x z ≡ true
num_lt_trans x y z h k = ground arith

num_eq_trans : (x y z : Number) → num_eq x y ≡ true → num_eq y z ≡ num_eq x z
num_eq_trans x y z h = ground arith

num_eq-lt : (x y z : Number) → num_eq x y ≡ true → num_lt y z ≡ num_lt x z
num_eq-lt x y z h = ground arith

num_lt-eq : (x y z : Number) → num_lt x y ≡ true → num_eq y z ≡ true → num_lt x z ≡ true
num_lt-eq x y z h k = ground arith

num_lt_ne : (x y : Number) → num_lt x y ≡ true → num_eq x y ≡ false
num_lt_ne x y h = ground arith

pub vec_lt_irrefl : (v : Vector) → vec_lt v v ≡ false
unfolding vec_lt
vec_lt_irrefl [] = refl
vec_lt_irrefl (x ∷ v) = ground (arith, vec_lt_irrefl v, num_lt_irrefl x)

-- Python's order of lists of floats is transitive, also with NaN.
pub vec_lt_trans : (u v w : Vector) → vec_lt u v ≡ true → vec_lt v w ≡ true → vec_lt u w ≡ true
unfolding vec_lt
vec_lt_trans [] [] w h k = cc
vec_lt_trans [] (y ∷ v) [] h k = cc
vec_lt_trans [] (y ∷ v) (z ∷ w) h k = refl
vec_lt_trans (x ∷ u) [] w h k = cc
vec_lt_trans (x ∷ u) (y ∷ v) [] h k = cc
vec_lt_trans (x ∷ u) (y ∷ v) (z ∷ w) h k = elim (Bool-cases (num_eq x y)) [
  | inl same ↦
      ground (arith, same, num_eq_trans x y z same, num_eq-lt x y z same, vec_lt_trans u v w)
  | inr differs ↦ ground (arith, differs, num_lt_trans x y z, num_lt-eq x y z, num_lt_ne x z)
]

-- What `consider` makes of the row that a key finds.
abbrev pub stepped : Candidate → Option PopulationRow → Option PopulationRow
stepped c none = some (fresh_row c)
stepped c (some r) = some (if vec_lt c.vec r.objective_vec then replaced c r else hit r)

-- The table after `consider`, by the row that the key found.
abbrev populated : Candidate → List PopulationRow → Option PopulationRow → List PopulationRow
populated c rows none = rows ++ fresh_row c ∷ []
populated c rows (some r) =
    if vec_lt c.vec r.objective_vec
    then update (λ s. s.lc_orbit_key == c.key) (replaced c) rows
    else update (λ s. s.lc_orbit_key == c.key) hit rows

populated-find :
    (c : Candidate) (rows : List PopulationRow)
    → find_elite c.key (populated c rows (find_elite c.key rows))
      ≡ stepped c (find_elite c.key rows)
populated-find c rows = elim (Option-cases (find_elite c.key rows)) [
  | inl missing ↦ ground (
    arith,
    missing,
    find-append (λ s. s.lc_orbit_key == c.key) rows (fresh_row c ∷ []),
    ==_refl c.key,
  )
  | inr (r, found) ↦ ground (
    arith,
    found,
    find-update (λ s. s.lc_orbit_key) (replaced c) c.key c.key rows (λ s. refl),
    find-update (λ s. s.lc_orbit_key) hit c.key c.key rows (λ s. refl),
    ==_refl c.key,
  )
]

populated-find_other :
    (c : Candidate) (rows : List PopulationRow) (other : Text) (o : Option PopulationRow)
    → ¬ (other ≡ c.key)
    → find_elite other (populated c rows o) ≡ find_elite other rows
populated-find_other c rows other none differs =
    ground (arith, find-append (λ s. s.lc_orbit_key == other) rows (fresh_row c ∷ []))
populated-find_other c rows other (some r) differs = ground (
  arith,
  find-update (λ s. s.lc_orbit_key) (replaced c) c.key other rows (λ s. refl),
  find-update (λ s. s.lc_orbit_key) hit c.key other rows (λ s. refl),
)

module _ (improved now : Text) where
  consider-population :
      (c : Candidate) (d : Db)
      → d.in_transaction ≡ false
      → let after = (consider improved now c d).1 in
        (after.population ≡ populated c d.population (find_elite c.key d.population))
        × (after.in_transaction ≡ false)
  unfolding consider store
  consider-population c d idle = elim (Option-cases (find_elite c.key d.population)) [
    | inl missing ↦ ground (arith, missing)
    | inr (r, found) ↦ ground (arith, found)
  ]

  -- A session of `consider` calls.
  pub session : List Candidate → Db → Db
  session [] d = d
  session (c ∷ cs) d = session cs (consider improved now c d).1

  -- The key has an elite that the vector does not beat.
  abbrev pub Unbeaten : Text → Db → Vector → Type 0
  Unbeaten key d v =
      (r : PopulationRow) × (find_elite key d.population ≡ some r)
      × (vec_lt v r.objective_vec ≡ false)

  consider-Unbeaten :
      (key : Text) (v : Vector) (c : Candidate) (d : Db)
      → d.in_transaction ≡ false
      → Unbeaten key d v
      → Unbeaten key (consider improved now c d).1 v
  consider-Unbeaten key v c d idle (r, found, unbeaten) =
      let (rows, _) = consider-population c d idle in
      elim (Bool-cases (key == c.key)) [
        | inr differs ↦ (
          r,
          rw rows (
              populated-find_other c d.population key (find_elite c.key d.population) (ground arith)
              ∙ found),
          unbeaten,
        )
        | inl same ↦
            let at : find_elite key (consider improved now c d).1.population ≡ stepped c (some r) =
              ground (arith, rows, populated-find c d.population, found, same) in
            elim (Bool-cases (vec_lt c.vec r.objective_vec)) [
              | inl better ↦ (
                replaced c r,
                ground (arith, at, better),
                ground (arith, vec_lt_trans v c.vec r.objective_vec, better, unbeaten),
              )
              | inr worse ↦ (hit r, ground (arith, at, worse), unbeaten)
            ]
      ]

  -- The candidate itself does not beat the elite that it leaves.
  consider-Unbeaten_own :
      (c : Candidate) (d : Db)
      → d.in_transaction ≡ false
      → Unbeaten c.key (consider improved now c d).1 c.vec
  consider-Unbeaten_own c d idle =
      let (rows, _) = consider-population c d idle in
      let at : find_elite c.key (consider improved now c d).1.population
          ≡ stepped c (find_elite c.key d.population) =
        ground (arith, rows, populated-find c d.population) in
      elim (Option-cases (find_elite c.key d.population)) [
        | inl missing ↦ (fresh_row c, ground (arith, at, missing), vec_lt_irrefl c.vec)
        | inr (r, found) ↦ elim (Bool-cases (vec_lt c.vec r.objective_vec)) [
          | inl better ↦ (replaced c r, ground (arith, at, found, better), vec_lt_irrefl c.vec)
          | inr worse ↦ (hit r, ground (arith, at, found, worse), worse)
        ]
      ]

  session-Unbeaten :
      (key : Text) (v : Vector) (cs : List Candidate) (d : Db)
      → d.in_transaction ≡ false
      → Unbeaten key d v
      → Unbeaten key (session cs d) v
  unfolding session
  session-Unbeaten key v [] d idle h = h
  session-Unbeaten key v (c ∷ cs) d idle h =
      session-Unbeaten key v cs (consider improved now c d).1 (consider-population c d idle).1
        (consider-Unbeaten key v c d idle h)

  -- After any session of `consider` calls that starts outside a transaction, the key of every candidate
  -- of the session has a row, and the candidate's vector is not lexicographically less than the row's.
  pub session_best :
      (cs : List Candidate) (d : Db)
      → d.in_transaction ≡ false
      → All (λ c. Unbeaten c.key (session cs d) c.vec) cs
  unfolding session
  session_best [] d idle = tt
  session_best (c ∷ cs) d idle =
      let next = (consider improved now c d).1 in
      let committed = (consider-population c d idle).1 in
      (
        session-Unbeaten c.key c.vec cs next committed (consider-Unbeaten_own c d idle),
        session_best cs next committed,
      )
