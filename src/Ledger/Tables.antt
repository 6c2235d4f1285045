-- ===== src/Ledger/Tables.antt =====
-- The connection of src/empiricist/ledger/db.py: the tables of ledger/schema.py with their keys,
-- and `Ledger._tx`. A statement that SQLite refuses raises IntegrityError.
use empiricist.Base.{
  ℕ, ◌≡◌, ◌⊎◌, inl, inr, refl, ◌∙◌, ap, arith, Bool, true, false, Option, none, some, List,
  if◌then◌else◌,
}
use empiricist.Ledger.Models.{Text, Artifact, EvidenceRow, Claim, Run, Gate, Certification}

-- A double that the program only compares: a finite one by its place among the finite doubles.
pub data Number : Type 0 where
  finite : ℕ → Number
  infinite minus_infinite nan : Number

abbrev pub Vector : Type 0
Vector = List Number

pub data Relation : Type 0 where
  depends_on refutes generalizes formalizes golden_for : Relation
  other : Text → Relation

pub record Edge : Type 0 where
  pub src : Text
  pub dst : Text
  pub rel : Relation

pub record PopulationRow : Type 0 where
  pub lc_orbit_key : Text
  pub island : ℕ
  pub cell : Text
  pub objective_vec : Vector
  pub cert_hash : Text
  pub hit_count : ℕ

pub record EvictedRow : Type 0 where
  pub lc_orbit_key : Text
  pub reason : Text
  pub dominated_by : Text
  pub ts : Text

-- A row of `search_events`; the generation -1 of the session marker is `none`.
pub record SearchEvent : Type 0 where
  pub gen : Option ℕ
  pub trigger : Text
  pub detail : Option Text
  pub ts : Text

pub record FrontierRow : Type 0 where
  pub lc_orbit_key : Text
  pub objective_vec : Vector
  pub frontier_version : ℕ

pub record Db : Type 0 where
  pub artifacts : List Artifact
  pub evidence : List EvidenceRow
  pub claims : List Claim
  pub certifications : List Certification
  pub certification_attempts : List Certification
  pub edges : List Edge
  pub runs : List Run
  pub gates : List Gate
  pub population : List PopulationRow
  pub evicted : List EvictedRow
  pub search_events : List SearchEvent
  pub pareto_frontier : List FrontierRow
  pub in_transaction : Bool

pub data Error : Type 0 where
  key_error value_error integrity_error promotion_integrity_error terminal_status_error
        run_already_finished gate_error nested_transaction uncertified_verifier :
      Error

pub data Result (A : Type 0) : Type 0 where
  ok : A → Result A
  err : Error → Result A

pub Result-cases :
    {A : Type 0} (r : Result A) → ((a : A) × (r ≡ ok a)) ⊎ ((e : Error) × (r ≡ err e))
Result-cases (ok a) = inl (a, refl)
Result-cases (err e) = inr (e, refl)

-- A method works on the database and may raise; what was written before a raise stays written
-- until a transaction rolls it back.
abbrev pub Action : Type 0 → Type 0
Action A = Db → Result A × Db

module _ {A : Type 0} where
  abbrev pub pure : A → Action A
  pure a d = (ok a, d)

  abbrev pub raise : Error → Action A
  raise e d = (err e, d)

  -- SELECT
  abbrev pub select : (Db → A) → Action A
  select f d = (ok (f d), d)

  abbrev pub some_or_raise : Option A → Error → Action A
  some_or_raise none e = raise e
  some_or_raise (some a) e = pure a

infixl 5 ◌>>=◌ ◌>>◌
abbrev pub ◌>>=◌ : {A B : Type 0} → Action A → (A → Action B) → Action B
◌>>=◌ m f d = let (r, d') = m d in elim r [ ok a ↦ f a d' | err e ↦ (err e, d') ]

abbrev pub ◌>>◌ : {A B : Type 0} → Action A → Action B → Action B
m >> k = m >>= λ _. k

-- `if test: raise e`
abbrev pub raise_if : Bool → Error → Action (Unit {0})
raise_if test e d = (if test then err e else ok tt, d)

-- `if test: body`
abbrev pub when : Bool → Action (Unit {0}) → Action (Unit {0})
when test body d = if test then body d else (ok tt, d)

-- INSERT, UPDATE and DELETE
abbrev pub write : (Db → Db) → Action (Unit {0})
write f d = (ok tt, f d)

-- COMMIT after the body, or ROLLBACK to the state at BEGIN and raise again.
abbrev pub finish : {A : Type 0} → Db → Result A × Db → Result A × Db
finish before (ok a, after) = (ok a, record after { in_transaction = false })
finish before (err e, after) = (err e, before)

-- `with self._tx() as c:`
abbrev pub transaction : {A : Type 0} → Action A → Action A
transaction body d =
    if d.in_transaction
    then (err nested_transaction, d)
    else finish d (body (record d { in_transaction = true }))

-- A transaction that raises leaves the database as it was.
pub transaction_atomic :
    {A : Type 0} (body : Action A) (d : Db) {e : Error}
    → (transaction body d).0 ≡ err e
    → (transaction body d).1 ≡ d
transaction_atomic body d h = ground arith

-- A successful bind: both parts succeeded, and the second one left the database.
pub >>=-ok :
    {A B : Type 0} (m : Action A) (f : A → Action B) (d : Db) {b : B}
    → ((m >>= f) d).0 ≡ ok b
    → (a : A) × ((m d).0 ≡ ok a) × ((f a (m d).1).0 ≡ ok b) × (((m >>= f) d).1 ≡ (f a (m d).1).1)
>>=-ok m f d h = elim (Result-cases (m d).0) [
  | inl (a, e) ↦ (a, e, ground arith, ground arith)
  | inr (x, e) ↦ absurd (ground arith)
]

-- A successful transaction has committed what its body wrote.
pub transaction_ok :
    {A : Type 0} (body : Action A) (d : Db) {a : A}
    → (transaction body d).0 ≡ ok a
    → let began = record d { in_transaction = true } in
      (d.in_transaction ≡ false)
      × ((body began).0 ≡ ok a)
      × ((transaction body d).1 ≡ record (body began).1 { in_transaction = false })
transaction_ok body d h = ground arith

-- A bind whose first part is known.
pub >>=-eq :
    {A B : Type 0} (m : Action A) (f : A → Action B) (d d' : Db) (a : A)
    → m d ≡ (ok a, d')
    → (m >>= f) d ≡ f a d'
>>=-eq {A} {B} m f d d' a h =
    ap
      (λ (p : Result A × Db). elim p.0 as (λ _. Result B × Db) [
        | ok b ↦ f b p.1
        | err e ↦ (err e, p.1)
      ])
      h

-- A transaction whose body writes nothing.
pub transaction_idle :
    {A : Type 0} (body : Action A) (d : Db) (a : A)
    → d.in_transaction ≡ false
    → body (record d { in_transaction = true }) ≡ (ok a, record d { in_transaction = true })
    → transaction body d ≡ (ok a, d)
transaction_idle body d a idle h = ground arith

-- A bind by the result of its first part.
pub >>=-at_ok :
    {A B : Type 0} (m : Action A) (f : A → Action B) (d : Db) (a : A)
    → (m d).0 ≡ ok a
    → (m >>= f) d ≡ f a (m d).1
>>=-at_ok {A} {B} m f d a h =
    ap
      (λ (r : Result A). elim r as (λ _. Result B × Db) [
        | ok b ↦ f b (m d).1
        | err e ↦ (err e, (m d).1)
      ])
      h

pub >>=-at_err :
    {A B : Type 0} (m : Action A) (f : A → Action B) (d : Db) (e : Error)
    → (m d).0 ≡ err e
    → (m >>= f) d ≡ (err e, (m d).1)
>>=-at_err {A} {B} m f d e h =
    ap
      (λ (r : Result A). elim r as (λ _. Result B × Db) [
        | ok b ↦ f b (m d).1
        | err x ↦ (err x, (m d).1)
      ])
      h

-- A bind whose first part is known to raise.
pub >>=-err_eq :
    {A B : Type 0} (m : Action A) (f : A → Action B) (d : Db) (e : Error)
    → m d ≡ (err e, d)
    → (m >>= f) d ≡ (err e, d)
>>=-err_eq m f d e h = >>=-at_err m f d e (ap (λ r. r.0) h) ∙ ap (λ r. (err e, r)) (ap (λ r. r.1) h)
