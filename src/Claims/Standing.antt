-- ===== src/Claims/Standing.antt =====
-- The standing of claims: src/empiricist/claims/standing.py. The files of receipts, their hashes,
-- and the fields that only reviewing reads, are left out.
pub mod Current
pub mod Computed
use empiricist.Base.{
  ℕ, ◌≡◌, refl, ◌≢◌, ◌⊎◌, inl, inr, Bool, true, false, not, ◌&&◌, ◌||◌, Option, none, some, List,
  [], ◌∷◌, ◌++◌, map, find, any, all, keep, is_some, leb, sort_by, opt_eq, ◌==◌, All, arith,
  if◌then◌else◌, Bool-cases, Option-cases,
}
use empiricist.Ledger.Models.{Text}
use empiricist.Claims.Model.{
  Level, Standing, current, stale, challenged, superseded, is_refuted_level, EntryVerdict,
  EvidenceEntry, Dependency, path_dependency, claim_dependency, ClaimFile, claim_of,
}
use empiricist.Base.Visits.{going, stopped, out_of_fuel}
use empiricist.Claims.Graph.{Graph, is_in, find_cycle, topological_order}

pub data Severity : Type 0 where
  note warning blocking : Severity

pub data ReceiptVerdict : Type 0 where
  pass revise block : ReceiptVerdict

pub record Receipt : Type 0 where
  pub id : Text
  pub claim_id : Text
  pub findings : List Severity
  pub verdict : ReceiptVerdict
  pub closes : List Text
  pub created : Text
  pub waivers : List Text

abbrev is_blocking : Severity → Bool
is_blocking blocking = true
is_blocking _ = false

-- The property `blocking` of a receipt.
abbrev pub has_blocking : Receipt → Bool
has_blocking r = any is_blocking r.findings

-- `len(set(xs)) == len(xs)`
unfoldable is_distinct : List Text → Bool
is_distinct [] = true
is_distinct (x ∷ xs) = not (is_in x xs) && is_distinct xs

abbrev fits_verdict : ReceiptVerdict → Bool → Bool
fits_verdict pass b = not b
fits_verdict block b = b
fits_verdict revise b = true

-- `Receipt._consistent`; false where it raises.
unfoldable is_consistent : Receipt → Bool
unfolding is_distinct
is_consistent r =
    not (is_in r.id r.closes)
    && is_distinct r.closes
    && is_distinct r.waivers
    && fits_verdict r.verdict (has_blocking r)

-- The claim ids among the dependencies.
pub claim_ids : List Dependency → List Text
claim_ids [] = []
claim_ids (path_dependency p ∷ deps) = claim_ids deps
claim_ids (claim_dependency d ∷ deps) = d ∷ claim_ids deps

abbrev pub knows : List ClaimFile → Text → Bool
knows claims id = is_some (claim_of id claims)

-- `dependency_graph`; `none` where it raises ClaimGraphError.
pub dependency_graph : List ClaimFile → Option (Graph)
unfolding claim_ids
dependency_graph claims =
    if all (λ c. all (knows claims) (claim_ids c.depends_on) && all (knows claims) c.supersedes)
      claims
    then some (map (λ c. (c.id, claim_ids c.depends_on)) claims)
    else none

-- The receipts on a claim, and the ids that one of them closes: of an earlier or simultaneous
-- receipt on the same claim, and not its own.
abbrev pub receipts_of : Text → List Receipt → List Receipt
receipts_of id receipts = keep (λ r. r.claim_id == id) receipts

abbrev closes_earlier : List Receipt → Receipt → Text → Bool
closes_earlier mine r target = elim (find (λ t. t.id == target) mine) [
  | none ↦ false
  | some t ↦ not (t.id == r.id) && leb t.created r.created
]

abbrev is_closed : List Receipt → Text → Bool
is_closed mine id = any (λ r. any (λ t. t == id && closes_earlier mine r t) r.closes) mine

-- `open_blocking_receipts`
unfoldable open_blocking_receipts : ClaimFile → List Receipt → List Text
open_blocking_receipts claim receipts =
    let mine = receipts_of claim.id receipts in
    sort_by (λ id. id)
      (map (λ r. r.id) (keep (λ r. has_blocking r && not (is_closed mine r.id)) mine))

abbrev is_pass_entry : EvidenceEntry → Bool
is_pass_entry e = elim e.verdict [ EntryVerdict.pass ↦ true | _ ↦ false ]

-- `latest[(e.path, e.verifier)] = e`
unfoldable remember : EvidenceEntry → List EvidenceEntry → List EvidenceEntry
remember e [] = e ∷ []
remember e (x ∷ xs) =
    if x.path == e.path && x.verifier == e.verifier then e ∷ xs else x ∷ remember e xs

unfoldable latest_passes : List EvidenceEntry → List EvidenceEntry → List EvidenceEntry
unfolding remember
latest_passes latest [] = latest
latest_passes latest (e ∷ es) =
    latest_passes (if is_pass_entry e then remember e latest else latest) es

-- What `compute_standing` is given beside the claims and the receipts.
pub record Inputs : Type 0 where
  pub lock_mismatches : Text → List Text
  pub registry_newer : Option (EvidenceEntry → Bool)

abbrev is_nonempty : List Text → Bool
is_nonempty [] = false
is_nonempty (_ ∷ _) = true

unfoldable is_outdated : Inputs → ClaimFile → Bool
unfolding latest_passes
is_outdated inputs claim = elim inputs.registry_newer [
  | none ↦ false
  | some newer ↦ any newer (latest_passes [] claim.evidence)
]

abbrev pub is_refuted_at : Option ClaimFile → Bool
is_refuted_at none = false
is_refuted_at (some c) = is_refuted_level c.level

-- `d in noncurrent or claims[d].level == "REFUTED"`; `dependency_graph` has refused unknown ids.
abbrev pub is_shaken : List ClaimFile → List Text → Text → Bool
is_shaken claims noncurrent d = is_in d noncurrent || is_refuted_at (claim_of d claims)

abbrev pub is_superseded : List ClaimFile → Text → Bool
is_superseded claims id = any (λ c. is_in id c.supersedes) claims

-- One step of the loop of `compute_standing`.
pub standing_of : Inputs → List ClaimFile → List Receipt → List Text → ClaimFile → Standing
unfolding open_blocking_receipts is_outdated claim_ids
standing_of inputs claims receipts noncurrent claim =
    if is_superseded claims claim.id
    then superseded
    else if is_nonempty (open_blocking_receipts claim receipts)
    then challenged
    else if is_nonempty (inputs.lock_mismatches claim.id)
        || is_outdated inputs claim
        || any (is_shaken claims noncurrent) (claim_ids claim.depends_on)
    then stale
    else current

abbrev pub is_current_standing : Standing → Bool
is_current_standing current = true
is_current_standing _ = false

-- The loop over the order; `none` where an id has no claim.
pub walk :
    Inputs → List ClaimFile → List Receipt → List Text → List Text → Option (List (Text × Standing))
unfolding standing_of
walk inputs claims receipts noncurrent [] = some []
walk inputs claims receipts noncurrent (id ∷ order) = elim (claim_of id claims) [
  | none ↦ none
  | some claim ↦
      let standing = standing_of inputs claims receipts noncurrent claim in
      let next = if is_current_standing standing then noncurrent else id ∷ noncurrent in
      elim (walk inputs claims receipts next order) [
        | none ↦ none
        | some out ↦ some ((id, standing) ∷ out)
      ]
]

-- What `compute_standing` returns, and the errors that it raises; the last two never occur.
pub data Outcome : Type 0 where
  standings : List (Text × Standing) → Outcome
  unknown_id : Outcome
  cyclic : List Text → Outcome
  key_error no_fuel : Outcome

abbrev pub returned : Option (List (Text × Standing)) → Outcome
returned none = key_error
returned (some out) = standings out

-- `compute_standing`
pub compute_standing : Inputs → List ClaimFile → List Receipt → Outcome
unfolding dependency_graph walk
compute_standing inputs claims receipts = elim (dependency_graph claims) [
  | none ↦ unknown_id
  | some g ↦ elim (topological_order g) [
    | going order ↦ returned (walk inputs claims receipts [] order)
    | stopped cycle ↦ cyclic cycle
    | out_of_fuel ↦ no_fuel
  ]
]
