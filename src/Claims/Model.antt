-- ===== src/Claims/Model.antt =====
-- Claim files and the cap on their levels: src/empiricist/claims/model.py. The checks on the form of
-- ids, paths and dates, the YAML codec, and the fields that only it reads, are left out.
use empiricist.Base.{
  ℕ, ◌≤◌, ◌<◌, ◌≡◌, refl, sym, subst, ◌⊎◌, inl, inr, Bool, true, false, not, ◌||◌, Option, none,
  some, List, [], ◌∷◌, find, ltb, ◌==◌, All, arith, if◌then◌else◌, Bool-cases, Option-cases,
}
use empiricist.Ledger.Models.{Text}

pub data Level : Type 0 where
  refuted heuristic conjectured verified_n certified formalized : Level

pub data Standing : Type 0 where
  current stale challenged superseded : Standing

-- `LEVEL_RANK`, one up: `refuted` is -1 in the source.
pub level_rank : Level → ℕ
level_rank refuted = 0
level_rank heuristic = 1
level_rank conjectured = 2
level_rank verified_n = 3
level_rank certified = 4
level_rank formalized = 5

abbrev pub is_refuted_level : Level → Bool
is_refuted_level refuted = true
is_refuted_level _ = false

pub data EntryVerdict : Type 0 where
  pass fail error imported : EntryVerdict

pub record EvidenceEntry : Type 0 where
  pub path : Text
  pub verifier : Text
  pub version : Text
  pub verdict : EntryVerdict
  pub stamped : Text
  pub binary_hash : Option Text
  pub golden_suite_hash : Option Text
  pub note : Text

-- A dependency with a "/" is a path, any other a claim id.
pub data Dependency : Type 0 where
  path_dependency claim_dependency : Text → Dependency

pub record ClaimFile : Type 0 where
  pub id : Text
  pub statement : Text
  pub level : Level
  pub n : Option ℕ
  pub coverage : Option Text
  pub depends_on : List Dependency
  pub supersedes : List Text
  pub evidence : List EvidenceEntry
  pub legacy_level : Option Level

abbrev pub claim_of : Text → List ClaimFile → Option ClaimFile
claim_of id claims = find (λ c. c.id == id) claims

-- `legacy_pending`
unfoldable legacy_pending : ClaimFile → Bool
unfolding level_rank
legacy_pending c = elim c.legacy_level [
  | none ↦ false
  | some legacy ↦
      if level_rank legacy == level_rank c.level
      then false
      else if is_refuted_level legacy
      then true
      else ltb (level_rank c.level) (level_rank legacy)
]

abbrev lower_cap : Text → Option ClaimFile → ℕ × Option Text → ℕ × Option Text
lower_cap d none (limit, who) = (limit, who)
lower_cap d (some dep) (limit, who) =
    if is_refuted_level dep.level
    then (limit, who)
    else if ltb (level_rank dep.level) limit
    then (level_rank dep.level, some d)
    else (limit, who)

-- The loop of `level_cap`; no claim's id is a path.
unfoldable cap_over : List ClaimFile → List Dependency → ℕ × Option Text → ℕ × Option Text
unfolding level_rank
cap_over claims [] limit = limit
cap_over claims (path_dependency p ∷ deps) limit = cap_over claims deps limit
cap_over claims (claim_dependency d ∷ deps) limit =
    cap_over claims deps (lower_cap d (claim_of d claims) limit)

pub level_cap : ClaimFile → List ClaimFile → ℕ × Option Text
unfolding cap_over level_rank
level_cap c claims = cap_over claims c.depends_on (level_rank formalized, none)

-- The cap does not exceed the rank of the dependency, where that is a claim that is not refuted.
abbrev pub CapsAt : ℕ → Option ClaimFile → Type 0
CapsAt limit none = Unit
CapsAt limit (some dep) = (dep.level ≡ refuted) ⊎ (limit ≤ level_rank dep.level)

abbrev pub Caps : List ClaimFile → ℕ → Dependency → Type 0
Caps claims limit (path_dependency p) = Unit
Caps claims limit (claim_dependency d) = CapsAt limit (claim_of d claims)

-- Whether a claim's id is among the dependencies.
pub depends_on_claim : Text → List Dependency → Bool
depends_on_claim d [] = false
depends_on_claim d (path_dependency p ∷ deps) = depends_on_claim d deps
depends_on_claim d (claim_dependency e ∷ deps) = e == d || depends_on_claim d deps

-- A cap that names an id is below the rank of FORMALIZED, and is the rank of the claim with that id:
-- a dependency that is not refuted. One that names none is the rank of FORMALIZED.
abbrev pub Attained : List ClaimFile → List Dependency → ℕ × Option Text → Type 0
Attained claims deps (limit, none) = limit ≡ level_rank formalized
Attained claims deps (limit, some d) =
    (depends_on_claim d deps ≡ true)
    × (limit < level_rank formalized)
    × ((dep : ClaimFile) × (claim_of d claims ≡ some dep)
        × (is_refuted_level dep.level ≡ false)
        × (level_rank dep.level ≡ limit))

lower_cap_le :
    (d : Text) (o : Option ClaimFile) (limit : ℕ × Option Text) → (lower_cap d o limit).0 ≤ limit.0
lower_cap_le d none (limit, who) = omega arith
lower_cap_le d (some dep) (limit, who) = ground arith

cap_over_le :
    (claims : List ClaimFile) (deps : List Dependency) (limit : ℕ × Option Text)
    → (cap_over claims deps limit).0 ≤ limit.0
unfolding cap_over
cap_over_le claims [] limit = omega arith
cap_over_le claims (path_dependency p ∷ deps) limit = cap_over_le claims deps limit
cap_over_le claims (claim_dependency d ∷ deps) limit = omega (
  arith,
  cap_over_le claims deps (lower_cap d (claim_of d claims) limit),
  lower_cap_le d (claim_of d claims) limit,
)

Level-cases : (l : Level) → (l ≡ refuted) ⊎ (is_refuted_level l ≡ false)
Level-cases l = ground arith

lower_cap-CapsAt :
    (d : Text) (o : Option ClaimFile) (limit : ℕ × Option Text) (k : ℕ)
    → k ≤ (lower_cap d o limit).0
    → CapsAt k o
lower_cap-CapsAt d none (limit, who) k h = tt
lower_cap-CapsAt d (some dep) (limit, who) k h = elim (Level-cases dep.level) [
  | inl e ↦ inl e
  | inr live ↦ inr (ground (arith, live))
]

cap_over-Caps :
    (claims : List ClaimFile) (deps : List Dependency) (limit : ℕ × Option Text)
    → All (Caps claims (cap_over claims deps limit).0) deps
unfolding cap_over
cap_over-Caps claims [] limit = tt
cap_over-Caps claims (path_dependency p ∷ deps) limit = (tt, cap_over-Caps claims deps limit)
cap_over-Caps claims (claim_dependency d ∷ deps) limit =
    let next = lower_cap d (claim_of d claims) limit in
    (
      lower_cap-CapsAt d (claim_of d claims) limit _ (cap_over_le claims deps next),
      cap_over-Caps claims deps next,
    )

-- A cap is never above the rank of FORMALIZED.
Attained-le :
    (claims : List ClaimFile) (deps : List Dependency) (limit : ℕ × Option Text)
    → Attained claims deps limit
    → limit.0 ≤ level_rank formalized
Attained-le claims deps (limit, none) h = omega (arith, h)
Attained-le claims deps (limit, some d) (_, below, _) = omega (arith, below)

lower_cap-Attained :
    (claims : List ClaimFile) (deps : List Dependency) (d : Text) (limit : ℕ × Option Text)
    → depends_on_claim d deps ≡ true
    → Attained claims deps limit
    → Attained claims deps (lower_cap d (claim_of d claims) limit)
lower_cap-Attained claims deps d limit listed h = elim (Option-cases (claim_of d claims)) [
  | inl missing ↦ rw missing h
  | inr (dep, found) ↦
      elim (Bool-cases (is_refuted_level dep.level || not (ltb (level_rank dep.level) limit.0))) [
        | inl kept ↦
            let same : lower_cap d (claim_of d claims) limit ≡ limit =
              ground (arith, found, kept) in
            subst (Attained claims deps) (sym same) h
        | inr lower ↦
            let next : lower_cap d (claim_of d claims) limit ≡ (level_rank dep.level, some d) =
              ground (arith, found, lower) in
            let live : is_refuted_level dep.level ≡ false = ground (arith, lower) in
            let under : level_rank dep.level < limit.0 = ground (arith, lower) in
            let top = Attained-le claims deps limit h in
            subst (Attained claims deps) (sym next)
              (listed, omega (arith, under, top), (dep, found, live, refl))
      ]
]

listed_first :
    (d : Text) (deps : List Dependency) → depends_on_claim d (claim_dependency d ∷ deps) ≡ true
unfolding depends_on_claim
listed_first d deps = ground arith

listed_later :
    (d e : Text) (deps : List Dependency)
    → depends_on_claim d deps ≡ true
    → depends_on_claim d (claim_dependency e ∷ deps) ≡ true
unfolding depends_on_claim
listed_later d e deps h = ground (arith, h)

-- Going through some of the dependencies keeps the cap attained.
cap_over-Attained :
    (claims : List ClaimFile) (deps rest : List Dependency) (limit : ℕ × Option Text)
    → ((d : Text) → depends_on_claim d rest ≡ true → depends_on_claim d deps ≡ true)
    → Attained claims deps limit
    → Attained claims deps (cap_over claims rest limit)
unfolding cap_over depends_on_claim
cap_over-Attained claims deps [] limit among h = h
cap_over-Attained claims deps (path_dependency p ∷ rest) limit among h =
    cap_over-Attained claims deps rest limit among h
cap_over-Attained claims deps (claim_dependency d ∷ rest) limit among h =
    cap_over-Attained claims deps rest (lower_cap d (claim_of d claims) limit)
      (λ e listed. among e (listed_later e d rest listed))
      (lower_cap-Attained claims deps d limit (among d (listed_first d rest)) h)

-- The cap of a claim is no higher than the rank of any claim that it depends on and that is not
-- REFUTED. If it names an id, that is among the claim's dependencies, it is the id of a claim that is
-- not REFUTED, and the cap is that claim's rank and below the rank of FORMALIZED; if it names none,
-- the cap is the rank of FORMALIZED.
pub level_cap_ok :
    (c : ClaimFile) (claims : List ClaimFile)
    → All (Caps claims (level_cap c claims).0) c.depends_on
      × Attained claims c.depends_on (level_cap c claims)
unfolding level_cap
level_cap_ok c claims = (
  cap_over-Caps claims c.depends_on (level_rank formalized, none),
  cap_over-Attained claims c.depends_on c.depends_on (level_rank formalized, none) (λ d h. h) refl,
)
