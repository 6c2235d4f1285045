-- ===== src/Claims/Standing/Current.antt =====
-- What a CURRENT standing rests on.
use empiricist.Base.{
  ◌≡◌, refl, sym, ap, subst, ◌⊎◌, inl, inr, Bool, true, false, not, ◌&&◌, ◌||◌, Option, none, some,
  List, [], ◌∷◌, map, any, All, All-map, arith, is_some, if◌then◌else◌, Bool-cases, Option-cases,
  ◌==◌,
}
use empiricist.Base.Pairwise.{All-any}
use empiricist.Ledger.Models.{Text}
use empiricist.Claims.Model.{Standing, ClaimFile, claim_of}
use empiricist.Claims.Graph.{is_in}
use empiricist.Claims.Standing.{
  Receipt, Inputs, claim_ids, is_refuted_at, is_shaken, is_current_standing, standing_of, walk,
}

-- An entry of the result for the id that is not CURRENT.
abbrev pub is_set_back : Text → Text × Standing → Bool
is_set_back d (id, s) = id == d && not (is_current_standing s)

-- The claim dependencies of an id.
abbrev pub deps_from : Option ClaimFile → List Text
deps_from none = []
deps_from (some c) = claim_ids c.depends_on

abbrev pub deps_at : List ClaimFile → Text → List Text
deps_at claims id = deps_from (claim_of id claims)

-- Each entry, with those before it (the last one first): it is not CURRENT, or no dependency of its
-- claim is REFUTED or has an entry before it that is not CURRENT.
abbrev pub Justified : List ClaimFile → List (Text × Standing) → List (Text × Standing) → Type 0
Justified claims seen [] = Unit
Justified claims seen ((id, s) ∷ out) =
    ((is_current_standing s ≡ false)
      ⊎ All (λ d. (any (is_set_back d) seen || is_refuted_at (claim_of d claims)) ≡ false)
          (deps_at claims id))
    × Justified claims ((id, s) ∷ seen) out

-- The list `noncurrent` holds the ids of the entries that are not CURRENT.
set_back : List (Text × Standing) → List Text
set_back [] = []
set_back ((id, s) ∷ seen) = if is_current_standing s then set_back seen else id ∷ set_back seen

set_back-is_in :
    (d : Text) (seen : List (Text × Standing)) → is_in d (set_back seen) ≡ any (is_set_back d) seen
unfolding set_back
set_back-is_in d [] = refl
set_back-is_in d ((id, s) ∷ seen) = ground (arith, set_back-is_in d seen)

standing_of_current :
    (inputs : Inputs) (claims : List ClaimFile) (receipts : List Receipt) (noncurrent : List Text)
    (c : ClaimFile)
    → (is_current_standing (standing_of inputs claims receipts noncurrent c) ≡ false)
      ⊎ (any (is_shaken claims noncurrent) (claim_ids c.depends_on) ≡ false)
unfolding standing_of
standing_of_current inputs claims receipts noncurrent c =
    elim (Bool-cases (any (is_shaken claims noncurrent) (claim_ids c.depends_on))) [
      | inl shaken ↦ inl (ground (arith, shaken))
      | inr firm ↦ inr firm
    ]

walk-Justified :
    (inputs : Inputs) (claims : List ClaimFile) (receipts : List Receipt)
    (seen : List (Text × Standing)) (order : List Text) (out : List (Text × Standing))
    → walk inputs claims receipts (set_back seen) order ≡ some out
    → Justified claims seen out × (map (λ e. e.0) out ≡ order)
unfolding walk set_back
walk-Justified inputs claims receipts seen [] out h =
    let e : [] ≡ out = ground (arith, h) in
    subst (λ o. Justified claims seen o × (map (λ e. e.0) o ≡ [])) e (tt, refl)
walk-Justified inputs claims receipts seen (id ∷ order) out h =
    elim (Option-cases (claim_of id claims)) [
      | inl missing ↦ absurd (ground (arith, missing, h))
      | inr (c, found) ↦
          let s = standing_of inputs claims receipts (set_back seen) c in
          elim (Option-cases (walk inputs claims receipts (set_back ((id, s) ∷ seen)) order)) [
            | inl missing ↦ absurd (ground (arith, found, missing, h))
            | inr (rest, walked) ↦
                let e : (id, s) ∷ rest ≡ out = ground (arith, found, walked, h) in
                let (justified, ids) =
                  walk-Justified inputs claims receipts ((id, s) ∷ seen) order rest walked in
                subst (λ o. Justified claims seen o × (map (λ e. e.0) o ≡ id ∷ order)) e
                  (
                    (
                      subst
                          (λ o.
                            (is_current_standing s ≡ false)
                            ⊎ All
                                (λ d.
                                  (any (is_set_back d) seen || is_refuted_at (claim_of d claims))
                                  ≡ false)
                                (deps_from o))
                          (sym found) (firm_deps c),
                      justified,
                    ),
                    ap (λ ids. id ∷ ids) ids,
                  )
          ]
    ]
  where
    firm_deps :
        (c : ClaimFile)
        → (is_current_standing (standing_of inputs claims receipts (set_back seen) c) ≡ false)
          ⊎ All
              (λ d. (any (is_set_back d) seen || is_refuted_at (claim_of d claims)) ≡ false)
              (claim_ids c.depends_on)
    firm_deps c = elim (standing_of_current inputs claims receipts (set_back seen) c) [
      | inl other ↦ inl other
      | inr firm ↦ inr (
          All-map (λ d. is_shaken claims (set_back seen) d ≡ false) _ (claim_ids c.depends_on)
            (λ d e. ground (arith, e, set_back-is_in d seen))
            (All-any _ (claim_ids c.depends_on) firm))
    ]

walk_total :
    (inputs : Inputs) (claims : List ClaimFile) (receipts : List Receipt)
    (noncurrent order : List Text)
    → All (λ id. is_some (claim_of id claims) ≡ true) order
    → (out : List (Text × Standing)) × (walk inputs claims receipts noncurrent order ≡ some out)
unfolding walk
walk_total inputs claims receipts noncurrent [] known = ([], refl)
walk_total inputs claims receipts noncurrent (id ∷ order) (here, known) =
    elim (Option-cases (claim_of id claims)) [
      | inl missing ↦ absurd (ground (arith, missing, here))
      | inr (c, found) ↦
          let s = standing_of inputs claims receipts noncurrent c in
          let (out, walked) =
            walk_total inputs claims receipts
              (if is_current_standing s then noncurrent else id ∷ noncurrent) order known in
          ((id, s) ∷ out, ground (arith, found, walked))
    ]

-- Over an order of ids that all have a claim the loop gives standings, with one entry for each id
-- of the order in turn; an entry is not CURRENT, or no claim that its claim depends on is REFUTED
-- or has an entry before it that is not CURRENT.
pub walk_ok :
    (inputs : Inputs) (claims : List ClaimFile) (receipts : List Receipt) (order : List Text)
    → All (λ id. is_some (claim_of id claims) ≡ true) order
    → (out : List (Text × Standing)) × (walk inputs claims receipts [] order ≡ some out)
      × Justified claims [] out
      × (map (λ e. e.0) out ≡ order)
unfolding set_back
walk_ok inputs claims receipts order known =
    let (out, walked) = walk_total inputs claims receipts [] order known in
    let (justified, ids) = walk-Justified inputs claims receipts [] order out walked in
    (out, walked, justified, ids)
