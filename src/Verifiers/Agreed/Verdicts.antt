-- ===== src/Verifiers/Agreed/Verdicts.antt =====
-- The verdict of the agreement by the keys of what the two engines make.
use empiricist.Base.{
  ◌≡◌, refl, ◌∙◌, ap, inl, inr, Bool, true, false, ◌&&◌, Option, none, some, ◌==◌, arith,
  if◌then◌else◌, Bool-cases, Option-cases,
}
use empiricist.Ledger.Models.{Text, Verdict}
use empiricist.Ledger.Tables.{
  Db, Result, ok, err, uncertified_verifier, Action, pure, ◌>>=◌, >>=-eq, >>=-err_eq,
}
use empiricist.Ledger.Certifications.{find_stamp, is_current}
use empiricist.Fusion.Graphs.{GraphState}
use empiricist.Fusion.Construction.{Construction, fusion_count, Engine, apply_construction}
use empiricist.Verifiers.Engines.{
  VerifierResult, Verifier, FusionDetails, error_result, compared, fusion_verify, fusion_verifier,
}
use empiricist.Verifiers.Registry.{registry_verify}
use empiricist.Verifiers.Registry.Trust.{registry_verify-eq}
use empiricist.Verifiers.Agreed.{AgreedDetails, Identity, identity, agree, verify_agreed}

-- The key of what the engine makes of the construction, and the key of the target, if nothing raises.
abbrev pub keys_of :
    {S : Type 0} → Engine S → (GraphState → Option Text) → Construction → Option (Text × Text)
keys_of engine lc_orbit_key c = elim (apply_construction engine c) [
  | none ↦ none
  | some made ↦ elim (lc_orbit_key made) [
    | none ↦ none
    | some key ↦ elim (lc_orbit_key c.target) [ none ↦ none | some target ↦ some (key, target) ]
  ]
]

-- The verdict and whether the engines disagree, from the keys of both.
abbrev pub agreement : Option (Text × Text) → Option (Text × Text) → Verdict × Bool
agreement none keys = (Verdict.error, false)
agreement (some _) none = (Verdict.error, false)
agreement (some (key, target)) (some (key', _)) =
    if key == key'
    then (if key == target then Verdict.pass else Verdict.fail, false)
    else (Verdict.error, true)

-- The verifier holds a PASS stamp of the suite.
abbrev pub is_trusted : {C D : Type 0} → Text → Verifier C D → Db → Bool
is_trusted suite_hash v d = is_current suite_hash (find_stamp v.name v.version v.binary_hash d)

registry_verify-refused :
    {C D : Type 0} (suite_hash : Text) (v : Verifier C D) (c : C) (d : Db)
    → is_trusted suite_hash v d ≡ false
    → registry_verify suite_hash v c d ≡ (err uncertified_verifier, d)
registry_verify-refused suite_hash v c d h = registry_verify-eq suite_hash v c d ∙ rw h refl

registry_verify-trusted :
    {C D : Type 0} (suite_hash : Text) (v : Verifier C D) (c : C) (d : Db)
    → is_trusted suite_hash v d ≡ true
    → registry_verify suite_hash v c d ≡ (ok (v.verify c), d)
registry_verify-trusted suite_hash v c d h = registry_verify-eq suite_hash v c d ∙ rw h refl

pub verify_agreed-eq :
    (suite_hash : Text) (stab enum_v : Verifier Construction FusionDetails) (c : Construction)
    (d : Db)
    → verify_agreed suite_hash stab enum_v c d ≡ (
      if is_trusted suite_hash stab d && is_trusted suite_hash enum_v d
          then ok (agree (identity stab) (identity enum_v) (stab.verify c) (enum_v.verify c))
          else err uncertified_verifier,
      d,
    )
unfolding verify_agreed
verify_agreed-eq suite_hash stab enum_v c d =
    let last : VerifierResult FusionDetails
        → VerifierResult FusionDetails
        → Action (VerifierResult AgreedDetails) =
      λ x y. pure (agree (identity stab) (identity enum_v) x y) in
    let then_enum : VerifierResult FusionDetails → Action (VerifierResult AgreedDetails) =
      λ x. registry_verify suite_hash enum_v c >>= last x in
    elim (Bool-cases (is_trusted suite_hash stab d)) [
      | inr refused ↦ rw refused (
          >>=-err_eq (registry_verify suite_hash stab c) then_enum d uncertified_verifier
            (registry_verify-refused suite_hash stab c d refused))
      | inl trusted ↦
          >>=-eq (registry_verify suite_hash stab c) then_enum d d (stab.verify c)
            (registry_verify-trusted suite_hash stab c d trusted)
          ∙ elim (Bool-cases (is_trusted suite_hash enum_v d)) [
            | inr refused ↦
                rw (trusted, refused)
                  (>>=-err_eq (registry_verify suite_hash enum_v c) (last (stab.verify c)) d
                    uncertified_verifier (registry_verify-refused suite_hash enum_v c d refused))
            | inl both ↦
                rw (trusted, both)
                  (>>=-eq (registry_verify suite_hash enum_v c) (last (stab.verify c)) d d
                    (enum_v.verify c) (registry_verify-trusted suite_hash enum_v c d both))
          ]
    ]

abbrev of_keys : Text → Option (Text × Text) → VerifierResult FusionDetails
of_keys count none = error_result
of_keys count (some (key, target)) = compared key count target

abbrev key_of_made :
    {S : Type 0} → Engine S → (GraphState → Option Text) → Construction → Option Text
key_of_made engine lc_orbit_key c = elim (apply_construction engine c) [
  | none ↦ none
  | some made ↦ lc_orbit_key made
]

abbrev pub with_target : Option Text → Option Text → Option (Text × Text)
with_target none target = none
with_target (some key) none = none
with_target (some key) (some target) = some (key, target)

keys_of-eq :
    {S : Type 0} (engine : Engine S) (lc_orbit_key : GraphState → Option Text) (c : Construction)
    → keys_of engine lc_orbit_key c
      ≡ with_target (key_of_made engine lc_orbit_key c) (lc_orbit_key c.target)
keys_of-eq engine lc_orbit_key c = elim (Option-cases (apply_construction engine c)) [
  | inl fails ↦ ground (arith, fails)
  | inr (made, runs) ↦ elim (Option-cases (lc_orbit_key made)) [
    | inl fails ↦ ground (arith, runs, fails)
    | inr (key, found_key) ↦ elim (Option-cases (lc_orbit_key c.target)) [
      | inl fails ↦ ground (arith, runs, found_key, fails)
      | inr (target, aim) ↦ ground (arith, runs, found_key, aim)
    ]
  ]
]

fusion_verify-eq :
    {S : Type 0} (engine : Engine S) (lc_orbit_key : GraphState → Option Text) (c : Construction)
    → fusion_verify engine lc_orbit_key c ≡ of_keys (fusion_count c) (keys_of engine lc_orbit_key c)
unfolding fusion_verify
fusion_verify-eq engine lc_orbit_key c = elim (Option-cases (apply_construction engine c)) [
  | inl fails ↦ ground (arith, fails)
  | inr (made, runs) ↦ elim (Option-cases (lc_orbit_key made)) [
    | inl fails ↦ ground (arith, runs, fails)
    | inr (key, found_key) ↦ elim (Option-cases (lc_orbit_key c.target)) [
      | inl fails ↦ ground (arith, runs, found_key, fails)
      | inr (target, aim) ↦ ground (arith, runs, found_key, aim)
    ]
  ]
]

abbrev pub judged : VerifierResult AgreedDetails → Verdict × Bool
judged r = (r.verdict, (r.details).disagreement)

agree-of_keys :
    (stab_id enum_id : Identity) (count : Text) (x y target : Option Text)
    → judged (
        agree stab_id enum_id
          (of_keys count (with_target x target))
          (of_keys count (with_target y target)))
      ≡ agreement (with_target x target) (with_target y target)
unfolding agree
agree-of_keys stab_id enum_id count none none target = refl
agree-of_keys stab_id enum_id count none (some l) none = refl
agree-of_keys stab_id enum_id count none (some l) (some t) = ground arith
agree-of_keys stab_id enum_id count (some k) y none = ground arith
agree-of_keys stab_id enum_id count (some k) none (some t) = ground arith
agree-of_keys stab_id enum_id count (some k) (some l) (some t) = ground arith

module _ {S T : Type 0} (engine_a : Engine S) (engine_b : Engine T)
    (lc_orbit_key : GraphState → Option Text) where
  agree-keys :
      (stab_id enum_id : Identity) (c : Construction)
      → judged (
          agree stab_id enum_id
            (fusion_verify engine_a lc_orbit_key c)
            (fusion_verify engine_b lc_orbit_key c))
        ≡ agreement (keys_of engine_a lc_orbit_key c) (keys_of engine_b lc_orbit_key c)
  agree-keys stab_id enum_id c =
      rw
        (
          fusion_verify-eq engine_a lc_orbit_key c,
          fusion_verify-eq engine_b lc_orbit_key c,
          keys_of-eq engine_a lc_orbit_key c,
          keys_of-eq engine_b lc_orbit_key c,
        )
        (agree-of_keys stab_id enum_id (fusion_count c) (key_of_made engine_a lc_orbit_key c)
          (key_of_made engine_b lc_orbit_key c) (lc_orbit_key c.target))

abbrev pub judged_result : Result (VerifierResult AgreedDetails) → Option (Verdict × Bool)
judged_result (ok r) = some (judged r)
judged_result (err e) = none

-- `verify_agreed` writes nothing. It raises unless both fusion verifiers hold a PASS stamp of the
-- suite. Else its verdict is PASS exactly if both engines make the construction and both orbit keys
-- are the target's; FAIL if the keys agree and are not the target's; and ERROR with a disagreement
-- if the keys differ, and without one if anything raised.
pub verify_agreed_ok :
    {S T : Type 0} (engine_a : Engine S) (engine_b : Engine T)
    (lc_orbit_key : GraphState → Option Text) (suite_hash kind : Text) (stab_id enum_id : Identity)
    (c : Construction) (d : Db)
    → let stab = fusion_verifier engine_a lc_orbit_key kind stab_id.0 stab_id.1 stab_id.2 in
      let enum_v = fusion_verifier engine_b lc_orbit_key kind enum_id.0 enum_id.1 enum_id.2 in
      (judged_result (verify_agreed suite_hash stab enum_v c d).0 ≡ (
        if is_trusted suite_hash stab d && is_trusted suite_hash enum_v d
        then some (agreement (keys_of engine_a lc_orbit_key c) (keys_of engine_b lc_orbit_key c))
        else none))
      × ((verify_agreed suite_hash stab enum_v c d).1 ≡ d)
verify_agreed_ok engine_a engine_b lc_orbit_key suite_hash kind stab_id enum_id c d =
    let stab = fusion_verifier engine_a lc_orbit_key kind stab_id.0 stab_id.1 stab_id.2 in
    let enum_v = fusion_verifier engine_b lc_orbit_key kind enum_id.0 enum_id.1 enum_id.2 in
    let run = verify_agreed-eq suite_hash stab enum_v c d in
    (
      ap (λ r. judged_result r.0) run
          ∙ split (is_trusted suite_hash stab d && is_trusted suite_hash enum_v d)
              (agree (identity stab) (identity enum_v) (stab.verify c) (enum_v.verify c))
          ∙ ap
              (λ p.
                if is_trusted suite_hash stab d && is_trusted suite_hash enum_v d
                then some p
                else none)
              (agree-keys engine_a engine_b lc_orbit_key (identity stab) (identity enum_v) c),
      ap (λ r. r.1) run,
    )
  where
    split :
        (b : Bool) (r : VerifierResult AgreedDetails)
        → judged_result (if b then ok r else err uncertified_verifier)
          ≡ (if b then some (judged r) else none)
    split true r = refl
    split false r = refl
