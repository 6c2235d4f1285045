-- ===== src/Verifiers/Agreed.antt =====
-- The agreement of the two fusion verifiers: `verify_agreed` and its certification in
-- src/empiricist/verifiers/registry.py. The two verifiers, the golden suite and the hashes are
-- parameters.
pub mod Verdicts
pub mod Certified
use empiricist.Base.{
  Bool, true, false, not, ◌&&◌, ◌||◌, Option, none, some, List, [], ◌∷◌, ◌++◌, opt_eq,
  if◌then◌else◌,
}
use empiricist.Ledger.Models.{Text, Verdict, Certification}
use empiricist.Ledger.Tables.{Db, Action, pure, select, ◌>>=◌, ◌>>◌}
use empiricist.Ledger.Certifications.{get_certification, is_current}
use empiricist.Fusion.Construction.{Construction}
use empiricist.Verifiers.Engines.{VerifierResult, Verifier, FusionDetails, get_key}
use empiricist.Verifiers.Registry.{is_same_verdict, certify_with_suite, registry_verify}

pub data EngineName : Type 0 where
  stab_fusion enum_fusion : EngineName

abbrev pub Identity : Type 0
Identity = Text × Text × Text

-- The details of an agreement; an id has the whole hash. The error text names the verifiers in the
-- list; there is none for the empty list.
pub record AgreedDetails : Type 0 where
  pub stab_fusion_key : Option Text
  pub enum_fusion_key : Option Text
  pub stab_fusion_verdict : Verdict
  pub enum_fusion_verdict : Verdict
  pub stab_fusion_id : Identity
  pub enum_fusion_id : Identity
  pub error : List EngineName
  pub disagreement : Bool

abbrev pub is_error : Verdict → Bool
is_error Verdict.error = true
is_error _ = false

abbrev pub identity : {C D : Type 0} → Verifier C D → Identity
identity v = (v.name, v.version, v.binary_hash)

abbrev pub errors : VerifierResult FusionDetails → VerifierResult FusionDetails → List EngineName
errors stab_res enum_res =
    (if is_error stab_res.verdict then stab_fusion ∷ [] else [])
    ++ (if is_error enum_res.verdict then enum_fusion ∷ [] else [])

abbrev pub is_nonempty : List EngineName → Bool
is_nonempty [] = false
is_nonempty (_ ∷ _) = true

abbrev pub result : Verdict → AgreedDetails → VerifierResult AgreedDetails
result verdict details = record { verdict = verdict; details = details }

-- What follows the two runs in `verify_agreed`.
pub agree :
    Identity
    → Identity
    → VerifierResult FusionDetails
    → VerifierResult FusionDetails
    → VerifierResult AgreedDetails
agree stab_id enum_id stab_res enum_res =
    let details : AgreedDetails = record {
      stab_fusion_key = get_key stab_res.details;
      enum_fusion_key = get_key enum_res.details;
      stab_fusion_verdict = stab_res.verdict;
      enum_fusion_verdict = enum_res.verdict;
      stab_fusion_id = stab_id;
      enum_fusion_id = enum_id;
      error = [];
      disagreement = false;
    } in
    if is_nonempty (errors stab_res enum_res)
    then result Verdict.error (record details { error = errors stab_res enum_res })
    else if not (opt_eq details.stab_fusion_key details.enum_fusion_key)
        || not (is_same_verdict stab_res.verdict enum_res.verdict)
    then result Verdict.error (record details { disagreement = true })
    else result stab_res.verdict details

module _ (suite_hash : Text) (stab enum_v : Verifier Construction FusionDetails) where
  pub verify_agreed : Construction → Action (VerifierResult AgreedDetails)
  unfolding agree registry_verify
  verify_agreed c = do
    stab_res ← registry_verify suite_hash stab c
    enum_res ← registry_verify suite_hash enum_v c
    pure (agree (identity stab) (identity enum_v) stab_res enum_res)

  -- `certify_agreed`, of the identity `_AgreedIdentity`
  pub certify_agreed : Text → Identity → List (Construction × Verdict) → Action Certification
  unfolding certify_with_suite verify_agreed
  certify_agreed now (name, version, binary_hash) suite =
      certify_with_suite now name version binary_hash suite verify_agreed suite_hash

pub agreed_is_certified : Text → Identity → Action Bool
unfolding get_certification
agreed_is_certified suite_hash (name, version, binary_hash) = do
  cert ← get_certification name version binary_hash
  pure (is_current suite_hash cert)
