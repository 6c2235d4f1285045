-- ===== src/Verifiers/Engines.antt =====
-- Verifiers and their results: src/empiricist/verifiers/base.py, stab_fusion.py and enum_fusion.py.
-- The key of an orbit, the hash of a verifier's source and the texts of errors are parameters or
-- left out.
use empiricist.Base.{ℕ, Bool, Option, none, some, ◌==◌, if◌then◌else◌}
use empiricist.Ledger.Models.{Text, Verdict}
use empiricist.Fusion.Graphs.{GraphState}
use empiricist.Fusion.Construction.{Construction, fusion_count, Engine, apply_construction}

-- `VerifierResult`, by what its details are.
pub record VerifierResult (D : Type 0) : Type 0 where
  pub verdict : Verdict
  pub details : D

-- `Verifier`; `verify` does not raise.
pub record Verifier (C D : Type 0) : Type 0 where
  pub name : Text
  pub version : Text
  pub binary_hash : Text
  pub applicable : Text → Bool
  pub verify : C → VerifierResult D

-- The details of a fusion verifier: the keys and the count, or an error.
pub data FusionDetails : Type 0 where
  found : (lc_orbit_key : Text) (fusion_count : ℕ) (target_key : Text) → FusionDetails
  error_text : FusionDetails

-- `details.get("lc_orbit_key")`
abbrev pub get_key : FusionDetails → Option Text
get_key (found key count target) = some key
get_key error_text = none

abbrev pub error_result : VerifierResult FusionDetails
error_result = record { verdict = Verdict.error; details = error_text }

abbrev pub compared : Text → ℕ → Text → VerifierResult FusionDetails
compared result_key count target_key = record {
  verdict = if result_key == target_key then Verdict.pass else Verdict.fail;
  details = found result_key count target_key;
}

module _ {S : Type 0} (engine : Engine S) (lc_orbit_key : GraphState → Option Text) where
  -- `StabFusionVerifier.verify` and `EnumFusionVerifier.verify`
  unfoldable pub fusion_verify : Construction → VerifierResult FusionDetails
  fusion_verify c = elim (apply_construction engine c) [
    | none ↦ error_result
    | some result ↦ elim (lc_orbit_key result) [
      | none ↦ error_result
      | some result_key ↦ elim (lc_orbit_key c.target) [
        | none ↦ error_result
        | some target_key ↦ compared result_key (fusion_count c) target_key
      ]
    ]
  ]

  -- A fusion verifier, with the kind "construction".
  abbrev pub fusion_verifier : Text → Text → Text → Text → Verifier Construction FusionDetails
  fusion_verifier construction name version binary_hash = record {
    name = name;
    version = version;
    binary_hash = binary_hash;
    applicable = λ kind. kind == construction;
    verify = fusion_verify;
  }
