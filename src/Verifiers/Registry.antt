-- ===== src/Verifiers/Registry.antt =====
-- The registry of src/empiricist/verifiers/registry.py. The golden suite, its hash and the time are
-- parameters.
pub mod Trust
use empiricist.Base.{Bool, true, false, not, ◌&&◌, Option, none, some, List, [], ◌∷◌, if◌then◌else◌}
use empiricist.Ledger.Models.{Text, Verdict, Certification}
use empiricist.Ledger.Tables.{Db, uncertified_verifier, Action, pure, raise, ◌>>=◌, ◌>>◌, raise_if}
use empiricist.Ledger.Certifications.{add_certification, get_certification, is_current}
use empiricist.Verifiers.Engines.{VerifierResult, Verifier}

abbrev pub is_same_verdict : Verdict → Verdict → Bool
is_same_verdict Verdict.pass Verdict.pass = true
is_same_verdict Verdict.fail Verdict.fail = true
is_same_verdict Verdict.error Verdict.error = true
is_same_verdict Verdict.timeout Verdict.timeout = true
is_same_verdict _ _ = false

-- The loop over the suite, with `all_match`.
unfoldable pub run_suite :
    {C D : Type 0} → (C → Action (VerifierResult D)) → List (C × Verdict) → Bool → Action Bool
run_suite run [] all_match = pure all_match
run_suite run ((case, expected) ∷ suite) all_match = do
  outcome ← run case
  run_suite run suite (if is_same_verdict outcome.verdict expected then all_match else false)

abbrev pub stamp : Text → Text → Text → Text → Text → Bool → Certification
stamp now name version binary_hash suite_hash all_match = record {
  verifier = name;
  verifier_version = version;
  binary_hash = binary_hash;
  golden_suite_hash = suite_hash;
  verdict = if all_match then Verdict.pass else Verdict.fail;
  stamped_at = now;
  run_id = none;
}

-- `certify_with_suite`, of a verifier with the name, the version and the hash.
unfoldable pub certify_with_suite :
    {C D : Type 0}
    → Text
    → Text
    → Text
    → Text
    → List (C × Verdict)
    → (C → Action (VerifierResult D))
    → Text
    → Action Certification
unfolding run_suite
certify_with_suite now name version binary_hash suite run suite_hash = do
  all_match ← run_suite run suite true
  let cert = stamp now name version binary_hash suite_hash all_match in
      add_certification cert >> pure cert

module _ {C D : Type 0} (suite_hash : Text) where
  -- `Registry.verify`
  unfoldable pub registry_verify : Verifier C D → C → Action (VerifierResult D)
  unfolding get_certification
  registry_verify v case = do
    cert ← get_certification v.name v.version v.binary_hash
    raise_if (not (is_current suite_hash cert)) uncertified_verifier
    pure (v.verify case)

  -- `Registry.certify`
  pub certify : Text → List (C × Verdict) → Verifier C D → Action Certification
  unfolding certify_with_suite
  certify now suite v =
      certify_with_suite now v.name v.version v.binary_hash suite (λ case. pure (v.verify case))
        suite_hash
