-- ===== src/Tests/Verifiers.antt =====
-- The witnesses of the verifiers and of the rate limits.
use empiricist.Base.{
  ℕ, ◌≡◌, refl, true, ◌&&◌, Bool, Option, none, some, List, [], ◌∷◌, ◌==◌, if◌then◌else◌,
}
use empiricist.Ledger.Models.{Text, Verdict}
use empiricist.Ledger.Tables.{Db, ok, err, uncertified_verifier}
use empiricist.Ledger.Certifications.{add_certification}
use empiricist.Fusion.Graphs.{GraphState}
use empiricist.Fusion.Construction.{Construction}
use empiricist.Verifiers.Engines.{Verifier, FusionDetails, fusion_verifier}
use empiricist.Verifiers.Registry.{stamp, registry_verify, certify}
use empiricist.Verifiers.Registry.Trust.{meets, has_identity, certify_then_verify}
use empiricist.Verifiers.Agreed.{verify_agreed, certify_agreed, agreed_is_certified}
use empiricist.Verifiers.Agreed.Verdicts.{
  keys_of, agreement, is_trusted, judged_result, verify_agreed_ok,
}
use empiricist.Verifiers.Agreed.Certified.{agreed, both_trusted, certify_agreed_ok}
use empiricist.Llm.Throttle.{ThrottlePolicy, round}
use empiricist.Llm.Throttle.Delays.{Rests, round_ok}
use empiricist.Tests.Fusion.{counter, chain}
use empiricist.Tests.Samples.{db}

abbrev key : GraphState → Option Text
key g = some g.n

abbrev stab : Verifier Construction FusionDetails
stab = fusion_verifier counter key 5 1 1 11

abbrev enum_v : Verifier Construction FusionDetails
enum_v = fusion_verifier counter key 5 2 1 12

abbrev suite : List (Construction × Verdict)
suite = (chain, Verdict.pass) ∷ []

certify_then_verify_example :
    ((certify 40 99 suite stab db).0
      ≡ ok (stamp 99 stab.name stab.version stab.binary_hash 40 (meets stab.verify suite)))
    × ((registry_verify 40 enum_v chain (certify 40 99 suite stab db).1).0 ≡ (
        if has_identity stab enum_v
        then if meets stab.verify suite then ok (enum_v.verify chain) else err uncertified_verifier
        else (registry_verify 40 enum_v chain db).0))
certify_then_verify_example = certify_then_verify 40 99 suite stab enum_v chain db refl

verify_agreed_ok_example :
    (judged_result (verify_agreed 40 stab enum_v chain db).0 ≡ (
      if is_trusted 40 stab db && is_trusted 40 enum_v db
      then some (agreement (keys_of counter key chain) (keys_of counter key chain))
      else none))
    × ((verify_agreed 40 stab enum_v chain db).1 ≡ db)
verify_agreed_ok_example = verify_agreed_ok counter counter key 40 5 (1, 1, 11) (2, 1, 12) chain db

certify_agreed_ok_example :
    let cert = stamp 99 3 1 13 40 (meets (agreed 40 stab enum_v) suite) in
    let ended = certify_agreed 40 stab enum_v 99 (3, 1, 13) suite db in
    (ended ≡ (
      if both_trusted 40 stab enum_v db
      then (ok cert, (add_certification cert db).1)
      else (err uncertified_verifier, db)))
    × ((agreed_is_certified 40 (3, 1, 13) ended.1).0 ≡ (
        if both_trusted 40 stab enum_v db
        then ok (meets (agreed 40 stab enum_v) suite)
        else (agreed_is_certified 40 (3, 1, 13) db).0))
certify_agreed_ok_example =
    certify_agreed_ok 40 stab enum_v 99 (3, 1, 13) (chain, Verdict.pass) [] db refl

abbrev policy : ThrottlePolicy
policy = record { base_s = 60; max_s = 900; max_attempts = 5 }

-- A client that answers at the third attempt.
abbrev client : ℕ → Db → Option ℕ × Db
client attempt d = (if attempt == 3 then some attempt else none, d)

abbrev any_answer : ℕ → Bool
any_answer r = true

abbrev run_ids : ℕ → Text
run_ids attempt = attempt

round_ok_example :
    Rests 5 any_answer run_ids client policy 1 (round 5 any_answer run_ids client (some policy) db)
round_ok_example = round_ok 5 any_answer run_ids client policy db refl
