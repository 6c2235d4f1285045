-- ===== src/Verifiers/Agreed/Certified.antt =====
-- The certification of the agreement itself.
use empiricist.Base.{
  ◌≡◌, refl, ◌∙◌, ap, inl, inr, Bool, true, false, ◌&&◌, List, ◌∷◌, ◌==◌, if◌then◌else◌, Bool-cases,
  ==_refl,
}
use empiricist.Ledger.Models.{Text, Verdict, Certification, is_pass}
use empiricist.Ledger.Tables.{Db, Result, ok, err, uncertified_verifier, pure, ◌>>◌, >>=-err_eq}
use empiricist.Ledger.Certifications.{find_stamp, add_certification, get_certification, is_current}
use empiricist.Fusion.Construction.{Construction}
use empiricist.Verifiers.Engines.{VerifierResult, Verifier, FusionDetails}
use empiricist.Verifiers.Registry.{is_same_verdict, run_suite, stamp, certify_with_suite}
use empiricist.Verifiers.Registry.Trust.{meets, certify_with_suite-eq, is_current-find_stamp}
use empiricist.Verifiers.Agreed.{
  AgreedDetails, Identity, identity, agree, verify_agreed, certify_agreed, agreed_is_certified,
}
use empiricist.Verifiers.Agreed.Verdicts.{is_trusted, verify_agreed-eq}

agreed_is_certified-eq :
    (suite_hash : Text) (id : Identity) (d : Db)
    → agreed_is_certified suite_hash id d
      ≡ (ok (is_current suite_hash (find_stamp id.0 id.1 id.2 d)), d)
unfolding agreed_is_certified get_certification
agreed_is_certified-eq suite_hash id d = refl

module _ (suite_hash : Text) (stab enum_v : Verifier Construction FusionDetails) where
  -- The verdicts of the agreement where both verifiers may run.
  abbrev pub agreed : Construction → VerifierResult AgreedDetails
  agreed c = agree (identity stab) (identity enum_v) (stab.verify c) (enum_v.verify c)

  abbrev pub both_trusted : Db → Bool
  both_trusted d = is_trusted suite_hash stab d && is_trusted suite_hash enum_v d

  certified :
      (now : Text) (id : Identity) (suite : List (Construction × Verdict)) (d : Db)
      → d.in_transaction ≡ false
      → both_trusted d ≡ true
      → let cert = stamp now id.0 id.1 id.2 suite_hash (meets agreed suite) in
        certify_agreed suite_hash stab enum_v now id suite d
        ≡ (ok cert, (add_certification cert d).1)
  unfolding certify_agreed
  certified now id suite d idle both =
      certify_with_suite-eq now id.0 id.1 id.2 suite (verify_agreed suite_hash stab enum_v) agreed
        suite_hash d idle (λ c. verify_agreed-eq suite_hash stab enum_v c d ∙ rw both refl)

  refused :
      (now : Text) (id : Identity) (case : Construction × Verdict)
      (suite : List (Construction × Verdict)) (d : Db)
      → both_trusted d ≡ false
      → certify_agreed suite_hash stab enum_v now id (case ∷ suite) d
        ≡ (err uncertified_verifier, d)
  unfolding certify_agreed certify_with_suite run_suite
  refused now id (c, expected) suite d h =
      >>=-err_eq (run_suite (verify_agreed suite_hash stab enum_v) ((c, expected) ∷ suite) true)
        (λ all_match.
          add_certification (stamp now id.0 id.1 id.2 suite_hash all_match)
          >> pure (stamp now id.0 id.1 id.2 suite_hash all_match))
        d uncertified_verifier
        (>>=-err_eq (verify_agreed suite_hash stab enum_v c)
          (λ outcome.
            run_suite (verify_agreed suite_hash stab enum_v) suite
              (if is_same_verdict outcome.verdict expected then true else false))
          d uncertified_verifier (verify_agreed-eq suite_hash stab enum_v c d ∙ rw h refl))

  -- Outside a transaction and over a suite with a case, `certify_agreed` raises and writes nothing
  -- unless both fusion verifiers hold a PASS stamp of the suite. Else it stamps the identity of the
  -- agreement, and afterwards `agreed_is_certified` holds of it exactly if the agreement's verdict
  -- is the expected one on every case.
  pub certify_agreed_ok :
      (now : Text) (id : Identity) (case : Construction × Verdict)
      (suite : List (Construction × Verdict)) (d : Db)
      → d.in_transaction ≡ false
      → let cert = stamp now id.0 id.1 id.2 suite_hash (meets agreed (case ∷ suite)) in
        let ended = certify_agreed suite_hash stab enum_v now id (case ∷ suite) d in
        (ended ≡ (
          if both_trusted d
          then (ok cert, (add_certification cert d).1)
          else (err uncertified_verifier, d)))
        × ((agreed_is_certified suite_hash id ended.1).0 ≡ (
            if both_trusted d
            then ok (meets agreed (case ∷ suite))
            else (agreed_is_certified suite_hash id d).0))
  certify_agreed_ok now id case suite d idle = elim (Bool-cases (both_trusted d)) [
    | inr off ↦
        let run = refused now id case suite d off in
        (
          rw off run,
          rw off (
              ap (λ (r : Result Certification × Db). (agreed_is_certified suite_hash id r.1).0)
                run),
        )
    | inl both ↦
        let cert = stamp now id.0 id.1 id.2 suite_hash (meets agreed (case ∷ suite)) in
        let run = certified now id (case ∷ suite) d idle both in
        (
          rw both run,
          rw both (
              ap (λ (r : Result Certification × Db). (agreed_is_certified suite_hash id r.1).0) run
              ∙ ap (λ r. r.0) (agreed_is_certified-eq suite_hash id (add_certification cert d).1)
              ∙ ap ok (
                  is_current-find_stamp cert id.0 id.1 id.2 suite_hash d idle
                  ∙ own (meets agreed (case ∷ suite)))),
        )
  ]
    where
      own :
          (b : Bool)
          → (if id.0 == id.0 && id.1 == id.1 && id.2 == id.2
              then is_pass (if b then Verdict.pass else Verdict.fail) && suite_hash == suite_hash
              else is_current suite_hash (find_stamp id.0 id.1 id.2 d))
            ≡ b
      own true = rw (==_refl id.0, ==_refl id.1, ==_refl id.2, ==_refl suite_hash) refl
      own false = rw (==_refl id.0, ==_refl id.1, ==_refl id.2) refl
