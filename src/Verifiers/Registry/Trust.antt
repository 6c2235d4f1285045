-- ===== src/Verifiers/Registry/Trust.antt =====
-- What a certification makes of later calls of the registry.
use empiricist.Base.{
  ◌≡◌, refl, ◌∙◌, ap, inl, inr, Bool, true, false, ◌&&◌, some, List, [], ◌∷◌, all, find, ◌==◌,
  arith, if◌then◌else◌, Bool-cases, ==_refl,
}
use empiricist.Ledger.Models.{Text, Verdict, Certification, is_pass}
use empiricist.Ledger.Tables.{Db, ok, err, uncertified_verifier, Action, pure, ◌>>◌, Result, >>=-eq}
use empiricist.Ledger.Certifications.{
  is_stamp_of, find_stamp, add_certification, is_current, get_certification,
}
use empiricist.Ledger.Certifications.Stamps.{add_certification-stamps, replace_stamp-find}
use empiricist.Verifiers.Engines.{VerifierResult, Verifier}
use empiricist.Verifiers.Registry.{
  is_same_verdict, run_suite, stamp, certify_with_suite, registry_verify, certify,
}

-- The verdict is the expected one on every case.
abbrev pub meets : {C D : Type 0} → (C → VerifierResult D) → List (C × Verdict) → Bool
meets run suite = all (λ (case, expected). is_same_verdict (run case).verdict expected) suite

-- The two verifiers have the name, the version and the hash in common.
abbrev pub has_identity : {C D E F : Type 0} → Verifier C D → Verifier E F → Bool
has_identity v w = v.name == w.name && v.version == w.version && v.binary_hash == w.binary_hash

pub run_suite-eq :
    {C D : Type 0} (run : C → Action (VerifierResult D)) (verify : C → VerifierResult D)
    (suite : List (C × Verdict)) (b : Bool) (d : Db)
    → ((case : C) → run case d ≡ (ok (verify case), d))
    → run_suite run suite b d ≡ (ok (b && meets verify suite), d)
unfolding run_suite
run_suite-eq run verify [] b d h = ap (λ x. (ok x, d)) (right b)
  where
    right : (b : Bool) → b ≡ (b && true)
    right b = ground arith
run_suite-eq run verify ((case, expected) ∷ suite) b d h =
    >>=-eq (run case)
      (λ outcome.
        run_suite run suite (if is_same_verdict outcome.verdict expected then b else false))
      d d (verify case) (h case)
    ∙ run_suite-eq run verify suite
        (if is_same_verdict (verify case).verdict expected then b else false) d h
    ∙ ap (λ x. (ok x, d))
        (joined (is_same_verdict (verify case).verdict expected) b (meets verify suite))
  where
    joined : (x b y : Bool) → ((if x then b else false) && y) ≡ (b && (x && y))
    joined x b y = ground arith

add_certification-result :
    (c : Certification) (d : Db) → d.in_transaction ≡ false → (add_certification c d).0 ≡ ok tt
unfolding add_certification
add_certification-result c d idle = ground arith

pub certify_with_suite-eq :
    {C D : Type 0} (now name version binary_hash : Text) (suite : List (C × Verdict))
    (run : C → Action (VerifierResult D)) (verify : C → VerifierResult D) (suite_hash : Text)
    (d : Db)
    → d.in_transaction ≡ false
    → ((case : C) → run case d ≡ (ok (verify case), d))
    → let cert = stamp now name version binary_hash suite_hash (meets verify suite) in
      certify_with_suite now name version binary_hash suite run suite_hash d
      ≡ (ok cert, (add_certification cert d).1)
unfolding certify_with_suite
certify_with_suite-eq now name version binary_hash suite run verify suite_hash d idle h =
    let cert = stamp now name version binary_hash suite_hash (meets verify suite) in
    >>=-eq (run_suite run suite true)
      (λ all_match.
        add_certification (stamp now name version binary_hash suite_hash all_match)
        >> pure (stamp now name version binary_hash suite_hash all_match))
      d d (meets verify suite) (run_suite-eq run verify suite true d h)
    ∙ >>=-eq (add_certification cert) (λ _. pure cert) d (add_certification cert d).1 tt
        (ap (λ (r : Result (Unit {0})). (r, (add_certification cert d).1))
          (add_certification-result cert d idle))

pub registry_verify-eq :
    {C D : Type 0} (suite_hash : Text) (v : Verifier C D) (case : C) (d : Db)
    → registry_verify suite_hash v case d ≡ (
      if is_current suite_hash (find_stamp v.name v.version v.binary_hash d)
          then ok (v.verify case)
          else err uncertified_verifier,
      d,
    )
unfolding registry_verify get_certification
registry_verify-eq suite_hash v case d =
    elim (Bool-cases (is_current suite_hash (find_stamp v.name v.version v.binary_hash d))) [
      | inl current ↦ rw current refl
      | inr outdated ↦ rw outdated refl
    ]

-- The stamp that a PASS or a FAIL leaves is current exactly for a PASS.
pub is_current-find_stamp :
    (c : Certification) (verifier version binary_hash suite_hash : Text) (d : Db)
    → d.in_transaction ≡ false
    → is_current suite_hash (find_stamp verifier version binary_hash (add_certification c d).1) ≡ (
        if is_stamp_of verifier version binary_hash c
        then is_pass c.verdict && c.golden_suite_hash == suite_hash
        else is_current suite_hash (find_stamp verifier version binary_hash d))
is_current-find_stamp c verifier version binary_hash suite_hash d idle =
    ap (λ cs. is_current suite_hash (find (is_stamp_of verifier version binary_hash) cs))
      (add_certification-stamps c d idle)
    ∙ ap (is_current suite_hash)
        (replace_stamp-find c verifier version binary_hash d.certifications)
    ∙ split (is_stamp_of verifier version binary_hash c)
  where
    split :
        (b : Bool)
        → is_current suite_hash
            (if b then some c else find (is_stamp_of verifier version binary_hash) d.certifications)
          ≡ (if b
              then is_pass c.verdict && c.golden_suite_hash == suite_hash
              else is_current suite_hash (find_stamp verifier version binary_hash d))
    split true = refl
    split false = refl

-- Outside a transaction `Registry.certify` returns a stamp, PASS exactly if the verifier's verdict
-- is the expected one on every case of the suite. Afterwards `Registry.verify` runs a verifier with
-- the same name, version and hash exactly in that case, whatever stamp it had before, and treats
-- every other verifier as before.
pub certify_then_verify :
    {C D : Type 0} (suite_hash now : Text) (suite : List (C × Verdict)) (v w : Verifier C D)
    (case : C) (d : Db)
    → d.in_transaction ≡ false
    → ((certify suite_hash now suite v d).0
        ≡ ok (stamp now v.name v.version v.binary_hash suite_hash (meets v.verify suite)))
      × ((registry_verify suite_hash w case (certify suite_hash now suite v d).1).0 ≡ (
          if has_identity v w
          then if meets v.verify suite then ok (w.verify case) else err uncertified_verifier
          else (registry_verify suite_hash w case d).0))
unfolding certify
certify_then_verify suite_hash now suite v w case d idle =
    let cert = stamp now v.name v.version v.binary_hash suite_hash (meets v.verify suite) in
    let run =
      certify_with_suite-eq now v.name v.version v.binary_hash suite (λ c. pure (v.verify c))
        v.verify suite_hash d idle (λ c. refl) in
    (
      ap (λ r. r.0) run,
      rw
          (
            run,
            registry_verify-eq suite_hash w case (add_certification cert d).1,
            registry_verify-eq suite_hash w case d,
            is_current-find_stamp cert w.name w.version w.binary_hash suite_hash d idle,
          )
          (split (has_identity v w) (meets v.verify suite)
            (is_current suite_hash (find_stamp w.name w.version w.binary_hash d))),
    )
  where
    split :
        (same met old : Bool)
        → (if (if same
              then is_pass (if met then Verdict.pass else Verdict.fail) && suite_hash == suite_hash
              else old)
            then ok (w.verify case)
            else err uncertified_verifier)
          ≡ (if same
              then if met then ok (w.verify case) else err uncertified_verifier
              else if old
              then ok (w.verify case)
              else err uncertified_verifier)
    split true true old = rw (==_refl suite_hash) refl
    split true false old = refl
    split false met old = refl
