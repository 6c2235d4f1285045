-- ===== src/Ledger/Certifications/Stamps.antt =====
-- The stamp that a certification leaves, and what `require_certification` makes of it.
use empiricist.Base.{
  ◌≡◌, refl, ◌∙◌, inl, inr, Bool, true, false, not, ◌&&◌, Option, none, some, List, [], ◌∷◌, find,
  keep, arith, if◌then◌else◌, ◌==◌, Bool-cases,
}
use empiricist.Base.Rows.{find-append, or_else}
use empiricist.Ledger.Models.{Text, Certification, is_pass}
use empiricist.Ledger.Tables.{Db, ok, err, promotion_integrity_error}
use empiricist.Ledger.Certifications.{
  is_stamp_of, find_stamp, replace_stamp, add_certification, require_certification,
}

find-keep-none :
    (p q : Certification → Bool) (stamps : List Certification)
    → ((s : Certification) → p s ≡ true → q s ≡ true)
    → find p (keep (λ s. not (q s)) stamps) ≡ none
find-keep-none p q [] within = refl
find-keep-none p q (s ∷ stamps) within = ground (arith, within s, find-keep-none p q stamps within)

or_else-none : (o : Option Certification) → or_else o none ≡ o
or_else-none none = refl
or_else-none (some c) = refl

-- A row that the filter keeps is found as before.
find-keep_same :
    (p q : Certification → Bool) (stamps : List Certification)
    → ((s : Certification) → p s ≡ true → q s ≡ false)
    → find p (keep (λ s. not (q s)) stamps) ≡ find p stamps
find-keep_same p q [] apart = refl
find-keep_same p q (s ∷ stamps) apart = ground (arith, apart s, find-keep_same p q stamps apart)

abbrev is_stamp_like : Certification → Certification → Bool
is_stamp_like c s = is_stamp_of c.verifier c.verifier_version c.binary_hash s

pub replace_stamp-find :
    (c : Certification) (verifier version binary_hash : Text) (stamps : List Certification)
    → find (is_stamp_of verifier version binary_hash) (replace_stamp c stamps) ≡ (
        if is_stamp_of verifier version binary_hash c
        then some c
        else find (is_stamp_of verifier version binary_hash) stamps)
unfolding replace_stamp
replace_stamp-find c verifier version binary_hash stamps =
    let p = is_stamp_of verifier version binary_hash in
    find-append p (keep (λ s. not (is_stamp_like c s)) stamps) (c ∷ []) ∙ elim (Bool-cases (p c)) [
      | inl same ↦ ground (
        arith,
        same,
        find-keep-none p (is_stamp_like c) stamps (λ s at. ground (arith, same, at)),
      )
      | inr differs ↦ ground (
        arith,
        differs,
        or_else-none (find p (keep (λ s. not (is_stamp_like c s)) stamps)),
        find-keep_same p (is_stamp_like c) stamps (λ s at. ground (arith, differs, at)),
      )
    ]

pub add_certification-stamps :
    (c : Certification) (d : Db)
    → d.in_transaction ≡ false
    → ((add_certification c d).1).certifications ≡ replace_stamp c d.certifications
unfolding add_certification
add_certification-stamps c d idle = ground arith

require_certification-eq :
    (verifier version binary_hash suite : Text) (d : Db)
    → (require_certification verifier version binary_hash suite d).0
      ≡ (elim (find_stamp verifier version binary_hash d) [
        | none ↦ err promotion_integrity_error
        | some c ↦
            if is_pass c.verdict && (c.golden_suite_hash == suite)
            then ok c
            else err promotion_integrity_error
      ])
unfolding require_certification
require_certification-eq verifier version binary_hash suite d = ground arith

-- After `add_certification` outside a transaction `require_certification` of the same verifier,
-- version and binary returns the new stamp where its verdict is PASS and its golden suite is the
-- wanted one, and refuses otherwise, whatever older stamp there was; for every other verifier,
-- version or binary it answers as before.
pub require_certification_after :
    (c : Certification) (verifier version binary_hash suite : Text) (d : Db)
    → d.in_transaction ≡ false
    → (require_certification verifier version binary_hash suite (add_certification c d).1).0 ≡ (
        if is_stamp_of verifier version binary_hash c
        then if is_pass c.verdict && (c.golden_suite_hash == suite)
          then ok c
          else err promotion_integrity_error
        else (require_certification verifier version binary_hash suite d).0)
require_certification_after c verifier version binary_hash suite d idle =
    let after = (add_certification c d).1 in
    ground (
      arith,
      require_certification-eq verifier version binary_hash suite after,
      require_certification-eq verifier version binary_hash suite d,
      add_certification-stamps c d idle,
      replace_stamp-find c verifier version binary_hash d.certifications,
    )
