-- ===== src/Ledger/Certifications.antt =====
-- The certification stamps and the edges of src/empiricist/ledger/db.py.
pub mod Stamps
use empiricist.Base.{
  Bool, true, false, not, ◌&&◌, Option, none, some, List, [], ◌∷◌, ◌++◌, find, keep, ◌==◌,
}
use empiricist.Ledger.Models.{Text, Certification, is_pass}
use empiricist.Ledger.Tables.{
  Db, integrity_error, promotion_integrity_error, Relation, other, Edge, Action, pure, raise,
  select, ◌>>=◌, ◌>>◌, raise_if, write, transaction,
}

-- The primary key of `certifications`.
abbrev pub is_stamp_of : Text → Text → Text → Certification → Bool
is_stamp_of verifier version binary_hash c =
    c.verifier == verifier && c.verifier_version == version && c.binary_hash == binary_hash

abbrev pub find_stamp : Text → Text → Text → Db → Option Certification
find_stamp verifier version binary_hash d =
    find (is_stamp_of verifier version binary_hash) d.certifications

-- INSERT OR REPLACE: the row with the same key goes, and the new one stands last.
pub replace_stamp : Certification → List Certification → List Certification
replace_stamp c stamps =
    keep (λ s. not (is_stamp_of c.verifier c.verifier_version c.binary_hash s)) stamps ++ c ∷ []

unfoldable pub add_certification : Certification → Action (Unit {0})
unfolding replace_stamp
add_certification cert = transaction do
  write (λ d. record d { certification_attempts = d.certification_attempts ++ cert ∷ [] })
  write (λ d. record d { certifications = replace_stamp cert d.certifications })

unfoldable pub get_certification : Text → Text → Text → Action (Option Certification)
get_certification verifier version binary_hash = select (find_stamp verifier version binary_hash)

abbrev is_pass_stamp : Option Certification → Bool
is_pass_stamp none = false
is_pass_stamp (some c) = is_pass c.verdict

unfoldable is_certified : Text → Text → Text → Action Bool
is_certified verifier version binary_hash =
    select λ d. is_pass_stamp (find_stamp verifier version binary_hash d)

-- A stamp that is missing, is no PASS, or was earned against another golden suite.
abbrev pub is_current : Text → Option Certification → Bool
is_current suite none = false
is_current suite (some c) = is_pass c.verdict && c.golden_suite_hash == suite

abbrev or_refuse : Text → Option Certification → Action Certification
or_refuse suite none = raise promotion_integrity_error
or_refuse suite (some c) =
    raise_if (not (is_current suite (some c))) promotion_integrity_error >> pure c

pub require_certification : Text → Text → Text → Text → Action Certification
unfolding get_certification
require_certification verifier version binary_hash suite = do
  or_refuse suite (← get_certification verifier version binary_hash)

abbrev is_other : Relation → Bool
is_other (other _) = true
is_other _ = false

unfoldable pub add_edge : Edge → Action (Unit {0})
add_edge e = transaction do
  raise_if (is_other e.rel) integrity_error
  write (λ d. record d { edges = d.edges ++ e ∷ [] })

unfoldable edges_from : Text → Action (List Edge)
edges_from src = select λ d. keep (λ e. e.src == src) d.edges
