-- ===== src/Ledger/Artifacts/Lookup.antt =====
-- What `add_artifact` stores, `get_artifact` returns.
use empiricist.Base.{
  ◌≡◌, refl, inl, inr, false, none, some, [], ◌∷◌, ◌++◌, arith, if◌then◌else◌, ◌==◌, ==_refl,
  Bool-cases, Option-cases,
}
use empiricist.Base.Rows.{find-append}
use empiricist.Ledger.Models.{Text, Artifact}
use empiricist.Ledger.Tables.{Db, ok, err, integrity_error}
use empiricist.Ledger.Artifacts.{find_artifact, insert_artifact, add_artifact, get_artifact}

add_artifact_new :
    (art : Artifact) (d : Db)
    → d.in_transaction ≡ false
    → find_artifact art.id d ≡ none
    → add_artifact art d ≡ (ok tt, record d { artifacts = d.artifacts ++ art ∷ [] })
unfolding add_artifact insert_artifact
add_artifact_new art d idle missing = ground (arith, missing)

pub add_artifact_known :
    (art : Artifact) (d : Db) (old : Artifact)
    → d.in_transaction ≡ false
    → find_artifact art.id d ≡ some old
    → add_artifact art d ≡ (err integrity_error, d)
unfolding add_artifact insert_artifact
add_artifact_known art d old idle found = ground (arith, found)

-- Outside a transaction: where no artifact has the id, `add_artifact` succeeds, `get_artifact` of
-- the id then returns the artifact, of any other id answers as before, and a second `add_artifact`
-- of the same artifact raises IntegrityError and changes nothing.
pub add_artifact-get_artifact :
    (art : Artifact) (id : Text) (d : Db)
    → d.in_transaction ≡ false
    → find_artifact art.id d ≡ none
    → let after = (add_artifact art d).1 in
      ((add_artifact art d).0 ≡ ok tt)
      × ((get_artifact id after).0 ≡ (if id == art.id then ok art else (get_artifact id d).0))
      × (add_artifact art after ≡ (err integrity_error, after))
unfolding get_artifact
add_artifact-get_artifact art id d idle missing =
    let e = add_artifact_new art d idle missing in
    let added = λ (k : Text). find-append (λ a. a.id == k) d.artifacts (art ∷ []) in
    rw e (
      refl,
      elim (Bool-cases (id == art.id)) [
        | inl same ↦ ground (arith, added art.id, missing, same, ==_refl art.id)
        | inr differs ↦ elim (Option-cases (find_artifact id d)) [
          | inl absent ↦ ground (arith, added id, absent, differs)
          | inr (a, found) ↦ ground (arith, added id, found, differs)
        ]
      ],
      add_artifact_known art _ art idle (ground (arith, added art.id, missing, ==_refl art.id)),
    )
