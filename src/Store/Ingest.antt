-- ===== src/Store/Ingest.antt =====
-- What `ingest_artifact` leaves in the store and in the ledger.
use empiricist.Base.{
  ◌≡◌, refl, ◌∙◌, ap, inl, inr, Bool, true, false, Option, none, some, ==_refl, Option-cases,
}
use empiricist.Ledger.Models.{Text, Artifact}
use empiricist.Ledger.Tables.{Db, Result, ok, err, integrity_error}
use empiricist.Ledger.Artifacts.{find_artifact, add_artifact, get_artifact}
use empiricist.Ledger.Artifacts.Lookup.{add_artifact-get_artifact, add_artifact_known}
use empiricist.Store.{Files, Request, artifact, added, put, verify, ingest_artifact}
use empiricist.Store.Contents.{Intact, put_ok}

-- What an ingestion comes to, by the artifact that already has the id.
abbrev pub Ends : Artifact → Result Artifact → Db → Db → Option Artifact → Type 0
Ends art result before after none = (result ≡ ok art) × ((get_artifact art.id after).0 ≡ ok art)
Ends art result before after (some _) = (result ≡ err integrity_error) × (after ≡ before)

module _ (is_digest : Text → Bool) (blake3 : Text → Text) where
  -- Outside a transaction, on an intact store and where the hash has the form of a digest,
  -- `ingest_artifact` stores the content under its hash, which is then verified, and the store
  -- stays intact. Where no artifact has the id it returns the artifact, whose content path is the
  -- hash and which `get_artifact` then returns; else it raises IntegrityError and leaves the ledger
  -- as it was.
  pub ingest_artifact_ok :
      (content : Text) (r : Request) (d : Db) (files : Files)
      → d.in_transaction ≡ false
      → is_digest (blake3 content) ≡ true
      → Intact is_digest blake3 files
      → let art = artifact r (blake3 content) in
        let (result, after, stored) = ingest_artifact is_digest blake3 content r d files in
        Intact is_digest blake3 stored
        × (verify is_digest blake3 (art.content_path) stored ≡ ok true)
        × Ends art result d after (find_artifact art.id d)
  unfolding ingest_artifact
  ingest_artifact_ok content r d files idle form h =
      let (returned, intact, verified, other, again) =
        put_ok is_digest blake3 content (blake3 content) files form h in
      let stored = (put is_digest blake3 content files).1 in
      let run : put is_digest blake3 content files ≡ (ok (blake3 content), stored) =
        ap (λ x. (x, stored)) returned in
      rw run (finish stored intact verified (add_artifact art d) (ended art stored))
    where
      art : Artifact
      art = artifact r (blake3 content)

      finish :
          (stored : Files)
          → Intact is_digest blake3 stored
          → verify is_digest blake3 (blake3 content) stored ≡ ok true
          → (w : Result (Unit {0}) × Db)
          → Ends art (added art w stored).0 d (added art w stored).1 (find_artifact art.id d)
          → let (result, after, kept) = added art w stored in
            Intact is_digest blake3 kept
            × (verify is_digest blake3 (blake3 content) kept ≡ ok true)
            × Ends art result d after (find_artifact art.id d)
      finish stored intact verified (ok _, after) h = (intact, verified, h)
      finish stored intact verified (err e, after) h = (intact, verified, h)

      ended :
          (art : Artifact) (stored : Files)
          → Ends art
              (added art (add_artifact art d) stored).0
              d
              (added art (add_artifact art d) stored).1
              (find_artifact art.id d)
      ended art stored = elim (Option-cases (find_artifact art.id d)) [
        | inl missing ↦
            let (wrote, got, twice) = add_artifact-get_artifact art art.id d idle missing in
            let after = (add_artifact art d).1 in
            let run : add_artifact art d ≡ (ok tt, after) = ap (λ x. (x, after)) wrote in
            rw (run, missing) (refl, got ∙ rw (==_refl art.id) refl)
        | inr (old, known) ↦ rw (add_artifact_known art d old idle known, known) (refl, refl)
      ]
