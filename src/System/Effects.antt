-- ===== src/System/Effects.antt =====
-- What a request may do to the artifacts and the evidence: the evidence grows, and every artifact
-- is still there, at its old status or at one that it has climbed to on evidence.
use mathlib.Core.List.{append-nil}
use empiricist.Base.{
  ◌≤◌, ◌≡◌, refl, sym, ◌∙◌, update, ◌≢◌, ◌⊎◌, inl, inr, Bool, true, ◌&&◌, some, List, [], ◌∷◌, ◌++◌,
  any, ◌==◌, subst, Bool-cases, ==_iff, ap, if◌then◌else◌,
}
use empiricist.Base.Rows.{find-append, find-update, rewrite_at}
use empiricist.Ledger.Models.{Text, Status, rank, Verdict, Artifact, EvidenceRow, is_pass, is_fail}
use empiricist.Ledger.Tables.{Db}
use empiricist.Ledger.Artifacts
use empiricist.Ledger.Artifacts.{find_artifact, RelabelEnv, relabelled}
use empiricist.System.Frames.{Same}

-- REFUTED rests on a FAIL, any other status on a PASS.
abbrev pub supports : Status → Verdict → Bool
supports Status.refuted v = is_fail v
supports _ v = is_pass v

-- Some evidence row of the artifact supports the status.
abbrev pub Backed : Text → Status → Db → Type 0
Backed id status d = any (λ e. e.artifact_id == id && supports status e.verdict) d.evidence ≡ true

-- From a live status: to REFUTED, or to a rank that is no lower.
abbrev pub Climbs : Status → Status → Type 0
Climbs old new = (old ≢ Status.refuted) × ((new ≡ Status.refuted) ⊎ (rank old ≤ rank new))

-- The artifact is still there, and its status is the old one or has climbed on evidence.
abbrev pub Kept : Text → Artifact → Db → Type 0
Kept id a d' =
    (a' : Artifact) × (find_artifact id d' ≡ some a')
    × ((a'.status ≡ a.status) ⊎ (Climbs a.status a'.status × Backed id a'.status d'))

-- What every request guarantees.
pub record Effect (d d' : Db) : Type 0 where
  pub more : List EvidenceRow
  pub grows : d'.evidence ≡ d.evidence ++ more
  pub kept : (id : Text) (a : Artifact) → find_artifact id d ≡ some a → Kept id a d'

pub Same-Effect : {d d' : Db} → Same d d' → Effect d d'
Same-Effect {d} {d'} (artifacts, evidence) = record {
  more = [];
  grows = evidence ∙ sym (append-nil _);
  kept = λ id a found. (a, rw artifacts found, inl refl);
}

-- A row that is written last hides no row that was found before.
pub append-Kept :
    (rows : List Artifact) (d d' : Db)
    → d'.artifacts ≡ d.artifacts ++ rows
    → (id : Text) (a : Artifact) → find_artifact id d ≡ some a
    → Kept id a d'
append-Kept rows d d' e id a found =
    (a, rw (e, find-append (λ (x : Artifact). x.id == id), found) refl, inl refl)

-- An UPDATE at one id that keeps the ids.
pub update-Kept :
    (key : Text) (f : Artifact → Artifact) (d d' : Db)
    → ((x : Artifact) → (f x).id ≡ x.id)
    → d'.artifacts ≡ update (λ a. a.id == key) f d.artifacts
    → ((x : Artifact)
        → find_artifact key d ≡ some x
        → ((f x).status ≡ x.status) ⊎ (Climbs x.status (f x).status × Backed key (f x).status d'))
    → (id : Text) (a : Artifact) → find_artifact id d ≡ some a
    → Kept id a d'
update-Kept key f d d' keeps e moves id a found = elim (Bool-cases (id == key)) [
  | inl same ↦
      let p = (==_iff id key).0 same in
      (
        f a,
        after ∙ ap (λ (b : Bool). some (if b then f a else a)) same,
        subst
            (λ (k : Text).
              ((f a).status ≡ a.status) ⊎ (Climbs a.status (f a).status × Backed k (f a).status d'))
            (sym p) (moves a (subst (λ (k : Text). find_artifact k d ≡ some a) p found)),
      )
  | inr differs ↦ (a, after ∙ ap (λ (b : Bool). some (if b then f a else a)) differs, inl refl)
]
  where
    after : find_artifact id d' ≡ rewrite_at (id == key) f (some a)
    after = rw (e, find-update (λ (x : Artifact). x.id) f key id d.artifacts keeps, found) refl

pub add_artifact-Effect : (art : Artifact) (d : Db) → Effect d (Artifacts.add_artifact art d).1
add_artifact-Effect art d =
    let (evidence, artifacts) = Artifacts.add_artifact_writes art d in
    elim artifacts [
      | inl same ↦ Same-Effect (same, evidence)
      | inr added ↦ record {
        more = [];
        grows = evidence ∙ sym (append-nil _);
        kept = append-Kept (art ∷ []) d (Artifacts.add_artifact art d).1 added;
      }
    ]

pub relabel_artifact-Effect :
    (env : RelabelEnv) (id problem note : Text) (d : Db)
    → Effect d (Artifacts.relabel_artifact env id problem note d).1
relabel_artifact-Effect env id problem remark d =
    let (evidence, artifacts) = Artifacts.relabel_artifact_writes env id problem remark d in
    elim artifacts [
      | inl same ↦ Same-Effect (same, evidence)
      | inr new ↦ record {
        more = [];
        grows = evidence ∙ sym (append-nil _);
        kept =
            update-Kept id (relabelled (env.strip problem)) d
              (Artifacts.relabel_artifact env id problem remark d).1 (λ x. refl) new
              (λ x _. inl refl);
      }
    ]
