-- ===== src/Store/Contents.antt =====
-- What the store holds after a `put`.
use empiricist.Base.{
  ◌≡◌, refl, sym, ◌∙◌, ap, subst, inl, inr, Bool, true, false, not, ◌&&◌, some, [], ◌∷◌, is_some,
  ◌==◌, ==_refl, ==_iff, All, arith, if◌then◌else◌, Bool-cases, Option-cases,
}
use empiricist.Ledger.Models.{Text}
use empiricist.Ledger.Tables.{ok}
use empiricist.Store.{Files, content_at, path_for, exists, put, get, verify}

module _ (is_digest : Text → Bool) (blake3 : Text → Text) where
  -- Every file has the digest of its content for its name.
  abbrev pub Intact : Files → Type 0
  Intact files = All (λ (name, content). blake3 content ≡ name) files

  content_at-Intact :
      (digest : Text) (files : Files) {content : Text}
      → Intact files
      → content_at digest files ≡ some content
      → blake3 content ≡ digest
  content_at-Intact digest [] h e = cc
  content_at-Intact digest ((name, c) ∷ files) {content} (h, hs) e =
      elim (Bool-cases (name == digest)) [
        | inl hit ↦
            let same : c ≡ content = ground (arith, hit, e) in
            ap blake3 (sym same) ∙ h ∙ (==_iff name digest).0 hit
        | inr miss ↦ content_at-Intact digest files hs (ground (arith, miss, e))
      ]

  -- What `put` leaves, by whether the digest was there.
  abbrev stored : Text → Files → Files
  stored content files =
      if is_some (content_at (blake3 content) files)
      then files
      else (blake3 content, content) ∷ files

  put-stored :
      (content : Text) (files : Files)
      → is_digest (blake3 content) ≡ true
      → put is_digest blake3 content files ≡ (ok (blake3 content), stored content files)
  unfolding put path_for
  put-stored content files form = elim (Bool-cases (is_some (content_at (blake3 content) files))) [
    | inl there ↦ rw (form, there) refl
    | inr missing ↦ rw (form, missing) refl
  ]

  stored-content_at :
      (content : Text) (files : Files)
      → is_some (content_at (blake3 content) (stored content files)) ≡ true
  stored-content_at content files =
      elim (Bool-cases (is_some (content_at (blake3 content) files))) [
        | inl there ↦ rw (there) there
        | inr missing ↦ rw (missing, ==_refl (blake3 content)) refl
      ]

  Intact-stored : (content : Text) (files : Files) → Intact files → Intact (stored content files)
  Intact-stored content files h = elim (Bool-cases (is_some (content_at (blake3 content) files))) [
    | inl there ↦ rw there h
    | inr missing ↦ rw missing (refl, h)
  ]

  -- Where the hash of the content has the form of a digest and every stored content has the hash
  -- that it is stored under, `put` returns the hash. Afterwards that is still so, the hash is
  -- verified, `get` of every other digest is as before, and of the hash too if it was stored, and
  -- else the content; and another `put` of the content changes nothing.
  pub put_ok :
      (content digest : Text) (files : Files)
      → is_digest (blake3 content) ≡ true
      → Intact files
      → let after = (put is_digest blake3 content files).1 in
        ((put is_digest blake3 content files).0 ≡ ok (blake3 content))
        × Intact after
        × (verify is_digest blake3 (blake3 content) after ≡ ok true)
        × (get is_digest blake3 digest after ≡ (
            if digest == blake3 content && not (is_some (content_at digest files))
            then ok content
            else get is_digest blake3 digest files))
        × (put is_digest blake3 content after ≡ (ok (blake3 content), after))
  unfolding get verify exists path_for
  put_ok content digest files form h =
      let run = put-stored content files form in
      rw run (
        refl,
        Intact-stored content files h,
        verified (stored content files) (Intact-stored content files h)
            (stored-content_at content files),
        same_get,
        put-stored content (stored content files) form ∙ rw (stored-content_at content files) refl,
      )
    where
      verified :
          (after : Files)
          → Intact after
          → is_some (content_at (blake3 content) after) ≡ true
          → verify is_digest blake3 (blake3 content) after ≡ ok true
      verified after intact there = elim (Option-cases (content_at (blake3 content) after)) [
        | inl missing ↦ absurd (ground (arith, there, missing))
        | inr (c, e) ↦
            rw
              (form, e, content_at-Intact (blake3 content) after intact e, ==_refl (blake3 content))
              refl
      ]

      same_get : get is_digest blake3 digest (stored content files) ≡ (
          if digest == blake3 content && not (is_some (content_at digest files))
          then ok content
          else get is_digest blake3 digest files)
      same_get = elim (Bool-cases (is_some (content_at (blake3 content) files))) [
        | inl there ↦ elim (Bool-cases (digest == blake3 content)) [
          | inl hit ↦
              let there_too =
                subst (λ x. is_some (content_at x files) ≡ true)
                  (sym ((==_iff digest (blake3 content)).0 hit)) there in
              rw (there, hit, there_too) refl
          | inr miss ↦ rw (there, miss) refl
        ]
        | inr missing ↦ elim (Bool-cases (digest == blake3 content)) [
          | inl hit ↦
              let at = (==_iff digest (blake3 content)).0 hit in
              let missing_too =
                subst (λ x. is_some (content_at x files) ≡ false) (sym at) missing in
              let form_too = subst (λ x. is_digest x ≡ true) (sym at) form in
              let back : (blake3 content == digest) ≡ true = ground (arith, at) in
              rw (missing, hit, missing_too, form_too, back) refl
          | inr miss ↦
              let back : (blake3 content == digest) ≡ false = ground (arith, miss) in
              ground (arith, missing, miss, back)
        ]
      ]
