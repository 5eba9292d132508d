-- ===== src/Api/Media.antt =====
-- app/api/media.py: `serve`. The cached images are a parameter, by round and owner.
use emoselfie_be.Prelude.{
  ℕ, true, Option, none, some, List, ◌==◌, ◌≡◌, if◌then◌else◌, ℤ, pos, ltb_ℤ, eqb_ℤ, nonempty,
  length, take, ◌≤◌, Bool-cases, inl, inr,
}
use emoselfie_be.Core.Errors.{
  Result, ok, err, app, ensure, ◌>>=◌, ◌>>◌, not_a_viewer, media_expired, >>-eq-ok, or_error,
  or_error-eq-ok,
}
use emoselfie_be.Core.Media.{Claims, media_payload, media_token, verify_media_token}
use emoselfie_be.Core.MediaTokens.{IsBase64, IsSignature, verify-media_token}
use emoselfie_be.Db.{Participant, Submission, find}

-- `image_key(round_id, owner_id)` with the bytes there; no bytes are as good as no key.
abbrev pub cached : Option (List ℕ) → Result (List ℕ)
cached none = err (app media_expired)
cached (some image) = if nonempty image then ok image else err (app media_expired)

-- `serve` after the token is read.
unfoldable pub serve_claims :
    List Participant
    → List Submission
    → (ℤ → ℕ → Option (List ℕ))
    → Claims
    → ℕ
    → ℕ
    → Result (List ℕ)
serve_claims members submissions images (round_id, submission_id, viewer_id, expires_at_ms) user_id
      now =
    do
      ensure (ltb_ℤ (pos now) expires_at_ms) (app media_expired)
      viewer ←
          or_error (find (λ (m : Participant). eqb_ℤ (pos m.id) viewer_id) members)
            (err (app not_a_viewer))
      ensure (viewer.user_id == user_id) (app not_a_viewer)
      row ←
          or_error (find (λ (s : Submission). eqb_ℤ (pos s.id) submission_id) submissions)
            (err (app not_a_viewer))
      ensure (eqb_ℤ (pos row.round_id) round_id) (app not_a_viewer)
      cached (images round_id row.participant_id)

module _ (digest : List ℕ → List ℕ → List ℕ) (b64encode : List ℕ → List ℕ)
    (b64decode : List ℕ → Option (List ℕ)) where
  unfoldable pub serve :
      List Participant
      → List Submission
      → (ℤ → ℕ → Option (List ℕ))
      → List ℕ
      → List ℕ
      → ℕ
      → ℕ
      → Result (List ℕ)
  unfolding verify_media_token serve_claims
  serve members submissions images token secret user_id now =
      elim (verify_media_token digest b64encode b64decode token secret) [
        | none ↦ err (app not_a_viewer)
        | some claims ↦ serve_claims members submissions images claims user_id now
      ]

-- What `serve` has checked of a viewer before it hands an image out.
abbrev pub IsServed :
    List Participant
    → List Submission
    → (ℤ → ℕ → Option (List ℕ))
    → Claims
    → ℕ
    → ℕ
    → List ℕ
    → Type 0
IsServed members submissions images (round_id, submission_id, viewer_id, expires_at_ms) user_id now
      image =
    (ltb_ℤ (pos now) expires_at_ms ≡ true)
    × ((viewer : Participant) × (find (λ (m : Participant). eqb_ℤ (pos m.id) viewer_id) members
          ≡ some viewer)
        × ((viewer.user_id == user_id) ≡ true))
    × ((row : Submission) × (find (λ (s : Submission). eqb_ℤ (pos s.id) submission_id) submissions
          ≡ some row)
        × (eqb_ℤ (pos row.round_id) round_id ≡ true)
        × (images round_id row.participant_id ≡ some image))

cached-eq-ok : (o : Option (List ℕ)) (image : List ℕ) → cached o ≡ ok image → o ≡ some image
cached-eq-ok none image h = absurd cc
cached-eq-ok (some xs) image h = elim (Bool-cases (nonempty xs)) [
  | inl y ↦ (let e = rw y at h in cc)
  | inr n ↦ absurd (let e = rw n at h in cc)
]

serve_claims-ok :
    (members : List Participant) (submissions : List Submission) (images : ℤ → ℕ → Option (List ℕ))
    (claims : Claims) (user_id now : ℕ) (image : List ℕ)
    → serve_claims members submissions images claims user_id now ≡ ok image
    → IsServed members submissions images claims user_id now image
unfolding serve_claims
serve_claims-ok members submissions images (r, s, v, e) user_id now image h =
    let (fresh, h₁) = >>-eq-ok (ltb_ℤ (pos now) e) (app media_expired) _ h in
    let (viewer, found, h₂) =
      or_error-eq-ok (find (λ (m : Participant). eqb_ℤ (pos m.id) v) members) (app not_a_viewer) _
        h₁ in
    let (own, h₃) = >>-eq-ok (viewer.user_id == user_id) (app not_a_viewer) _ h₂ in
    let (row, listed, h₄) =
      or_error-eq-ok (find (λ (x : Submission). eqb_ℤ (pos x.id) s) submissions) (app not_a_viewer)
        _ h₃ in
    let (inside, h₅) = >>-eq-ok (eqb_ℤ (pos row.round_id) r) (app not_a_viewer) _ h₄ in
    (
      fresh,
      (viewer, found, own),
      (row, listed, inside, cached-eq-ok (images r row.participant_id) image h₅),
    )

module _ (digest : List ℕ → List ℕ → List ℕ) (b64encode : List ℕ → List ℕ)
    (b64decode : List ℕ → Option (List ℕ)) where
  -- A link opens for nobody but the viewer to whom it was issued: where the token made for a viewer's
  -- round, submission and expiry yields an image, it is before the expiry, the session is that viewer's
  -- user, and the image is the one cached for the submission's owner in that round. Base64 keeps to
  -- RFC 4648, the signature has no dot, and the token has at most 256 characters.
  pub serve-IsServed :
      (members : List Participant) (submissions : List Submission)
      (images : ℤ → ℕ → Option (List ℕ)) (round_id submission_id viewer_id expires_at_ms : ℕ)
      (secret : List ℕ) (user_id now : ℕ) (image : List ℕ)
      → IsBase64 b64encode b64decode (media_payload round_id submission_id viewer_id expires_at_ms)
      → IsSignature
          (take 32 (digest secret (media_payload round_id submission_id viewer_id expires_at_ms)))
      → length (
          media_token digest b64encode b64decode round_id submission_id viewer_id expires_at_ms
            secret)
        ≤ 256
      → serve digest b64encode b64decode members submissions images
          (media_token digest b64encode b64decode round_id submission_id viewer_id expires_at_ms
            secret)
          secret
          user_id
          now
        ≡ ok image
      → IsServed members submissions images
          (pos round_id, pos submission_id, pos viewer_id, pos expires_at_ms)
          user_id
          now
          image
  unfolding serve
  serve-IsServed members submissions images r s v e secret user_id now image b g short h =
      by_claims _ (verify-media_token digest b64encode b64decode r s v e secret b g short) h
    where
      by_claims :
          (o : Option Claims)
          → o ≡ some (pos r, pos s, pos v, pos e)
          → ◌≡◌ {A = Result (List ℕ)}
              (elim o [
                | none ↦ err (app not_a_viewer)
                | some claims ↦ serve_claims members submissions images claims user_id now
              ])
              (ok image)
          → IsServed members submissions images (pos r, pos s, pos v, pos e) user_id now image
      by_claims none f k = absurd cc
      by_claims (some claims) f k =
          let same : claims ≡ (pos r, pos s, pos v, pos e) = cc in
          serve_claims-ok members submissions images (pos r, pos s, pos v, pos e) user_id now image
            (rw same at k)
