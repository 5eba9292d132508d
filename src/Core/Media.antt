-- ===== src/Core/Media.antt =====
-- `media_token` and `verify_media_token` of app/core/security.py. Parameters are the keyed digest
-- in Base64, and Base64 for URLs with its padding, whose decoder refuses what is no ASCII text.
use emoselfie_be.Prelude.{
  ℕ, zero, suc, ◌-◌, ◌%◌, not, ◌||◌, Option, none, some, List, [], ◌∷◌, ◌++◌, ltb, ◌==◌,
  if◌then◌else◌, length, take, ℤ,
}
use emoselfie_be.Core.Security.{str, text_eq}
use emoselfie_be.Core.Text.{int_of, split, partition, count, rstrip, is_ascii}

-- roundId, submissionId, viewerParticipantId, and the expiry
abbrev pub Claims : Type 0
Claims = ℤ × ℤ × ℤ × ℤ

abbrev pub repeat : ℕ → ℕ → List ℕ
repeat c zero = []
repeat c (suc n) = c ∷ repeat c n

-- `encoded + "=" * (-len(encoded) % 4)`
unfoldable pub padded : List ℕ → List ℕ
padded encoded = encoded ++ repeat b'=' ((4 - length encoded % 4) % 4)

unfoldable pub media_payload : ℕ → ℕ → ℕ → ℕ → List ℕ
unfolding str
media_payload round_id submission_id viewer_id expires_at_ms =
    str round_id
    ++ (b':' ∷ (str submission_id ++ (b':' ∷ (str viewer_id ++ (b':' ∷ str expires_at_ms)))))

abbrev pub all_four : Option ℤ → Option ℤ → Option ℤ → Option ℤ → Option Claims
all_four (some i) (some j) (some k) (some l) = some (i, j, k, l)
all_four _ _ _ _ = none

-- The four numbers of `payload.split(":")`
unfoldable pub four_of : List (List ℕ) → Option Claims
unfolding int_of
four_of (a ∷ b ∷ c ∷ d ∷ []) = all_four (int_of a) (int_of b) (int_of c) (int_of d)
four_of _ = none

module _ (digest : List ℕ → List ℕ → List ℕ) (b64encode : List ℕ → List ℕ)
    (b64decode : List ℕ → Option (List ℕ)) where
  unfoldable pub media_token : ℕ → ℕ → ℕ → ℕ → List ℕ → List ℕ
  unfolding rstrip media_payload
  media_token round_id submission_id viewer_id expires_at_ms secret =
      let payload = media_payload round_id submission_id viewer_id expires_at_ms in
      rstrip (λ c. c == b'=') (b64encode payload) ++ (b'.' ∷ take 32 (digest secret payload))

  -- The payload, if it reads as claims and is signed.
  unfoldable pub signed_claims : List ℕ → List ℕ → List ℕ → Option Claims
  unfolding split text_eq four_of
  signed_claims payload signature secret = elim (four_of (split b':' payload)) [
    | none ↦ none
    | some claims ↦
        if text_eq (take 32 (digest secret payload)) signature then some claims else none
  ]

  unfoldable pub verify_media_token : List ℕ → List ℕ → Option Claims
  unfolding partition count padded signed_claims
  verify_media_token token secret =
      if (ltb 256 (length token) || not (is_ascii token)) || not (count b'.' token == 1)
      then none
      else elim (b64decode (padded (partition b'.' token).0)) [
        | none ↦ none
        | some payload ↦ signed_claims payload (partition b'.' token).1 secret
      ]
