-- ===== src/Core/MediaTokens.antt =====
-- Media tokens of app/core/security.py: lemmas on the payload and the seal.
use emoselfie_be.Prelude.{
  ℕ, zero, suc, ◌+◌, ◌-◌, ◌%◌, ◌≤◌, ◌≡◌, refl, ◌∙◌, ap, Bool, true, false, ◌&&◌, Option, some, List,
  [], ◌∷◌, ◌++◌, arith, ltb, ◌==◌, length, take, pos, all,
}
use emoselfie_be.Prelude.Sets.{has}
use emoselfie_be.Core.Security.{str, text_eq_refl}
use emoselfie_be.Core.Text.{
  split, count, rstrip, is_ascii, split-append, split_single, partition-append, count-append,
  count_none,
}
use emoselfie_be.Core.Decimal.{int_of-str, str-has}
use emoselfie_be.Core.Media.{
  repeat, padded, media_payload, four_of, media_token, signed_claims, verify_media_token,
}

payload-split :
    (a b c d : ℕ) → split b':' (media_payload a b c d) ≡ str a ∷ str b ∷ str c ∷ str d ∷ []
unfolding media_payload
payload-split a b c d =
    split-append b':' (str a) _ (str-has b':' a refl)
    ∙ ap (◌∷◌ (str a)) (
        split-append b':' (str b) _ (str-has b':' b refl)
        ∙ ap (◌∷◌ (str b)) (
            split-append b':' (str c) _ (str-has b':' c refl)
            ∙ ap (◌∷◌ (str c)) (split_single b':' (str d) (str-has b':' d refl))))

payload-four :
    (a b c d : ℕ) → four_of (split b':' (media_payload a b c d)) ≡ some (pos a, pos b, pos c, pos d)
unfolding four_of
payload-four a b c d = rw (payload-split a b c d) four
  where
    four : four_of (str a ∷ str b ∷ str c ∷ str d ∷ []) ≡ some (pos a, pos b, pos c, pos d)
    four = rw (four_of, int_of-str a, int_of-str b, int_of-str c, int_of-str d) refl

repeat-rstrip : (c n : ℕ) → rstrip (λ x. x == c) (repeat c n) ≡ []
unfolding rstrip
repeat-rstrip c zero = refl
repeat-rstrip c (suc n) = rw (repeat-rstrip c n) (ground arith)

rstrip-repeat :
    (c n : ℕ) (xs : List ℕ) → has c xs ≡ false → rstrip (λ x. x == c) (xs ++ repeat c n) ≡ xs
unfolding rstrip
rstrip-repeat c n [] h = repeat-rstrip c n
rstrip-repeat c n (x ∷ []) h = rw (rstrip, repeat-rstrip c n) (ground arith)
rstrip-repeat c n (x ∷ y ∷ ys) h = rw (rstrip-repeat c n (y ∷ ys) (ground arith)) refl

length-repeat : (c n : ℕ) → length (repeat c n) ≡ n
length-repeat c zero = refl
length-repeat c (suc n) = ap suc (length-repeat c n)

padded-body :
    (xs : List ℕ) (n : ℕ) → n ≤ 2 → (length xs + n) % 4 ≡ 0 → padded xs ≡ xs ++ repeat b'=' n
unfolding padded
padded-body xs n small whole =
    let e : (4 - length xs % 4) % 4 ≡ n = omega (arith, small, whole) in rw e refl

all-append : (p : ℕ → Bool) (xs ys : List ℕ) → all p (xs ++ ys) ≡ (all p xs && all p ys)
all-append p [] ys = refl
all-append p (x ∷ xs) ys = ground (arith, all-append p xs ys)

-- What RFC 4648 says of the Base64 text of some bytes: it decodes to them, its length is a multiple
-- of four, and at most two signs of padding follow ASCII text without `=` and without a dot.
pub record IsBase64 (b64encode : List ℕ → List ℕ) (b64decode : List ℕ → Option (List ℕ))
    (bytes : List ℕ) : Type 0 where
  pub body : List ℕ
  pub pads : ℕ
  pub shape : b64encode bytes ≡ body ++ repeat b'=' pads
  pub few : pads ≤ 2
  pub whole : (length body + pads) % 4 ≡ 0
  pub unpadded : has b'=' body ≡ false
  pub dotless : has b'.' body ≡ false
  pub ascii : is_ascii body ≡ true
  pub decodes : b64decode (b64encode bytes) ≡ some bytes

-- The same of the digest, whose text is never padded here.
pub record IsSignature (text : List ℕ) : Type 0 where
  pub dotless : has b'.' text ≡ false
  pub ascii : is_ascii text ≡ true

module _ (digest : List ℕ → List ℕ → List ℕ) (b64encode : List ℕ → List ℕ)
    (b64decode : List ℕ → Option (List ℕ)) where
  signed_claims-payload :
      (a b c d : ℕ) (secret : List ℕ)
      → signed_claims digest b64encode b64decode
          (media_payload a b c d)
          (take 32 (digest secret (media_payload a b c d)))
          secret
        ≡ some (pos a, pos b, pos c, pos d)
  unfolding signed_claims
  signed_claims-payload a b c d secret =
      rw
        (
          signed_claims,
          payload-four a b c d,
          text_eq_refl (take 32 (digest secret (media_payload a b c d))),
        )
        refl

  -- A text of two parts, the first of which decodes, is checked against the second.
  verify-parts :
      (body signature payload secret : List ℕ)
      → has b'.' body ≡ false
      → has b'.' signature ≡ false
      → is_ascii body ≡ true
      → is_ascii signature ≡ true
      → length (body ++ (b'.' ∷ signature)) ≤ 256
      → b64decode (padded body) ≡ some payload
      → verify_media_token digest b64encode b64decode (body ++ (b'.' ∷ signature)) secret
        ≡ signed_claims digest b64encode b64decode payload signature secret
  unfolding verify_media_token count
  verify-parts body signature payload secret nb ns ab sa short decoded =
      let one : count b'.' (body ++ (b'.' ∷ signature)) ≡ 1 =
        count-append b'.' body (b'.' ∷ signature)
        ∙ omega (arith, count_none b'.' body nb, count_none b'.' signature ns) in
      let fits : ltb 256 (length (body ++ (b'.' ∷ signature))) ≡ false = ground arith in
      let ascii : is_ascii (body ++ (b'.' ∷ signature)) ≡ true =
        rw (all-append (λ c. ltb c 128) body (b'.' ∷ signature), ab, sa) refl in
      let parts = partition-append b'.' body signature nb in
      rw (fits, ascii, one, parts, decoded) (rw parts refl)

  -- A media token reads back as the round, the submission, the viewer and the expiry that it was made
  -- of, given that Base64 keeps to RFC 4648, the signature has no dot, and the token has at most 256
  -- characters.
  pub verify-media_token :
      (round_id submission_id viewer_id expires_at_ms : ℕ) (secret : List ℕ)
      → IsBase64 b64encode b64decode (media_payload round_id submission_id viewer_id expires_at_ms)
      → IsSignature
          (take 32 (digest secret (media_payload round_id submission_id viewer_id expires_at_ms)))
      → length (
          media_token digest b64encode b64decode round_id submission_id viewer_id expires_at_ms
            secret)
        ≤ 256
      → verify_media_token digest b64encode b64decode
          (media_token digest b64encode b64decode round_id submission_id viewer_id expires_at_ms
            secret)
          secret
        ≡ some (pos round_id, pos submission_id, pos viewer_id, pos expires_at_ms)
  unfolding media_token
  verify-media_token a b c d secret e s short =
      let payload = media_payload a b c d in
      let bare : rstrip (λ x. x == b'=') (b64encode payload) ≡ e.body =
        rw (e.shape) (rstrip-repeat b'=' e.pads e.body e.unpadded) in
      let decoded : b64decode (padded e.body) ≡ some payload =
        rw (padded-body e.body e.pads e.few e.whole, ← e.shape) e.decodes in
      rw bare (
        verify-parts e.body (take 32 (digest secret payload)) payload secret e.dotless s.dotless
          e.ascii s.ascii (rw bare at short) decoded
        ∙ signed_claims-payload a b c d secret)
