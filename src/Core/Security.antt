-- ===== src/Core/Security.antt =====
-- app/core/security.py: capture tokens. HMAC-SHA256 and Base64 are a parameter: the encoded digest
-- of a secret and a payload. Texts are lists of ASCII codes.
use emoselfie_be.Prelude.{
  ℕ, zero, suc, ◌+◌, ◌/◌, ◌%◌, ◌≡◌, refl, Bool, true, false, ◌&&◌, ◌||◌, not, Option, none, some,
  List, [], ◌∷◌, ◌++◌, arith, ltb, ◌==◌, if◌then◌else◌, length, take, all,
}

-- `str(n)`, with fuel: a number has fewer digits than it counts.
unfoldable pub decimal_digits : ℕ → ℕ → List ℕ
decimal_digits zero n = []
decimal_digits (suc f) n =
    let rest = decimal_digits f (n / 10) in
    if ltb n 10 then (48 + n) ∷ [] else rest ++ (48 + n % 10) ∷ []

unfoldable pub str : ℕ → List ℕ
unfolding decimal_digits
str n = decimal_digits (suc n) n

-- `hmac.compare_digest`
unfoldable pub text_eq : List ℕ → List ℕ → Bool
text_eq [] [] = true
text_eq [] (y ∷ ys) = false
text_eq (x ∷ xs) [] = false
text_eq (x ∷ xs) (y ∷ ys) = (x == y) && text_eq xs ys

pub text_eq-eq : (s t : List ℕ) → text_eq s t ≡ true → s ≡ t
unfolding text_eq
text_eq-eq [] [] h = refl
text_eq-eq [] (y ∷ ys) h = cc
text_eq-eq (x ∷ xs) [] h = cc
text_eq-eq (x ∷ xs) (y ∷ ys) h = ground (arith, text_eq-eq xs ys)

pub text_eq_refl : (s : List ℕ) → text_eq s s ≡ true
unfolding text_eq
text_eq_refl [] = refl
text_eq_refl (x ∷ xs) = ground (arith, text_eq_refl xs)

-- the encoded HMAC of a secret and a payload
module _ (digest : List ℕ → List ℕ → List ℕ) where
  unfoldable pub capture_token : ℕ → ℕ → ℕ → List ℕ → List ℕ
  unfolding str
  capture_token round_id participant_id deadline_at_ms secret = take 32 (
      digest secret
        (str round_id ++ (b':' ∷ []) ++ str participant_id ++ (b':' ∷ []) ++ str deadline_at_ms))

  unfoldable pub verify_capture_token : Option (List ℕ) → ℕ → ℕ → ℕ → List ℕ → Bool
  unfolding capture_token text_eq
  verify_capture_token none round_id participant_id deadline_at_ms secret = false
  verify_capture_token (some token) round_id participant_id deadline_at_ms secret =
      if not (length token == 32) || not (all (λ c. ltb c 128) token)
      then false
      else text_eq (capture_token round_id participant_id deadline_at_ms secret) token
