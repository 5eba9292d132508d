-- ===== src/Core/Cookies.antt =====
-- `sign_cookie` and `verify_cookie` of app/core/security.py. Parameters are the signature (the first
-- 16 bytes of the keyed digest, in Base64 without padding), and the class `UUID` of Python.
use emoselfie_be.Prelude.{
  ℕ, suc, ◌≡◌, refl, ◌∙◌, Bool, true, false, not, ◌&&◌, ◌||◌, Option, none, some, List, [], ◌∷◌,
  ◌++◌, arith, ltb, ◌==◌, ==_refl, if◌then◌else◌, length, length-append, all,
}
use emoselfie_be.Prelude.Sets.{has}
use emoselfie_be.Core.Security.{text_eq, text_eq_refl}
use emoselfie_be.Core.Text.{partition, count, is_ascii, partition-append, count-append}

-- `Settings.cookie_secret` and `cookie_secret_previous`
pub record CookieSecrets : Type 0 where
  pub current : List ℕ
  pub previous : Option (List ℕ)

abbrev pub secrets_of : CookieSecrets → List (List ℕ)
secrets_of s = s.current ∷ elim s.previous [ none ↦ [] | some p ↦ p ∷ [] ]

module _ (signature : List ℕ → List ℕ → List ℕ) (text_of : ℕ → List ℕ) (uuid_of : List ℕ → Option ℕ)
    (version : ℕ → ℕ) where
  unfoldable pub sign_cookie : ℕ → List ℕ → List ℕ
  sign_cookie user_id secret = text_of user_id ++ (b'.' ∷ signature secret (text_of user_id))

  -- The loop of `verify_cookie`, over the secrets that are numbered from `index`.
  unfoldable pub match_secret : ℕ → ℕ → List ℕ → List (List ℕ) → Option (ℕ × Bool)
  unfolding sign_cookie text_eq
  match_secret user_id index value [] = none
  match_secret user_id index value (secret ∷ secrets) =
      let rest = match_secret user_id (suc index) value secrets in
      if text_eq (sign_cookie user_id secret) value then some (user_id, ltb 0 index) else rest

  unfoldable pub verify_user : ℕ → List ℕ → List ℕ → CookieSecrets → Option (ℕ × Bool)
  unfolding match_secret text_eq
  verify_user user_id raw_id value s =
      if not (version user_id == 4) || not (text_eq (text_of user_id) raw_id)
      then none
      else match_secret user_id 0 value (secrets_of s)

  -- The user, and whether the cookie was signed by the previous secret.
  unfoldable pub verify_cookie : Option (List ℕ) → CookieSecrets → Option (ℕ × Bool)
  unfolding partition count verify_user
  verify_cookie none s = none
  verify_cookie (some value) s =
      if (not (length value == 59) || not (is_ascii value)) || (count b'.' value == 0)
      then none
      else elim (uuid_of (partition b'.' value).0) [
        | none ↦ none
        | some user_id ↦ verify_user user_id (partition b'.' value).0 value s
      ]

  -- What Python says of the text of a UUID, and RFC 4648 of the text of 16 bytes.
  pub record IsUser (user_id : ℕ) : Type 0 where
    pub reads : uuid_of (text_of user_id) ≡ some user_id
    pub random : version user_id ≡ 4
    pub size : length (text_of user_id) ≡ 36
    pub ascii : is_ascii (text_of user_id) ≡ true
    pub dotless : has b'.' (text_of user_id) ≡ false
    pub signature_size : (secret : List ℕ) → length (signature secret (text_of user_id)) ≡ 22
    pub signature_ascii : (secret : List ℕ) → is_ascii (signature secret (text_of user_id)) ≡ true

  all-append : (p : ℕ → Bool) (xs ys : List ℕ) → all p (xs ++ ys) ≡ (all p xs && all p ys)
  all-append p [] ys = refl
  all-append p (x ∷ xs) ys = ground (arith, all-append p xs ys)

  verify-own :
      (user_id : ℕ) (value : List ℕ) (s : CookieSecrets)
      → IsUser user_id
      → verify_user user_id (text_of user_id) value s ≡ match_secret user_id 0 value (secrets_of s)
  unfolding verify_user
  verify-own u value s h = rw (h.random, text_eq_refl (text_of u)) refl

  -- A cookie passes every check but that of the secrets.
  verify-signed :
      (user_id : ℕ) (secret : List ℕ) (s : CookieSecrets)
      → IsUser user_id
      → verify_cookie (some (sign_cookie user_id secret)) s
        ≡ match_secret user_id 0 (sign_cookie user_id secret) (secrets_of s)
  unfolding verify_cookie verify_user count sign_cookie
  verify-signed u secret s h =
      let value = text_of u ++ (b'.' ∷ signature secret (text_of u)) in
      let size : (length value == 59) ≡ true =
        rw
          (
            length-append (text_of u) (b'.' ∷ signature secret (text_of u)),
            h.size,
            h.signature_size secret,
          )
          refl in
      let ascii : is_ascii value ≡ true =
        rw
          (
            all-append (λ c. ltb c 128) (text_of u) (b'.' ∷ signature secret (text_of u)),
            h.ascii,
            h.signature_ascii secret,
          )
          refl in
      let dot : (count b'.' value == 0) ≡ false =
        (let e = count-append b'.' (text_of u) (b'.' ∷ signature secret (text_of u)) in
          ground arith) in
      let parts = partition-append b'.' (text_of u) (signature secret (text_of u)) h.dotless in
      rw (size, ascii, dot, parts, h.reads) (rw parts (verify-own u value s h))

  text_eq-append : (xs ys zs : List ℕ) → text_eq (xs ++ ys) (xs ++ zs) ≡ text_eq ys zs
  unfolding text_eq
  text_eq-append [] ys zs = refl
  text_eq-append (x ∷ xs) ys zs = rw (==_refl x) (text_eq-append xs ys zs)

  -- What the current secret signed need not be signed again, whatever the previous one is.
  pub verify-current :
      (user_id : ℕ) (s : CookieSecrets)
      → IsUser user_id
      → verify_cookie (some (sign_cookie user_id s.current)) s ≡ some (user_id, false)
  unfolding match_secret
  verify-current u s h =
      verify-signed u s.current s h ∙ rw (text_eq_refl (sign_cookie u s.current)) refl

  -- A cookie that the current secret signed gives its user. One that the previous secret signed gives the
  -- user too, and says that it is to be signed again; without the previous secret it is refused. The
  -- signatures of the two secrets are to differ, and texts of UUIDs and signatures have their sizes.
  pub verify-sign_cookie :
      (user_id : ℕ) (current previous : List ℕ)
      → IsUser user_id
      → text_eq (signature current (text_of user_id)) (signature previous (text_of user_id)) ≡ false
      → (verify_cookie
            (some (sign_cookie user_id current))
            (record { current = current; previous = some previous })
          ≡ some (user_id, false))
        × (verify_cookie
              (some (sign_cookie user_id previous))
              (record { current = current; previous = some previous })
            ≡ some (user_id, true))
        × (verify_cookie
              (some (sign_cookie user_id previous))
              (record { current = current; previous = none })
            ≡ none)
  unfolding sign_cookie match_secret
  verify-sign_cookie u c p h apart =
      let other : text_eq (sign_cookie u c) (sign_cookie u p) ≡ false =
        text_eq-append (text_of u) (b'.' ∷ signature c (text_of u)) (b'.' ∷ signature p (text_of u))
        ∙ by_dot in
      (
        verify-signed u c _ h ∙ rw (text_eq_refl (sign_cookie u c)) refl,
        verify-signed u p _ h ∙ rw (other, text_eq_refl (sign_cookie u p)) refl,
        verify-signed u p _ h ∙ rw other refl,
      )
    where
      by_dot : text_eq (b'.' ∷ signature c (text_of u)) (b'.' ∷ signature p (text_of u)) ≡ false
      by_dot =
          text_eq-append (b'.' ∷ []) (signature c (text_of u)) (signature p (text_of u)) ∙ apart
