-- ===== src/Api/Session/Persistence.antt =====
-- `SessionMiddleware`: how long a user stays the same.
use emoselfie_be.Prelude.{
  ℕ, ◌≡◌, refl, ◌∙◌, Bool, true, false, not, ◌&&◌, ◌||◌, Option, none, some, List, if◌then◌else◌,
  is_some, or_else, arith,
}
use emoselfie_be.Core.Cookies.{
  CookieSecrets, sign_cookie, verify_cookie, IsUser, verify-current, verify-sign_cookie,
}
use emoselfie_be.Core.Security.{text_eq}
use emoselfie_be.Api.Session.{
  Request, passed, forbidden, entered, is_api, is_media, is_foreign, enter, middleware,
}

module _ (signature : List ℕ → List ℕ → List ℕ) (text_of : ℕ → List ℕ) (uuid_of : List ℕ → Option ℕ)
    (version : ℕ → ℕ) (urlsplit : List ℕ → Option (List ℕ × List ℕ)) where
  middleware-enter :
      (s : CookieSecrets) (fresh : ℕ) (r : Request)
      → (is_api r || is_media r) ≡ true
      → is_foreign urlsplit r ≡ false
      → middleware signature text_of uuid_of version urlsplit s fresh r
        ≡ enter signature text_of uuid_of version (is_api r) r.cookie s fresh
  unfolding middleware
  middleware-enter s fresh r inside own =
      let test : (not (is_api r) && not (is_media r)) ≡ false = ground arith in
      rw (middleware, test, own) refl

  enter-known :
      (s : CookieSecrets) (fresh u : ℕ) (api refresh : Bool) (cookie : Option (List ℕ))
      → verify_cookie signature text_of uuid_of version cookie s ≡ some (u, refresh)
      → enter signature text_of uuid_of version api cookie s fresh
        ≡ entered u true (
            if refresh && api
            then some (sign_cookie signature text_of uuid_of version u s.current)
            else none)
  unfolding enter
  enter-known s fresh u api refresh cookie h = rw (enter, h) refl

  -- A cookie that is set is the user's own, signed by the current secret.
  middleware-set_cookie :
      (s : CookieSecrets) (fresh : ℕ) (r : Request) (u : ℕ) (known : Bool) (cookie : List ℕ)
      → middleware signature text_of uuid_of version urlsplit s fresh r
        ≡ entered u known (some cookie)
      → cookie ≡ sign_cookie signature text_of uuid_of version u s.current
  unfolding middleware enter
  middleware-set_cookie s fresh r u known cookie h =
      by_tests (not (is_api r) && not (is_media r)) (is_foreign urlsplit r)
        (verify_cookie signature text_of uuid_of version r.cookie s) h
    where
      signed : ℕ → List ℕ
      signed v = sign_cookie signature text_of uuid_of version v s.current

      by_flag :
          (v : ℕ) (k b : Bool)
          → entered v k (if b then some (signed v) else none) ≡ entered u known (some cookie)
          → cookie ≡ signed u
      by_flag v k true e = cc
      by_flag v k false e = absurd cc

      by_tests :
          (a b : Bool) (o : Option (ℕ × Bool))
          → (if a
              then passed
              else if b
              then forbidden
              else entered (or_else o (fresh, true)).0 (is_some o) (
                  if (or_else o (fresh, true)).1 && is_api r
                  then some (signed (or_else o (fresh, true)).0)
                  else none))
            ≡ entered u known (some cookie)
          → cookie ≡ signed u
      by_tests true b o e = absurd cc
      by_tests false true o e = absurd cc
      by_tests false false o e =
          by_flag (or_else o (fresh, true)).0 (is_some o) ((or_else o (fresh, true)).1 && is_api r)
            e

  -- A user stays the same from the first answer on: a request that brings back the cookie which
  -- was set for a user, and is let in, is that user's, and no cookie is set. So too after the
  -- secret has changed, if the old one is kept as the previous secret and the two sign the user
  -- differently; under `/api/` the cookie is signed anew then.
  pub middleware-persists :
      (s : CookieSecrets) (fresh fresh' : ℕ) (r r' : Request) (u : ℕ) (known : Bool)
      (cookie secret : List ℕ)
      → IsUser signature text_of uuid_of version u
      → middleware signature text_of uuid_of version urlsplit s fresh r
        ≡ entered u known (some cookie)
      → r'.cookie ≡ some cookie
      → (is_api r' || is_media r') ≡ true
      → is_foreign urlsplit r' ≡ false
      → text_eq (signature secret (text_of u)) (signature s.current (text_of u)) ≡ false
      → (middleware signature text_of uuid_of version urlsplit s fresh' r' ≡ entered u true none)
        × (middleware signature text_of uuid_of version urlsplit
              (record { current = secret; previous = some s.current })
              fresh'
              r'
            ≡ entered u true (
                if is_api r'
                then some (sign_cookie signature text_of uuid_of version u secret)
                else none))
  middleware-persists s fresh fresh' r r' u known cookie secret user set brought inside own apart =
      let mine = middleware-set_cookie s fresh r u known cookie set in
      let rotated : CookieSecrets = record { current = secret; previous = some s.current } in
      let now_known : verify_cookie signature text_of uuid_of version r'.cookie s
          ≡ some (u, false) =
        rw (brought, mine) (verify-current signature text_of uuid_of version u s user) in
      let then_known : verify_cookie signature text_of uuid_of version r'.cookie rotated
          ≡ some (u, true) =
        rw (brought, mine)
          (verify-sign_cookie signature text_of uuid_of version u secret s.current user apart).1 in
      (
        middleware-enter s fresh' r' inside own
            ∙ enter-known s fresh' u (is_api r') false r'.cookie now_known,
        middleware-enter rotated fresh' r' inside own
            ∙ enter-known rotated fresh' u (is_api r') true r'.cookie then_known,
      )
