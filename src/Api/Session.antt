-- ===== src/Api/Session.antt =====
-- app/api/middleware.py, app/api/deps.py and app/api/session.py: who the user of a request is. The
-- headers are parsed by libraries: `cookie` is the value of the session's cookie, missing also where
-- the header cannot be read, and `urlsplit` is a parameter, without value where it raises.
pub mod Persistence
use emoselfie_be.Prelude.{
  ℕ, Bool, true, false, not, ◌&&◌, ◌||◌, Option, none, some, List, [], ◌∷◌, ◌==◌, if◌then◌else◌,
  is_some, or_else, nonempty,
}
use emoselfie_be.Core.Errors.{Result, ok, err, app, ◌>>=◌, session_required}
use emoselfie_be.Core.Security.{text_eq}
use emoselfie_be.Core.Cookies.{CookieSecrets, sign_cookie, verify_cookie}
use emoselfie_be.Db.{Room}
use emoselfie_be.Domain.Rooms.{User, active_room, ensure_user}
use emoselfie_be.Domain.Lobby.{normalize_nickname}
use emoselfie_be.Media.{starts_with}

pub record Request : Type 0 where
  pub is_http : Bool
  pub path : List ℕ
  pub method : List ℕ
  pub scheme : List ℕ
  pub host : Option (List ℕ)
  pub origin : Option (List ℕ)
  pub cookie : Option (List ℕ)

-- What the middleware makes of a request: it passes it on, refuses it, or names its user, says
-- whether the cookie did, and gives the cookie to set.
pub data Admission : Type 0 where
  passed forbidden : Admission
  entered : (user_id : ℕ) (authenticated : Bool) (set_cookie : Option (List ℕ)) → Admission

-- `"/api/"` and `"/media/"`
abbrev pub api_prefix : List ℕ
api_prefix = b'/' ∷ b'a' ∷ b'p' ∷ b'i' ∷ b'/' ∷ []

abbrev pub media_prefix : List ℕ
media_prefix = b'/' ∷ b'm' ∷ b'e' ∷ b'd' ∷ b'i' ∷ b'a' ∷ b'/' ∷ []

unfoldable pub is_api : Request → Bool
unfolding starts_with
is_api r = r.is_http && starts_with api_prefix r.path

unfoldable pub is_media : Request → Bool
unfolding starts_with
is_media r = r.is_http && starts_with media_prefix r.path

-- `{"GET", "HEAD", "OPTIONS"}`
unfoldable pub is_safe : List ℕ → Bool
unfolding text_eq
is_safe m =
    text_eq m (b'G' ∷ b'E' ∷ b'T' ∷ [])
    || text_eq m (b'H' ∷ b'E' ∷ b'A' ∷ b'D' ∷ [])
    || text_eq m (b'O' ∷ b'P' ∷ b'T' ∷ b'I' ∷ b'O' ∷ b'N' ∷ b'S' ∷ [])

abbrev pub is_text : Option (List ℕ) → List ℕ → Bool
is_text none t = false
is_text (some s) t = text_eq s t

module _ (urlsplit : List ℕ → Option (List ℕ × List ℕ)) where
  -- The scheme and the host of the origin are those of the request.
  unfoldable pub is_same_origin : Request → List ℕ → Bool
  unfolding text_eq
  is_same_origin r origin = elim (urlsplit origin) [
    | none ↦ false
    | some (scheme, netloc) ↦ text_eq scheme r.scheme && is_text r.host netloc
  ]

  unfoldable pub is_foreign : Request → Bool
  unfolding is_same_origin is_safe
  is_foreign r = elim r.origin [
    | none ↦ false
    | some origin ↦ nonempty origin && (not (is_safe r.method) && not (is_same_origin r origin))
  ]

module _ (signature : List ℕ → List ℕ → List ℕ) (text_of : ℕ → List ℕ) (uuid_of : List ℕ → Option ℕ)
    (version : ℕ → ℕ) where
  -- `identity if identity is not None else (uuid4(), True)`; a cookie is set under `/api/` only.
  unfoldable pub enter : Bool → Option (List ℕ) → CookieSecrets → ℕ → Admission
  unfolding verify_cookie sign_cookie
  enter api cookie s fresh =
      let identity = verify_cookie signature text_of uuid_of version cookie s in
      let (user_id, refresh) = or_else identity (fresh, true) in
      entered user_id (is_some identity) (
        if refresh && api
        then some (sign_cookie signature text_of uuid_of version user_id s.current)
        else none)

  -- `SessionMiddleware`; `fresh` is the UUID that it draws.
  unfoldable pub middleware :
      (List ℕ → Option (List ℕ × List ℕ)) → CookieSecrets → ℕ → Request → Admission
  unfolding is_api is_media is_foreign enter
  middleware urlsplit s fresh r =
      if not (is_api r) && not (is_media r)
      then passed
      else if is_foreign urlsplit r
      then forbidden
      else enter (is_api r) r.cookie s fresh

-- `current_user`, and `returning_user`, which wants a cookie.
unfoldable pub current_user : List User → ℕ → ℕ → User × List User
unfolding ensure_user
current_user users user_id now = ensure_user users user_id now

unfoldable pub returning_user : List User → ℕ → Bool → ℕ → Result (User × List User)
unfolding ensure_user
returning_user users user_id authenticated now =
    if not authenticated then err (app session_required) else ok (ensure_user users user_id now)

-- `MeResponse`
pub record MeResponse : Type 0 where
  pub nickname : Option (List ℕ)
  pub active_room_slug : Option ℕ

abbrev pub slug_of : Option Room → Option ℕ
slug_of none = none
slug_of (some r) = some r.invite_slug

-- `me`; `has_active_room` says whether there is a slug.
unfoldable pub me : List Room → User → MeResponse
unfolding active_room
me rooms u = record { nickname = u.nickname; active_room_slug = slug_of (active_room rooms u.uuid) }

-- `stored.nickname = normalized`
unfoldable pub set_nickname : List User → ℕ → List ℕ → List User
set_nickname [] user_id text = []
set_nickname (u ∷ us) user_id text =
    (if u.uuid == user_id then record u { nickname = some text } else u)
    ∷ set_nickname us user_id text

module _ (normal : List ℕ → List ℕ) (is_alnum : ℕ → Bool) where
  unfoldable pub nickname : List User → ℕ → List ℕ → Result (List ℕ × List User)
  unfolding normalize_nickname set_nickname
  nickname users user_id text = normalize_nickname normal is_alnum text >>= λ normalized.
      ok (normalized, set_nickname users user_id normalized)
