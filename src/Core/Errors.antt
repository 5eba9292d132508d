-- ===== src/Core/Errors.antt =====
-- app/core/errors.py: the error codes with their HTTP status, and the results of code that raises.
use emoselfie_be.Prelude.{◌≡◌, refl, ℕ, Bool, true, false, Option, none, some}

-- The keys of `ERRORS`.
pub data AppCode : Type 0 where
  room_not_found room_closed room_finished room_full not_host not_a_participant : AppCode
  session_required not_enough_players game_already_started : AppCode
  invalid_settings_combination invalid_nickname deadline_passed already_submitted : AppCode
  not_current_round invalid_capture_token payload_too_large unsupported_media : AppCode
  media_expired not_a_viewer not_scored_yet self_reaction reaction_closed rate_limited : AppCode
  invalid_request not_found method_not_allowed http_error internal_error : AppCode
  forbidden_origin service_unavailable : AppCode

-- What a call raises: an `AppError` with its code, a `ValueError`, or an error of the database, as
-- where a constraint is violated.
pub data Error : Type 0 where
  app : AppCode → Error
  value_error database_error : Error

-- `ERRORS[code].status`
pub status : AppCode → ℕ
status AppCode.room_not_found = 404
status AppCode.room_closed = 410
status AppCode.room_finished = 410
status AppCode.room_full = 409
status AppCode.not_host = 403
status AppCode.not_a_participant = 403
status AppCode.session_required = 403
status AppCode.not_enough_players = 409
status AppCode.game_already_started = 409
status AppCode.invalid_settings_combination = 409
status AppCode.invalid_nickname = 422
status AppCode.deadline_passed = 410
status AppCode.already_submitted = 409
status AppCode.not_current_round = 409
status AppCode.invalid_capture_token = 403
status AppCode.payload_too_large = 413
status AppCode.unsupported_media = 415
status AppCode.media_expired = 410
status AppCode.not_a_viewer = 403
status AppCode.not_scored_yet = 409
status AppCode.self_reaction = 403
status AppCode.reaction_closed = 409
status AppCode.rate_limited = 429
status AppCode.invalid_request = 422
status AppCode.not_found = 404
status AppCode.method_not_allowed = 405
status AppCode.http_error = 400
status AppCode.internal_error = 500
status AppCode.forbidden_origin = 403
status AppCode.service_unavailable = 503

-- What a call comes to: the exception that it raises, or its value.
pub data Result {ℓ} (A : Type ℓ) : Type ℓ where
  err : Error → Result A
  ok : A → Result A

-- `if not test: raise error`
abbrev pub ensure : Bool → Error → Result (Unit {0})
ensure test error = elim test [ true ↦ ok tt | false ↦ err error ]

-- The rest of a body runs with the value of a call, unless the call raises.
infixl 5 ◌>>=◌
abbrev pub ◌>>=◌ {ℓ κ} : {A : Type ℓ} {B : Type κ} → Result A → (A → Result B) → Result B
err raised >>= rest = err raised
ok value >>= rest = rest value

infixl 5 ◌>>◌
abbrev pub ◌>>◌ {ℓ} : {B : Type ℓ} → Result (Unit {0}) → Result B → Result B
call >> rest = call >>= (λ (_ : Unit {0}). rest)

-- `if value is None: raise error`
abbrev pub or_error {ℓ} : {A : Type ℓ} → Option A → Result A → Result A
or_error none raised = raised
or_error (some value) raised = ok value

module _ {ℓ κ} {A : Type ℓ} {B : Type κ} where
  -- A body that returns got a value from its first call, and the rest returned.
  pub >>=-eq-ok :
      (call : Result A) (rest : A → Result B) {value : B}
      → (call >>= rest) ≡ ok value
      → (part : A) × (call ≡ ok part) × (rest part ≡ ok value)
  >>=-eq-ok (err raised) rest returned = cc
  >>=-eq-ok (ok part) rest returned = (part, refl, returned)

  pub ok-pair_inj :
      {a c : A} {b d : B} → ◌≡◌ {A = Result (A × B)} (ok (a, b)) (ok (c, d)) → (a ≡ c) × (b ≡ d)
  ok-pair_inj returned = (cc, cc)

-- The test of a check that passes, and the rest of the body.
pub >>-eq-ok {ℓ} :
    {B : Type ℓ} (test : Bool) (error : Error) (rest : Result B) {value : B}
    → (ensure test error >> rest) ≡ ok value
    → (test ≡ true) × (rest ≡ ok value)
>>-eq-ok true error rest returned = (refl, returned)
>>-eq-ok false error rest returned = cc

pub ok_inj {ℓ} : {A : Type ℓ} (a b : A) → ok a ≡ ok b → a ≡ b
ok_inj a b same = cc

-- The value that is not missing, and the rest of the body.
pub or_error-eq-ok {ℓ κ} :
    {A : Type ℓ} {B : Type κ} (o : Option A) (error : Error) (rest : A → Result B) {value : B}
    → (or_error o (err error) >>= rest) ≡ ok value
    → (part : A) × (o ≡ some part) × (rest part ≡ ok value)
or_error-eq-ok none error rest returned = cc
or_error-eq-ok (some part) error rest returned = (part, refl, returned)
