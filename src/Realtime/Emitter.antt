-- ===== src/Realtime/Emitter.antt =====
-- app/realtime/emitter.py: the channel that each event may use.
use emoselfie_be.Prelude.{ℕ, Bool, true, false}
use emoselfie_be.Core.Errors.{Result, ok, err, value_error}

pub data Event : Type 0 where
  -- `PERSONAL_EVENTS`
  room_joined room_closed session_superseded round_revealed round_missed round_missed_update : Event
  -- `ROOM_EVENTS`
  game_started round_voided game_finished participant_removed : Event
  -- `VIEWER_EVENTS`
  round_finalized round_closed submission_scored reaction_updated round_skip_status : Event
  -- `PLAYER_EVENTS`
  submission_status : Event

abbrev pub is_personal : Event → Bool
is_personal e = elim e [
  | room_joined ↦ true
  | room_closed ↦ true
  | session_superseded ↦ true
  | round_revealed ↦ true
  | round_missed ↦ true
  | round_missed_update ↦ true
  | _ ↦ false
]

abbrev pub is_room : Event → Bool
is_room e = elim e [
  | game_started ↦ true
  | round_voided ↦ true
  | game_finished ↦ true
  | participant_removed ↦ true
  | _ ↦ false
]

abbrev pub is_viewer : Event → Bool
is_viewer e = elim e [
  | round_finalized ↦ true
  | round_closed ↦ true
  | submission_scored ↦ true
  | reaction_updated ↦ true
  | round_skip_status ↦ true
  | _ ↦ false
]

abbrev pub is_player : Event → Bool
is_player e = elim e [ submission_status ↦ true | _ ↦ false ]

-- Whom a message goes to: `to=sid`, `room=f"r:{room_id}"`, `room=f"r:{room_id}:players"`.
pub data Channel : Type 0 where
  socket room players : ℕ → Channel

pub record Message {ℓ} (B : Type ℓ) : Type ℓ where
  pub event : Event
  pub channel : Channel
  pub body : B

-- `if event not in EVENTS: raise ValueError(...)`, then `server.emit`
abbrev pub emit {ℓ} : {B : Type ℓ} → Bool → Event → Channel → B → Result (Message B)
emit allowed event channel body = elim allowed [
  | true ↦ ok (record { event = event; channel = channel; body = body })
  | false ↦ err value_error
]

abbrev pub personal {ℓ} : {B : Type ℓ} → Event → ℕ → B → Result (Message B)
personal event sid body = emit (is_personal event) event (Channel.socket sid) body

abbrev pub to_room {ℓ} : {B : Type ℓ} → Event → ℕ → B → Result (Message B)
to_room event room_id body = emit (is_room event) event (Channel.room room_id) body

abbrev pub viewers {ℓ} : {B : Type ℓ} → Event → ℕ → B → Result (Message B)
viewers event sid body = emit (is_viewer event) event (Channel.socket sid) body

abbrev pub to_players {ℓ} : {B : Type ℓ} → Event → ℕ → B → Result (Message B)
to_players event room_id body = emit (is_player event) event (Channel.players room_id) body
