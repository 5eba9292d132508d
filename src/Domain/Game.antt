-- ===== src/Domain/Game.antt =====
-- app/domain/game: the sequence of emotions (emotions.py), and opening rounds and starting a game
-- (service.py). The random generator is a parameter: what it samples and how it shuffles.
pub mod Starting
use emoselfie_be.Prelude.{
  ℕ, zero, suc, ◌+◌, ◌-◌, ◌*◌, Bool, true, false, ◌&&◌, ◌||◌, Option, none, some, List, [], ◌∷◌,
  ◌++◌, leb, ◌==◌, any, not, if◌then◌else◌,
}
use emoselfie_be.Core.Errors.{
  app, value_error, database_error, Result, ok, err, ◌>>=◌, ◌>>◌, ensure, room_finished,
  room_closed, not_host, game_already_started, not_enough_players,
}
use emoselfie_be.Db.{Room, Participant, Round}
use emoselfie_be.Domain.Enums.{
  EmotionLabel, happy, sad, angry, surprise, neutral, disgust, fear, RoomStatus, playing, revealed,
  active, is_waiting, is_waiting_next_game,
}
use emoselfie_be.Domain.Store.{Store, active_count}

abbrev pub countdown_sec : ℕ
countdown_sec = 3

abbrev pub min_players : ℕ
min_players = 2

-- `FULL_SET`, in the order of `EMOTIONS`
abbrev pub full_set : List EmotionLabel
full_set = happy ∷ sad ∷ angry ∷ surprise ∷ neutral ∷ disgust ∷ fear ∷ []

-- membership in `HARD`
abbrev pub is_hard : EmotionLabel → Bool
is_hard e = elim e [ disgust ↦ true | fear ↦ true | _ ↦ false ]

unfoldable pub adjacent_hard : List EmotionLabel → Bool
adjacent_hard (a ∷ b ∷ rest) = (is_hard a && is_hard b) || adjacent_hard (b ∷ rest)
adjacent_hard _ = false

abbrev pub shuffle_attempts : ℕ
shuffle_attempts = 20

module _ (sample : ℕ → List EmotionLabel)
    (shuffle : ℕ → List EmotionLabel → List EmotionLabel) where
  -- The loop of `build_sequence`, with the attempts that are left.
  unfoldable pub separate : ℕ → List EmotionLabel → List EmotionLabel
  unfolding adjacent_hard
  separate zero s = s
  separate (suc n) s = elim (adjacent_hard s) [ true ↦ separate n (shuffle n s) | false ↦ s ]

  unfoldable pub build_sequence : ℕ → Result (List EmotionLabel)
  unfolding separate
  build_sequence round_count =
      if leb 1 round_count && leb round_count 7
      then ok (separate shuffle_attempts (sample round_count))
      else err value_error

-- `require_open` and `require_host` of app/domain/room/service.py
unfoldable pub require_open : Room → Result (Unit {0})
require_open room = elim room.status [
  | RoomStatus.finished ↦ err (app room_finished)
  | RoomStatus.closed ↦ err (app room_closed)
  | _ ↦ ok tt
]

unfoldable pub require_host : Room → ℕ → Result (Unit {0})
require_host room user_id = ensure (room.host_user_id == user_id) (app not_host)

-- `xs[i]` with a list's own end as the only failure
abbrev pub get_elem? {ℓ} : {A : Type ℓ} → List A → ℕ → Option A
get_elem? [] i = none
get_elem? (x ∷ xs) zero = some x
get_elem? (x ∷ xs) (suc i) = get_elem? xs i

-- The round that `open_round` inserts.
abbrev pub opened_round : ℕ → ℕ → Room → EmotionLabel → ℕ → Round
opened_round i index room emotion now = record {
  id = i;
  room_id = room.id;
  index = index;
  target_emotion = emotion;
  status = revealed;
  revealed_at = now;
  deadline_at = now + (countdown_sec + room.time_limit_sec) * 1000;
  finalized_at = none;
  viewing_ends_at = none;
  closed_at = none;
}

-- The constraints of the table: a room's rounds have different indices, from 1 to 7.
abbrev pub is_taken : Room → ℕ → List Round → Bool
is_taken room index rounds = any (λ r. (r.room_id == room.id) && (r.index == index)) rounds

abbrev pub violates : Store → ℕ → Bool
violates st index = is_taken st.room index st.rounds || not (leb 1 index && leb index 7)

unfoldable pub open_round : Store → ℕ → ℕ → Result (Round × Store)
open_round st index now =
    elim (if leb 1 index then get_elem? st.room.emotion_sequence (index - 1) else none) [
      | none ↦ err value_error
      | some emotion ↦
          if violates st index
          then err database_error
          else (let current = opened_round st.next_id index st.room emotion now in
              ok (
                current,
                record st {
                  rounds = st.rounds ++ current ∷ [];
                  next_id = st.next_id + 1;
                  room = record (st.room) {
                    current_round_id = some st.next_id;
                    last_active_at = now;
                  };
                },
              ))
    ]

-- `update(Participant)...values(status=ACTIVE)`
abbrev pub activate : Participant → Participant
activate m = if is_waiting_next_game m.status then record m { status = active } else m

abbrev pub activate_all : List Participant → List Participant
activate_all [] = []
activate_all (m ∷ ms) = activate m ∷ activate_all ms

-- The room and the members as a start leaves them, before the first round is opened.
abbrev pub started_store : Store → List EmotionLabel → Store
started_store st sequence = record st {
  room = record (st.room) { emotion_sequence = sequence; status = playing; consecutive_voided = 0 };
  members = activate_all st.members;
}

module _ (sample : ℕ → List EmotionLabel)
    (shuffle : ℕ → List EmotionLabel → List EmotionLabel) where
  unfoldable pub start_game : Store → ℕ → Result (Round × Store)
  unfolding require_open active_count build_sequence open_round
  start_game st now = do
    require_open st.room
    ensure (is_waiting st.room.status) (app game_already_started)
    ensure (leb min_players (active_count st.members)) (app not_enough_players)
    sequence ← build_sequence sample shuffle st.room.round_count
    open_round (started_store st sequence) 1 now
