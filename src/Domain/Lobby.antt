-- ===== src/Domain/Lobby.antt =====
-- app/domain/room/service.py and app/api/rooms.py: entering a room, its settings, and closing it.
-- Unicode normalisation and character classes are a parameter of `normalize_nickname`.
pub mod Capacity
pub mod Joining
use emoselfie_be.Prelude.{
  ℕ, zero, suc, ◌+◌, ◌-◌, Bool, true, false, not, ◌&&◌, ◌||◌, Option, none, some, List, [], ◌∷◌,
  ◌++◌, map, ltb, leb, ◌==◌, if◌then◌else◌, length, keep, or_else, is_some, ℤ, pos, any,
}
use emoselfie_be.Prelude.Sets.{has}
use emoselfie_be.Prelude.Sort.{sort_by}
use emoselfie_be.Core.Errors.{
  Error, app, Result, ok, err, ◌>>=◌, ◌>>◌, ensure, room_full, invalid_nickname, not_a_participant,
  service_unavailable, game_already_started, invalid_request,
}
use emoselfie_be.Db.{Room, Participant, find}
use emoselfie_be.Domain.Enums.{
  RoomStatus, ParticipantStatus, ConnectionStatus, active, waiting_next_game, disconnected,
  is_active, is_waiting_next_game, is_left, is_waiting,
}
use emoselfie_be.Domain.Store.{Store, put_member, joined_key}
use emoselfie_be.Domain.Game.{require_open, require_host}

-- `Participant.status.in_(OCCUPYING)`
abbrev pub is_occupying : Participant → Bool
is_occupying m = is_active m.status || is_waiting_next_game m.status

abbrev pub capacity : ℕ
capacity = 12

abbrev pub occupants : List Participant → List Participant
occupants = keep is_occupying

abbrev pub colors : List Participant → List ℕ
colors = map (λ m. m.color_tag)

-- `next(index for index in range(12) if index not in used)`, from `index` on: `none` if it stops.
unfoldable pub first_free : ℕ → ℕ → List ℕ → Option ℕ
first_free zero index used = none
first_free (suc n) index used =
    let rest = first_free n (index + 1) used in if has index used then rest else some index

unfoldable pub choose_color : Option Participant → List ℕ → Option ℕ
unfolding first_free
choose_color none used = first_free capacity 0 used
choose_color (some m) used =
    if has m.color_tag used then first_free capacity 0 used else some m.color_tag

abbrev pub entry_status : RoomStatus → ParticipantStatus
entry_status s = if is_waiting s then active else waiting_next_game

-- The row of a first entry, with the columns' defaults.
abbrev pub new_member : ℕ → Room → ℕ → List ℕ → ℕ → ℕ → Participant
new_member i room user_id nickname color now = record {
  id = i;
  room_id = room.id;
  user_id = user_id;
  nickname = nickname;
  color_tag = color;
  status = entry_status room.status;
  connection_status = disconnected;
  disconnected_at = some now;
  total_points = 0;
  best_round_score = 0;
  joined_at = now;
}

-- The row of a return after leaving: points and `joined_at` stay.
abbrev pub returned : Participant → Room → List ℕ → ℕ → ℕ → Participant
returned m room nickname color now = record m {
  nickname = nickname;
  color_tag = color;
  status = entry_status room.status;
  connection_status = disconnected;
  disconnected_at = some now;
}

abbrev pub enter : Store → Option Participant → ℕ → List ℕ → ℕ → ℕ → Participant × Store
enter st old user_id nickname color now = elim old [
  | none ↦
      let m = new_member st.next_id st.room user_id nickname color now in
      (
        m,
        record st {
          members = st.members ++ m ∷ [];
          next_id = st.next_id + 1;
          room = record (st.room) { last_active_at = now };
        },
      )
  | some p ↦
      let m = returned p st.room nickname color now in
      (
        m,
        record st {
          members = put_member m st.members;
          room = record (st.room) { last_active_at = now };
        },
      )
]

abbrev pub is_user : ℕ → Participant → Bool
is_user user_id m = m.user_id == user_id

-- The early return of `join_room` for a user who is in the room.
abbrev pub if_occupying :
    Option Participant → Store → Result (Participant × Store) → Result (Participant × Store)
if_occupying none st rest = rest
if_occupying (some p) st rest = if is_occupying p then ok (p, st) else rest

-- `join_room` from the count of the room's occupants on.
unfoldable pub admit : Store → Option Participant → ℕ → List ℕ → ℕ → Result (Participant × Store)
unfolding choose_color
admit st old user_id text now =
    if leb capacity (length (occupants st.members))
    then err (app room_full)
    else elim (choose_color old (colors (occupants st.members))) [
      | none ↦ err (app service_unavailable)
      | some color ↦ ok (enter st old user_id text color now)
    ]

-- `normalize_nickname`, with `strip` and NFC, and the classes of characters, as parameters.
module _ (normal : List ℕ → List ℕ) (is_alnum : ℕ → Bool) where
  unfoldable pub normalize_nickname : List ℕ → Result (List ℕ)
  normalize_nickname value =
      let text = normal value in
      if not (leb 2 (length text) && leb (length text) 10)
        || any (λ c. not (is_alnum c || (c == 32))) text
      then err (app invalid_nickname)
      else ok text

  -- `join_room`; a full range of colours, on which `next` would raise, is a server error.
  unfoldable pub join_room : Store → ℕ → List ℕ → ℕ → Result (Participant × Store)
  unfolding require_open normalize_nickname admit
  join_room st user_id nickname now = do
    require_open st.room
    text ← normalize_nickname nickname
    let old = find (is_user user_id) st.members
    if_occupying old st (admit st old user_id text now)

-- `current_participant`
unfoldable pub current_participant : Store → ℕ → Result Participant
current_participant st user_id = elim (find (λ m. is_user user_id m && is_occupying m) st.members) [
  | none ↦ err (app not_a_participant)
  | some m ↦ ok m
]

unfoldable pub occupied_count : Store → ℕ
occupied_count st = length (occupants st.members)

unfoldable pub lobby_participants : Store → List Participant
unfolding sort_by
lobby_participants st = sort_by joined_key (occupants st.members)
