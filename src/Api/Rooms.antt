-- ===== src/Api/Rooms.antt =====
-- app/api/rooms.py: the transactions of its routes, those that change a room under its row lock, and
-- the timers that follow them. Rate limits and events are not modelled.
use emoselfie_be.Prelude.{
  ℕ, ◌+◌, ◌*◌, Bool, true, false, not, ◌&&◌, ◌||◌, Option, none, some, List, leb, ◌==◌,
  if◌then◌else◌,
}
use emoselfie_be.Core.Errors.{
  Result, ok, err, app, ensure, ◌>>=◌, ◌>>◌, room_not_found, invalid_request, game_already_started,
}
use emoselfie_be.Db.{Room, Participant}
use emoselfie_be.Domain.Enums.{EmotionLabel, RoomStatus, is_waiting}
use emoselfie_be.Domain.Store.{Store}
use emoselfie_be.Domain.Scheduler.{JobKind}
use emoselfie_be.Domain.Game.{require_open, require_host, start_game}
use emoselfie_be.Domain.Lobby.{join_room, occupied_count, current_participant}
use emoselfie_be.Domain.Rooms.{RoomTable, create_room}
use emoselfie_be.Realtime.Delivery.{LobbySnapshot, lobby_snapshot}
use emoselfie_be.Domain.Lifecycle.{World, arm, job}

-- `get_room`: the store holds the rows of one room.
unfoldable pub get_room : Store → ℕ → Result Room
get_room st slug = if st.room.invite_slug == slug then ok st.room else err (app room_not_found)

-- A field of a JSON body: absent, null, or with a value.
abbrev pub Field : Type 0
Field = Option (Option ℕ)

abbrev pub is_absent : Field → Bool
is_absent none = true
is_absent (some _) = false

abbrev pub is_null : Field → Bool
is_null (some none) = true
is_null _ = false

abbrev pub field_or : Field → ℕ → ℕ
field_or (some (some n)) _ = n
field_or _ old = old

unfoldable pub update_settings : Store → ℕ → ℕ → Field → Field → ℕ → Result Store
unfolding get_room require_host require_open
update_settings st slug user_id round_count time_limit_sec now = do
  ensure
      (not (
        (is_absent round_count && is_absent time_limit_sec)
        || is_null round_count
        || is_null time_limit_sec))
      (app invalid_request)
  room ← get_room st slug
  require_host room user_id
  require_open room
  ensure (is_waiting room.status) (app game_already_started)
  ok (record st {
    room = record room {
      round_count = field_or round_count room.round_count;
      time_limit_sec = field_or time_limit_sec room.time_limit_sec;
      last_active_at = now;
    };
  })

abbrev pub is_closed : RoomStatus → Bool
is_closed s = elim s [ RoomStatus.closed ↦ true | _ ↦ false ]

-- `close` once the host is known: a closed room is closed again without an error.
unfoldable pub close_by_host : Store → ℕ → Result Store
close_by_host st now =
    if is_closed st.room.status
    then ok st
    else if is_waiting st.room.status
    then ok
        (record st { room = record (st.room) { status = RoomStatus.closed; last_active_at = now } })
    else err (app game_already_started)

unfoldable pub close : Store → ℕ → ℕ → ℕ → Result Store
unfolding get_room require_host close_by_host
close st slug user_id now = do
  room ← get_room st slug
  require_host room user_id
  close_by_host st now

module _ (sample : ℕ → List EmotionLabel)
    (shuffle : ℕ → List EmotionLabel → List EmotionLabel) where
  unfoldable pub start : World → ℕ → ℕ → ℕ → Result World
  unfolding get_room require_host start_game
  start w slug user_id now = do
    room ← get_room w.store slug
    require_host room user_id
    r ← start_game sample shuffle w.store now
    ok (arm (job JobKind.round_deadline r.0.id) r.0.deadline_at (record w { store = r.1 }))

module _ (normal : List ℕ → List ℕ) (is_alnum : ℕ → Bool) where
  -- The slot is held until the grace ends.
  unfoldable pub join : World → ℕ → ℕ → List ℕ → ℕ → ℕ → Result (Participant × World)
  unfolding get_room join_room
  join w slug user_id nickname grace_sec now = do
    room ← get_room w.store slug
    r ← join_room normal is_alnum w.store user_id nickname now
    ok (
      r.0,
      arm (job JobKind.participant_left r.0.id) (now + grace_sec * 1000) (record w { store = r.1 }),
    )

-- `CreatedRoom`, and `RoomPreview` with its settings
pub record CreatedRoom : Type 0 where
  pub slug : ℕ
  pub status : RoomStatus
  pub round_count : ℕ
  pub time_limit_sec : ℕ
  pub existing : Bool

pub record RoomPreview : Type 0 where
  pub status : RoomStatus
  pub is_full : Bool
  pub is_host : Bool
  pub round_count : ℕ
  pub time_limit_sec : ℕ

abbrev pub created_view : Room × Bool → CreatedRoom
created_view (room, existing) = record {
  slug = room.invite_slug;
  status = room.status;
  round_count = room.round_count;
  time_limit_sec = room.time_limit_sec;
  existing = existing;
}

-- The transaction of `create`; `slugs` are those that it draws.
unfoldable pub create : RoomTable → ℕ → ℕ → ℕ → ℕ → List ℕ → Result CreatedRoom × RoomTable
unfolding create_room
create t user_id round_count time_limit_sec now slugs =
    let (r, t') = create_room t user_id round_count time_limit_sec now slugs in
    ((r >>= λ x. ok (created_view x)), t')

unfoldable pub preview : Store → ℕ → ℕ → Result RoomPreview
unfolding get_room require_open occupied_count
preview st slug user_id = do
  room ← get_room st slug
  require_open room
  ok (record {
    status = room.status;
    is_full = leb 12 (occupied_count st);
    is_host = room.host_user_id == user_id;
    round_count = room.round_count;
    time_limit_sec = room.time_limit_sec;
  })

-- `lobby_state`
unfoldable pub lobby_state : Store → ℕ → ℕ → Result LobbySnapshot
unfolding get_room current_participant lobby_snapshot
lobby_state st slug user_id = do
  room ← get_room st slug
  m ← current_participant st user_id
  lobby_snapshot st m
