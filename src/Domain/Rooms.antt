-- ===== src/Domain/Rooms.antt =====
-- app/domain/room/service.py and app/domain/user/service.py: the tables of rooms and users. Creating a
-- room runs as one step, and the slugs that it draws are its argument.
pub mod Creation
use emoselfie_be.Prelude.{
  ℕ, ◌+◌, Bool, true, false, ◌&&◌, ◌||◌, Option, none, some, List, [], ◌∷◌, ◌++◌, ◌==◌,
  if◌then◌else◌, any, take,
}
use emoselfie_be.Core.Errors.{Result, ok, err, app, service_unavailable}
use emoselfie_be.Db.{Room, find}
use emoselfie_be.Domain.Enums.{RoomStatus, is_waiting, is_playing}

pub record User : Type 0 where
  pub uuid : ℕ
  pub nickname : Option (List ℕ)
  pub last_seen_at : ℕ

pub record RoomTable : Type 0 where
  pub rooms : List Room
  -- the next value of the identity column
  pub next_id : ℕ

-- `Room.status.in_([WAITING, PLAYING])`, the condition of the index `uq_room_active_owner` too
abbrev pub is_live : Room → Bool
is_live r = is_waiting r.status || is_playing r.status

abbrev pub hosts_live : ℕ → Room → Bool
hosts_live user_id r = (r.host_user_id == user_id) && is_live r

unfoldable pub active_room : List Room → ℕ → Option Room
active_room rooms user_id = find (hosts_live user_id) rooms

-- The unique indexes: a row with this slug, or an active room of the host.
abbrev pub conflicts : ℕ → ℕ → List Room → Bool
conflicts slug user_id rooms = any (λ r. (r.invite_slug == slug) || hosts_live user_id r) rooms

abbrev pub new_room : ℕ → ℕ → ℕ → ℕ → ℕ → ℕ → Room
new_room i user_id slug round_count time_limit_sec now = record {
  id = i;
  invite_slug = slug;
  host_user_id = user_id;
  status = RoomStatus.waiting;
  round_count = round_count;
  time_limit_sec = time_limit_sec;
  emotion_sequence = [];
  current_round_id = none;
  consecutive_voided = 0;
  last_active_at = now;
}

-- The loop of `create_room`, over the slugs that it draws. An insert that conflicts uses up an id.
unfoldable pub try_slugs : RoomTable → ℕ → ℕ → ℕ → ℕ → List ℕ → Result (Room × Bool) × RoomTable
unfolding active_room
try_slugs t user_id round_count time_limit_sec now [] = (err (app service_unavailable), t)
try_slugs t user_id round_count time_limit_sec now (slug ∷ slugs) =
    let room = new_room t.next_id user_id slug round_count time_limit_sec now in
    let used = record t { next_id = t.next_id + 1 } in
    let rest = try_slugs used user_id round_count time_limit_sec now slugs in
    if conflicts slug user_id t.rooms
    then (elim (active_room t.rooms user_id) [
      | some existing ↦ (ok (existing, true), used)
      | none ↦ rest
    ])
    else (ok (room, false), record used { rooms = t.rooms ++ room ∷ [] })

unfoldable pub create_room : RoomTable → ℕ → ℕ → ℕ → ℕ → List ℕ → Result (Room × Bool) × RoomTable
unfolding try_slugs
create_room t user_id round_count time_limit_sec now slugs =
    try_slugs t user_id round_count time_limit_sec now (take 5 slugs)

-- `ensure_user`: the row of the user, seen now, and the table.
unfoldable pub ensure_user : List User → ℕ → ℕ → User × List User
ensure_user [] user_id now =
    let u : User = record { uuid = user_id; nickname = none; last_seen_at = now } in (u, u ∷ [])
ensure_user (u ∷ us) user_id now =
    let seen = record u { last_seen_at = now } in
    let (v, vs) = ensure_user us user_id now in
    if u.uuid == user_id then (seen, seen ∷ us) else (v, u ∷ vs)
