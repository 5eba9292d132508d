-- ===== src/Realtime/Connections.antt =====
-- `Realtime.connect`, `disconnect` and `ping` of app/realtime/server.py, and
-- `reconcile_connections` of app/domain/round/runner.py, on the rows of all rooms.
use emoselfie_be.Prelude.{
  ℕ, ◌+◌, ◌*◌, Bool, false, not, ◌&&◌, ◌||◌, Option, none, some, List, [], ◌∷◌, ◌==◌, if◌then◌else◌,
  keep,
}
use emoselfie_be.Prelude.Sets.{has}
use emoselfie_be.Prelude.Dict.{lookup}
use emoselfie_be.Core.Errors.{
  Result, or_error, ok, err, app, ensure, ◌>>=◌, ◌>>◌, not_a_participant, room_not_found,
  service_unavailable,
}
use emoselfie_be.Db.{Room, Participant, find}
use emoselfie_be.Domain.Enums.{ConnectionStatus, is_waiting, is_playing, is_connected}
use emoselfie_be.Domain.Store.{get_member, put_member}
use emoselfie_be.Domain.Scheduler.{Timers, JobKind, schedule, cancel}
use emoselfie_be.Domain.Game.{require_open}
use emoselfie_be.Domain.Lobby.{is_occupying}
use emoselfie_be.Domain.Lifecycle.{job}
use emoselfie_be.Realtime.{
  Context, Sockets, claim_socket, release_socket, refresh_socket, forget_presence, socket_is_live,
}

-- The rows of all rooms, the sockets, and the timers.
pub record Hub : Type 0 where
  pub users : List ℕ
  pub rooms : List Room
  pub members : List Participant
  pub sockets : Sockets
  pub timers : Timers

-- The process that accepts a socket: its id, and the grace of its settings.
pub record Pod : Type 0 where
  pub id : ℕ
  pub grace_sec : ℕ

abbrev pub put_room : Room → List Room → List Room
put_room r [] = []
put_room r (x ∷ xs) = (if x.id == r.id then r else x) ∷ put_room r xs

abbrev pub disconnected_member : ℕ → Participant → Participant
disconnected_member now m = record m {
  connection_status = ConnectionStatus.disconnected;
  disconnected_at = some now;
}

-- `update(Participant).where(Participant.id == ...)`
abbrev pub mark_disconnected : ℕ → ℕ → List Participant → List Participant
mark_disconnected i now [] = []
mark_disconnected i now (m ∷ ms) =
    (if m.id == i then disconnected_member now m else m) ∷ mark_disconnected i now ms

abbrev pub connected_member : Participant → Participant
connected_member m = record m {
  connection_status = ConnectionStatus.connected;
  disconnected_at = none;
}

-- `hold_slot` and `keep_slot` of the runner
unfoldable pub hold_slot : Timers → ℕ → ℕ → ℕ → Timers
hold_slot ts participant_id grace_sec now =
    schedule ts (job JobKind.participant_left participant_id) (now + grace_sec * 1000)

unfoldable pub keep_slot : Timers → ℕ → Timers
keep_slot ts participant_id = (cancel ts (job JobKind.participant_left participant_id)).1

-- `disconnect`: only the socket that its user still holds takes the participant along.
unfoldable pub disconnect_of : Hub → ℕ → Context → ℕ → ℕ → Hub
unfolding release_socket forget_presence hold_slot
disconnect_of h sid c grace_sec now =
    let (current, k) = release_socket h.sockets c.user_id sid in
    if current
    then record h {
      sockets = forget_presence k c.room_id c.participant_id;
      members = mark_disconnected c.participant_id now h.members;
      timers = hold_slot h.timers c.participant_id grace_sec now;
    }
    else record h { sockets = k }

unfoldable pub disconnect : Hub → ℕ → ℕ → ℕ → Hub
unfolding disconnect_of
disconnect h sid grace_sec now = elim (lookup sid h.sockets.contexts) [
  | none ↦ h
  | some c ↦ disconnect_of h sid c grace_sec now
]

-- The participant whom the user's old socket was opened for, if it is another one.
abbrev pub left_behind : ℕ → Option Context → Option ℕ
left_behind participant_id none = none
left_behind participant_id (some c) =
    if c.participant_id == participant_id then none else some c.participant_id

abbrev pub old_context : Option ℕ → Sockets → Option Context
old_context none k = none
old_context (some sid) k = lookup sid k.contexts

-- `connect` from the claim of the socket on, for a participant of a room that waits.
unfoldable pub establish : Hub → ℕ → Pod → Participant → Room → ℕ → Option ℕ × Hub
unfolding claim_socket hold_slot keep_slot
establish h sid pod m room now =
    let c : Context = record {
      user_id = m.user_id;
      participant_id = m.id;
      room_id = room.id;
      pod_id = pod.id;
    } in
    let (old_sid, k) = claim_socket h.sockets sid c in
    let left = left_behind m.id (old_context old_sid k) in
    let others : List Participant = elim left [
      | none ↦ h.members
      | some p ↦ mark_disconnected p now h.members
    ] in
    let kept = keep_slot h.timers m.id in
    let timers : Timers = elim left [ none ↦ kept | some p ↦ hold_slot kept p pod.grace_sec now ] in
    (
      old_sid,
      record h {
        sockets = k;
        members = put_member (connected_member m) others;
        rooms = put_room (record room { last_active_at = now }) h.rooms;
        timers = timers;
      },
    )

abbrev pub is_seat : ℕ → ℕ → Participant → Bool
is_seat room_id user_id m = (m.room_id == room_id) && ((m.user_id == user_id) && is_occupying m)

-- The checks of `connect`, before anything is written: the identity is that of the cookie.
unfoldable pub admit_socket : Hub → Option ℕ → ℕ → Result (Participant × Room)
unfolding require_open
admit_socket h identity slug = do
  user_id ← or_error identity (err (app not_a_participant))
  ensure (has user_id h.users) (app not_a_participant)
  room ← or_error (find (λ r. r.invite_slug == slug) h.rooms) (err (app room_not_found))
  require_open room
  m ← or_error (find (is_seat room.id user_id) h.members) (err (app not_a_participant))
  ensure (is_waiting room.status) (app service_unavailable)
  ok (m, room)

-- What a connection comes to: the socket that the server then drops, or the refusal.
unfoldable pub connect : Hub → ℕ → Pod → Option ℕ → ℕ → ℕ → Result (Option ℕ) × Hub
unfolding admit_socket establish disconnect
connect h sid pod identity slug now = elim (admit_socket h identity slug) [
  | err e ↦ (err e, disconnect h sid pod.grace_sec now)
  | ok (m, room) ↦ let (old, h') = establish h sid pod m room now in (ok old, h')
]

-- `ping`, less the rate limit.
unfoldable pub ping : Hub → ℕ → ℕ → Result (Unit {0}) × Hub
unfolding refresh_socket
ping h sid now = elim (lookup sid h.sockets.contexts) [
  | none ↦ (err (app not_a_participant), h)
  | some c ↦
      let (refreshed, k) = refresh_socket h.sockets sid c now in
      (ensure refreshed (app not_a_participant), record h { sockets = k })
]

abbrev pub room_is_open : ℕ → List Room → Bool
room_is_open i rooms = elim (find (λ (r : Room). r.id == i) rooms) [
  | none ↦ false
  | some r ↦ is_waiting r.status || is_playing r.status
]

-- `connected_without_socket` of app/domain/participant/service.py
unfoldable pub connected_without_socket : Hub → List Participant
connected_without_socket h =
    keep
      (λ m. room_is_open m.room_id h.rooms && (is_occupying m && is_connected m.connection_status))
      h.members

abbrev pub has_room : ℕ → List Room → Bool
has_room i [] = false
has_room i (r ∷ rs) = (r.id == i) || has_room i rs

-- A step of the loop of `reconcile_connections`, which looks again under the room's lock.
unfoldable pub reconcile_row : ℕ → ℕ → Hub → Participant → ℕ × Hub
unfolding socket_is_live hold_slot
reconcile_row grace_sec now h current =
    if not (is_connected current.connection_status)
      || socket_is_live h.sockets current.user_id current.id
    then (0, h)
    else (
      1,
      record h {
        members = put_member (disconnected_member now current) h.members;
        timers = hold_slot h.timers current.id grace_sec now;
      },
    )

unfoldable pub reconcile_one : ℕ → ℕ → Hub → Participant → ℕ × Hub
unfolding reconcile_row
reconcile_one grace_sec now h m =
    if not (has_room m.room_id h.rooms) then (0, h) else elim (get_member m.id h.members) [
      | none ↦ (0, h)
      | some current ↦ reconcile_row grace_sec now h current
    ]

unfoldable pub reconcile_all : ℕ → ℕ → Hub → List Participant → ℕ × Hub
unfolding reconcile_one
reconcile_all grace_sec now h [] = (0, h)
reconcile_all grace_sec now h (m ∷ ms) =
    let (n, h') = reconcile_one grace_sec now h m in
    let (rest, h'') = reconcile_all grace_sec now h' ms in (n + rest, h'')

unfoldable pub reconcile_connections : Hub → ℕ → ℕ → ℕ × Hub
unfolding connected_without_socket socket_is_live reconcile_all
reconcile_connections h grace_sec now =
    reconcile_all grace_sec now h
      (keep (λ m. not (socket_is_live h.sockets m.user_id m.id)) (connected_without_socket h))
