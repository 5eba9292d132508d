-- ===== src/Realtime/Delivery.antt =====
-- app/realtime/server.py: whom the server sends what. A function returns the messages, in their
-- order; PostgreSQL gives the rows of viewers in an unspecified order, so theorems do not use it.
use emoselfie_be.Prelude.{
  ℕ, ◌+◌, ◌*◌, Bool, not, Option, none, some, List, [], ◌∷◌, ◌++◌, map, ◌==◌, if◌then◌else◌, keep,
  is_some, length, nonempty,
}
use emoselfie_be.Prelude.Sets.{has}
use emoselfie_be.Core.Errors.{Result, ok, app, ensure, ◌>>=◌, ◌>>◌, service_unavailable}
use emoselfie_be.Core.Security.{capture_token}
use emoselfie_be.Db.{Room, Participant, Round}
use emoselfie_be.Domain.Enums.{
  EmotionLabel, ConnectionStatus, ParticipantStatus, RoomStatus, is_waiting, is_playing,
}
use emoselfie_be.Domain.Store.{Store, get_round, active_participants}
use emoselfie_be.Domain.Game.{require_open, countdown_sec}
use emoselfie_be.Domain.Lobby.{lobby_participants}
use emoselfie_be.Realtime.{Sockets, current_sid}
use emoselfie_be.Realtime.Emitter.{
  Event, Message, personal, to_room, viewers, room_joined, room_closed, round_revealed,
  game_started,
}

-- The parts of `lobby_snapshot` of app/domain/room/service.py, less `serverTimeMs`, `game` and
-- the room's `emotionSet`.
pub record MemberView : Type 0 where
  pub participant_id : ℕ
  pub nickname : List ℕ
  pub color_tag : ℕ
  pub connection_status : ConnectionStatus
  pub status : ParticipantStatus
  pub is_host : Bool

pub record MeView : Type 0 where
  pub participant_id : ℕ
  pub nickname : List ℕ
  pub is_host : Bool
  pub status : ParticipantStatus
  pub total_points : ℕ

pub record LobbySnapshot : Type 0 where
  pub slug : ℕ
  pub status : RoomStatus
  pub round_count : ℕ
  pub time_limit_sec : ℕ
  pub me : MeView
  pub participants : List MemberView

abbrev pub member_view : Room → Participant → MemberView
member_view room m = record {
  participant_id = m.id;
  nickname = m.nickname;
  color_tag = m.color_tag;
  connection_status = m.connection_status;
  status = m.status;
  is_host = room.host_user_id == m.user_id;
}

abbrev pub me_view : Room → Participant → MeView
me_view room m = record {
  participant_id = m.id;
  nickname = m.nickname;
  is_host = room.host_user_id == m.user_id;
  status = m.status;
  total_points = m.total_points;
}

unfoldable pub lobby_snapshot : Store → Participant → Result LobbySnapshot
unfolding require_open lobby_participants
lobby_snapshot st m = do
  require_open st.room
  ensure (is_waiting st.room.status) (app service_unavailable)
  ok (record {
    slug = st.room.invite_slug;
    status = st.room.status;
    round_count = st.room.round_count;
    time_limit_sec = st.room.time_limit_sec;
    me = me_view st.room m;
    participants = map (member_view st.room) (lobby_participants st);
  })

-- `started_view` and `revealed_view` of app/domain/game/service.py
pub record StartedView : Type 0 where
  pub round_count : ℕ
  pub time_limit_sec : ℕ
  pub participant_ids : List ℕ

pub record RevealedView : Type 0 where
  pub round_id : ℕ
  pub index : ℕ
  pub round_count : ℕ
  pub emotion : EmotionLabel
  pub countdown_ends_at_ms : ℕ
  pub deadline_at_ms : ℕ
  pub capture_token : List ℕ
  pub active_count : ℕ

pub data Body : Type 0 where
  -- `{"reason": "host_closed"}`
  host_closed : Body
  lobby : LobbySnapshot → Body
  started : StartedView → Body
  revealed : RevealedView → Body

abbrev pub started_view : Room → List Participant → StartedView
started_view room members = record {
  round_count = room.round_count;
  time_limit_sec = room.time_limit_sec;
  participant_ids = map (λ m. m.id) members;
}

-- Each row of a list whose participant has a current socket gets a message.
unfoldable pub to_each {ℓ} :
    {B : Type ℓ}
    → Sockets
    → (ℕ → Participant → Result (Message B))
    → List Participant
    → Result (List (Message B))
unfolding current_sid
to_each k send [] = ok []
to_each k send (m ∷ ms) =
    let rest = to_each k send ms in
    elim (current_sid k m) [
      | none ↦ rest
      | some sid ↦ (send sid m >>= λ x. rest >>= λ xs. ok (x ∷ xs))
    ]

-- `viewers & only`
abbrev pub narrowed : Option (List ℕ) → List ℕ → List ℕ
narrowed none ids = ids
narrowed (some only) ids = keep (λ i. has i only) ids

-- `send_viewers`, with the round's viewer set, and the rows of all participants.
unfoldable pub send_viewers {ℓ} :
    {B : Type ℓ}
    → Sockets
    → List Participant
    → List ℕ
    → Event
    → (Participant → B)
    → Option (List ℕ)
    → Result (List (Message B))
unfolding to_each
send_viewers k rows viewer_ids event payload only =
    let ids = narrowed only viewer_ids in
    if not (nonempty ids)
    then ok []
    else to_each k (λ sid m. viewers event sid (payload m)) (keep (λ m. has m.id ids) rows)

-- `connected_viewers`: those who hold a socket.
unfoldable pub connected_viewers : Sockets → List Participant → List ℕ → List ℕ
unfolding current_sid
connected_viewers k rows viewer_ids =
    if not (nonempty viewer_ids)
    then []
    else map (λ m. m.id)
        (keep (λ m. is_some (current_sid k m)) (keep (λ m. has m.id viewer_ids) rows))

unfoldable pub dropped_sids : Sockets → List Participant → List ℕ
unfolding current_sid
dropped_sids k [] = []
dropped_sids k (m ∷ ms) =
    let rest = dropped_sids k ms in elim (current_sid k m) [ none ↦ rest | some sid ↦ sid ∷ rest ]

-- `refresh_lobby`: the messages, and the sockets that are dropped then.
unfoldable pub refresh_lobby : Sockets → Store → Result (List (Message Body) × List ℕ)
unfolding lobby_participants lobby_snapshot to_each dropped_sids
refresh_lobby k st = elim st.room.status [
  | RoomStatus.closed ↦
      (to_each k (λ sid m. personal room_closed sid host_closed) (lobby_participants st) >>= λ sent.
      ok (sent, dropped_sids k (lobby_participants st)))
  | RoomStatus.waiting ↦
      (to_each k (λ sid m. lobby_snapshot st m >>= λ view. personal room_joined sid (lobby view))
          (lobby_participants st)
        >>= λ sent. ok (sent, []))
  | _ ↦ ok ([], [])
]

module _ (digest : List ℕ → List ℕ → List ℕ) (secret : List ℕ) where
  unfoldable pub revealed_view : Room → Round → Participant → ℕ → RevealedView
  unfolding capture_token
  revealed_view room current m active_total = record {
    round_id = current.id;
    index = current.index;
    round_count = room.round_count;
    emotion = current.target_emotion;
    countdown_ends_at_ms = current.revealed_at + countdown_sec * 1000;
    deadline_at_ms = current.deadline_at;
    capture_token = capture_token digest current.id m.id current.deadline_at secret;
    active_count = active_total;
  }

  -- The transaction of `announce_round`, when its round is found.
  unfoldable pub announce : Sockets → Store → Round → Bool → Result (List (Message Body))
  unfolding active_participants to_each revealed_view
  announce k st current first =
      let members = active_participants st.members in
      (if first
        then (to_room game_started st.room.id (started (started_view st.room members)) >>= λ x.
            ok (x ∷ []))
        else ok [])
      >>= λ head.
          to_each k
            (λ sid m.
              personal round_revealed sid
                (revealed (revealed_view st.room current m (length members))))
            members
          >>= λ rest. ok (head ++ rest)

  unfoldable pub announce_round : Sockets → Store → Bool → Result (List (Message Body))
  unfolding announce
  announce_round k st first =
      if not (is_playing st.room.status) then ok [] else elim st.room.current_round_id [
        | none ↦ ok []
        | some i ↦ elim (get_round i st) [
          | none ↦ ok []
          | some current ↦ announce k st current first
        ]
      ]
