-- ===== src/Realtime.antt =====
-- app/realtime/server.py: who is connected, and what may be sent to whom. The sockets of all users
-- live in Redis as `Sockets`; the expiry of keys is not modelled. An effect is a call of the
-- Socket.IO server: where it drops a socket, the handler `disconnect` runs as a step of its own.
pub mod Connections
pub mod Registry
pub mod Tracking
pub mod Steps
pub mod Superseding
pub mod Replaced
pub mod Emitter
pub mod Delivery
pub mod Recipients
pub mod Audience
pub mod Tokens
pub mod Actions
pub mod Reacting
pub mod Skipping
use emoselfie_be.Prelude.{
  ℕ, Bool, true, false, not, ◌&&◌, Option, none, some, List, [], ◌∷◌, ◌==◌, if◌then◌else◌, or_else,
  is_some,
}
use emoselfie_be.Prelude.Sets.{has, add, discard}
use emoselfie_be.Prelude.Dict.{Dict, lookup, insert, erase}
use emoselfie_be.Db.{Participant}

-- The hash `sock:{sid}`.
pub record Context : Type 0 where
  pub user_id : ℕ
  pub participant_id : ℕ
  pub room_id : ℕ
  pub pod_id : ℕ

pub record Sockets : Type 0 where
  -- `user:sock:{user}`: the socket that a user holds
  pub held : Dict ℕ
  pub contexts : Dict Context
  -- for each room, when a participant was last heard of
  pub presence : Dict (Dict ℕ)
  -- the Pods whose heartbeat is alive
  pub pods : List ℕ

-- `CLAIM_SOCKET`: the socket that the user held before, and the new state.
unfoldable pub claim_socket : Sockets → ℕ → Context → Option ℕ × Sockets
claim_socket k sid c = (
  lookup c.user_id k.held,
  record k { held = insert c.user_id sid k.held; contexts = insert sid c k.contexts },
)

abbrev pub holds_socket : Sockets → ℕ → ℕ → Bool
holds_socket k user_id sid = elim (lookup user_id k.held) [ none ↦ false | some s ↦ s == sid ]

-- `RELEASE_SOCKET`: whether the user still held this socket.
unfoldable pub release_socket : Sockets → ℕ → ℕ → Bool × Sockets
release_socket k user_id sid =
    let gone = record k { contexts = erase sid k.contexts } in
    if holds_socket k user_id sid
    then (true, record gone { held = erase user_id k.held })
    else (false, gone)

abbrev pub present_in : ℕ → Sockets → Dict ℕ
present_in room_id k = or_else (lookup room_id k.presence) []

-- `REFRESH_SOCKET`, less the expiry that it renews.
unfoldable pub refresh_socket : Sockets → ℕ → Context → ℕ → Bool × Sockets
refresh_socket k sid c now =
    if holds_socket k c.user_id sid
    then (
      true,
      record k {
        presence =
            insert c.room_id (insert c.participant_id now (present_in c.room_id k)) k.presence;
      },
    )
    else (false, k)

-- `hdel(room_key(room_id, "presence"), participant_id)`
unfoldable pub forget_presence : Sockets → ℕ → ℕ → Sockets
forget_presence k room_id participant_id = record k {
  presence = insert room_id (erase participant_id (present_in room_id k)) k.presence;
}

abbrev pub is_of : ℕ → Option Context → Bool
is_of participant_id none = false
is_of participant_id (some c) = c.participant_id == participant_id

-- `current_sid`: the user's socket, if it was opened for this participant.
unfoldable pub current_sid : Sockets → Participant → Option ℕ
current_sid k m = elim (lookup m.user_id k.held) [
  | none ↦ none
  | some sid ↦ if is_of m.id (lookup sid k.contexts) then some sid else none
]

abbrev pub runs_for : ℕ → List ℕ → Option Context → Bool
runs_for participant_id pods none = false
runs_for participant_id pods (some c) = (c.participant_id == participant_id) && has c.pod_id pods

-- `socket_is_live` of app/domain/participant/service.py: also the Pod of the socket is alive.
unfoldable pub socket_is_live : Sockets → ℕ → ℕ → Bool
socket_is_live k user_id participant_id = elim (lookup user_id k.held) [
  | none ↦ false
  | some sid ↦ runs_for participant_id k.pods (lookup sid k.contexts)
]

-- `redis.set(pod_key(self.pod_id), "1", ...)` of `start_heartbeat`
unfoldable pub start_heartbeat : Sockets → ℕ → Sockets
start_heartbeat k pod_id = record k { pods = add pod_id k.pods }

-- `redis.delete(pod_key(self.pod_id))` of `shutdown`
unfoldable pub shutdown : Sockets → ℕ → Sockets
shutdown k pod_id = record k { pods = discard pod_id k.pods }
