-- ===== src/Realtime/Steps.antt =====
-- The handlers of app/realtime/server.py in any order, on the rows and the sockets together.
use emoselfie_be.Prelude.{
  ℕ, ◌≡◌, refl, ◌∙◌, Bool, true, false, not, ◌||◌, Option, none, some, List, [], ◌∷◌, arith,
  if◌then◌else◌, is_some, Bool-cases, inl, inr, All, all, keep, ◌++◌,
}
use emoselfie_be.Prelude.Dict.{lookup}
use emoselfie_be.Core.Errors.{Result, ok, err, ensure, app, not_a_participant}
use emoselfie_be.Db.{Room, Participant}
use emoselfie_be.Domain.Enums.{is_connected}
use emoselfie_be.Domain.Store.{get_member}
use emoselfie_be.Domain.Lobby.{new_member}
use emoselfie_be.Prelude.Every.{All-append}
use emoselfie_be.Realtime.{
  Context, Sockets, refresh_socket, holds_socket, current_sid, socket_is_live, start_heartbeat,
  shutdown,
}
use emoselfie_be.Realtime.Connections.{
  Hub, Pod, connected_without_socket, disconnected_member, disconnect, establish, admit_socket,
  connect, ping, reconcile_one, reconcile_row, has_room, reconcile_all, reconcile_connections,
}
use emoselfie_be.Realtime.Tracking.{IsTracked, disconnect-IsTracked, establish-IsTracked}
use emoselfie_be.Realtime.Registry.{
  IsOwned, reaches, IsReached, put-IsReached, weaken-IsReached, current_sid-reaches,
}

connect-IsTracked :
    (h : Hub) (sid : ℕ) (pod : Pod) (identity : Option ℕ) (slug now : ℕ)
    → lookup sid h.sockets.contexts ≡ none
    → IsTracked h
    → IsTracked (connect h sid pod identity slug now).1
unfolding connect
connect-IsTracked h sid pod identity slug now fresh t = by_check (admit_socket h identity slug)
  where
    by_check :
        (r : Result (Participant × Room))
        → IsTracked
            (elim r as (λ _. Result (Option ℕ) × Hub) [
              | err e ↦ (err e, disconnect h sid pod.grace_sec now)
              | ok (m, room) ↦
                  (ok (establish h sid pod m room now).0, (establish h sid pod m room now).1)
            ]).1
    by_check (err e) = disconnect-IsTracked h sid pod.grace_sec now t
    by_check (ok (m, room)) = establish-IsTracked h sid pod m room now fresh t

refresh-IsOwned :
    (k : Sockets) (sid : ℕ) (c : Context) (now : ℕ)
    → IsOwned k
    → IsOwned (refresh_socket k sid c now).1
unfolding refresh_socket
refresh-IsOwned k sid c now o = elim (Bool-cases (holds_socket k c.user_id sid)) [
  | inl y ↦ rw y o
  | inr n ↦ rw n o
]

refresh-reaches :
    (k : Sockets) (sid : ℕ) (c : Context) (now u p : ℕ)
    → reaches (refresh_socket k sid c now).1 u p ≡ reaches k u p
unfolding refresh_socket
refresh-reaches k sid c now u p = elim (Bool-cases (holds_socket k c.user_id sid)) [
  | inl y ↦ rw y refl
  | inr n ↦ rw n refl
]

ping-IsTracked : (h : Hub) (sid now : ℕ) → IsTracked h → IsTracked (ping h sid now).1
unfolding ping
ping-IsTracked h sid now (o, a) = by_context (lookup sid h.sockets.contexts)
  where
    by_context :
        (x : Option Context)
        → IsTracked
            (elim x as (λ _. Result (Unit {0}) × Hub) [
              | none ↦ (err (app not_a_participant), h)
              | some c ↦ (
                ensure (refresh_socket h.sockets sid c now).0 (app not_a_participant),
                record h { sockets = (refresh_socket h.sockets sid c now).1 },
              )
            ]).1
    by_context none = (o, a)
    by_context (some c) = (
      refresh-IsOwned h.sockets sid c now o,
      weaken-IsReached h.sockets (refresh_socket h.sockets sid c now).1 h.members
          (λ m r y. refresh-reaches h.sockets sid c now m.user_id m.id ∙ r y) a,
    )

reconcile_row-IsTracked :
    (grace_sec now : ℕ) (h : Hub) (current : Participant)
    → IsTracked h
    → IsTracked (reconcile_row grace_sec now h current).1
unfolding reconcile_row
reconcile_row-IsTracked grace_sec now h current (o, a) =
    elim (Bool-cases (
      not (is_connected current.connection_status)
      || socket_is_live h.sockets current.user_id current.id)) [
        | inl y ↦ rw y (o, a)
        | inr n ↦ rw n (
          o,
          put-IsReached h.sockets (disconnected_member now current) h.members (λ e. absurd cc) a,
        )
      ]

reconcile_one-IsTracked :
    (grace_sec now : ℕ) (h : Hub) (m : Participant)
    → IsTracked h
    → IsTracked (reconcile_one grace_sec now h m).1
unfolding reconcile_one
reconcile_one-IsTracked grace_sec now h m t =
    by_room (not (has_room m.room_id h.rooms)) (get_member m.id h.members)
  where
    by_room :
        (b : Bool) (o : Option Participant)
        → IsTracked
            (if b then (0, h) else elim o as (λ _. ℕ × Hub) [
              | none ↦ (0, h)
              | some current ↦ reconcile_row grace_sec now h current
            ]).1
    by_room true o = t
    by_room false none = t
    by_room false (some current) = reconcile_row-IsTracked grace_sec now h current t

reconcile_all-IsTracked :
    (grace_sec now : ℕ) (h : Hub) (ms : List Participant)
    → IsTracked h
    → IsTracked (reconcile_all grace_sec now h ms).1
unfolding reconcile_all
reconcile_all-IsTracked grace_sec now h [] t = t
reconcile_all-IsTracked grace_sec now h (m ∷ ms) t =
    reconcile_all-IsTracked grace_sec now (reconcile_one grace_sec now h m).1 ms
      (reconcile_one-IsTracked grace_sec now h m t)

reconcile-IsTracked :
    (h : Hub) (grace_sec now : ℕ)
    → IsTracked h
    → IsTracked (reconcile_connections h grace_sec now).1
unfolding reconcile_connections
reconcile-IsTracked h grace_sec now t =
    reconcile_all-IsTracked grace_sec now h
      (keep (λ m. not (socket_is_live h.sockets m.user_id m.id)) (connected_without_socket h)) t

-- A handler of a Pod, its heartbeat, the sweep that runs when a Pod starts, or a player who joins.
-- Socket.IO gives each connection a new id; a heartbeat stops when its Pod shuts down, or dies.
pub data Step (h : Hub) : Hub → Type 0 where
  connects :
      (sid : ℕ) (pod : Pod) (identity : Option ℕ) (slug now : ℕ)
      → lookup sid h.sockets.contexts ≡ none
      → Step h (connect h sid pod identity slug now).1
  disconnects : (sid grace_sec now : ℕ) → Step h (disconnect h sid grace_sec now)
  pings : (sid now : ℕ) → Step h (ping h sid now).1
  starts : (pod_id : ℕ) → Step h (record h { sockets = start_heartbeat h.sockets pod_id })
  stops : (pod_id : ℕ) → Step h (record h { sockets = shutdown h.sockets pod_id })
  reconciles : (grace_sec now : ℕ) → Step h (reconcile_connections h grace_sec now).1
  joins :
      (id : ℕ) (room : Room) (user_id : ℕ) (nickname : List ℕ) (color now : ℕ)
      → Step h
          (record h { members = h.members ++ new_member id room user_id nickname color now ∷ [] })

-- What the steps can come to from a first state.
pub data Reach (first : Hub) : Hub → Type 0 where
  begin : Reach first first
  step : {h h' : Hub} → Reach first h → Step h h' → Reach first h'

Step-IsTracked : (h h' : Hub) → Step h h' → IsTracked h → IsTracked h'
unfolding start_heartbeat shutdown
Step-IsTracked h _ (Step.connects sid pod identity slug now fresh) t =
    connect-IsTracked h sid pod identity slug now fresh t
Step-IsTracked h _ (Step.disconnects sid grace_sec now) t =
    disconnect-IsTracked h sid grace_sec now t
Step-IsTracked h _ (Step.pings sid now) t = ping-IsTracked h sid now t
Step-IsTracked h _ (Step.starts pod_id) t = t
Step-IsTracked h _ (Step.stops pod_id) t = t
Step-IsTracked h _ (Step.reconciles grace_sec now) t = reconcile-IsTracked h grace_sec now t
Step-IsTracked h _ (Step.joins id room user_id nickname color now) (o, a) =
    (o, All-append (IsReached h.sockets) h.members _ a ((λ e. absurd cc), tt))

pub Reach-IsTracked : (first h : Hub) → Reach first h → IsTracked first → IsTracked h
Reach-IsTracked first _ Reach.begin t = t
Reach-IsTracked first h (Reach.step {h = h₁} r s) t =
    Step-IsTracked h₁ h s (Reach-IsTracked first h₁ r t)

-- Whether a participant is shown as connected only if a socket of theirs is known.
abbrev pub is_true_to : Sockets → Participant → Bool
is_true_to k m = not (is_connected m.connection_status) || is_some (current_sid k m)

all-is_true_to :
    (k : Sockets) (ms : List Participant) → All (IsReached k) ms → all (is_true_to k) ms ≡ true
all-is_true_to k [] a = refl
all-is_true_to k (m ∷ ms) a =
    let rest = all-is_true_to k ms a.1 in
    let here = a.0 in let same = current_sid-reaches k m in ground arith

none_connected :
    (k : Sockets) (ms : List Participant)
    → all (λ m. not (is_connected m.connection_status)) ms ≡ true
    → All (IsReached k) ms
none_connected k [] h = tt
none_connected k (m ∷ ms) h = ((λ y. ground arith), none_connected k ms (ground arith))

pub no_socket-IsTracked :
    (first : Hub)
    → first.sockets.held ≡ []
    → all (λ m. not (is_connected m.connection_status)) first.members ≡ true
    → IsTracked first
no_socket-IsTracked first empty none_yet = (
  (λ u s f. absurd (let g = rw empty at f in cc)),
  none_connected first.sockets first.members none_yet,
)

-- From a state in which no user holds a socket and no participant is shown as connected, however the
-- handlers, the heartbeats, the sweeps and the joins of players follow one another: every
-- participant who is shown as connected has a current socket, one that their user holds and that
-- was opened for them.
pub Reach-current_sid :
    (first h : Hub)
    → first.sockets.held ≡ []
    → all (λ m. not (is_connected m.connection_status)) first.members ≡ true
    → Reach first h
    → all (is_true_to h.sockets) h.members ≡ true
Reach-current_sid first h empty none_yet r =
    all-is_true_to h.sockets h.members
      (Reach-IsTracked first h r (no_socket-IsTracked first empty none_yet)).1
