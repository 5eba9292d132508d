-- ===== src/Realtime/Replaced.antt =====
-- A socket of app/realtime/server.py that nobody holds any more, while the handlers go on.
use emoselfie_be.Prelude.{
  ℕ, ◌≡◌, refl, ◌∙◌, ap, Bool, true, false, not, ◌&&◌, ◌||◌, Option, none, some, List, [], ◌∷◌,
  ◌==◌, if◌then◌else◌, Bool-cases, inl, inr, keep,
}
use emoselfie_be.Prelude.Dict.{lookup, lookup-insert}
use emoselfie_be.Core.Errors.{Result, ok, err, app, ensure, not_a_participant}
use emoselfie_be.Db.{Room, Participant}
use emoselfie_be.Domain.Enums.{is_connected}
use emoselfie_be.Domain.Store.{get_member}
use emoselfie_be.Realtime.{
  Context, Sockets, claim_socket, release_socket, refresh_socket, holds_socket, socket_is_live,
  start_heartbeat, shutdown, forget_presence,
}
use emoselfie_be.Realtime.Connections.{
  Hub, Pod, connected_without_socket, disconnect, disconnect_of, establish, admit_socket, connect,
  ping, reconcile_row, reconcile_one, has_room, reconcile_all, reconcile_connections,
}
use emoselfie_be.Realtime.Registry.{release-held}
use emoselfie_be.Realtime.Steps.{Step}

-- No user holds the socket.
abbrev pub IsUnheld : ℕ → Sockets → Type 0
IsUnheld old k = (u : ℕ) → holds_socket k u old ≡ false

abbrev held_by : Option ℕ → ℕ → Bool
held_by o old = elim o [ none ↦ false | some s ↦ s == old ]

same-IsUnheld : (old : ℕ) (k k' : Sockets) → k'.held ≡ k.held → IsUnheld old k → IsUnheld old k'
same-IsUnheld old k k' e h u = ap (λ d. held_by (lookup u d) old) e ∙ h u

claim-IsUnheld :
    (old : ℕ) (k : Sockets) (sid : ℕ) (c : Context)
    → (sid == old) ≡ false
    → IsUnheld old k
    → IsUnheld old (claim_socket k sid c).1
unfolding claim_socket
claim-IsUnheld old k sid c apart h u =
    ap (λ o. held_by o old) (lookup-insert u c.user_id sid k.held) ∙ by_key (u == c.user_id)
  where
    by_key : (b : Bool) → held_by (if b then some sid else lookup u k.held) old ≡ false
    by_key true = apart
    by_key false = h u

release-IsUnheld :
    (old : ℕ) (k : Sockets) (u sid : ℕ) → IsUnheld old k → IsUnheld old (release_socket k u sid).1
release-IsUnheld old k u sid h v =
    ap (λ o. held_by o old) (release-held k u sid v) ∙ by_key (holds_socket k u sid && (v == u))
  where
    by_key : (b : Bool) → held_by (if b then none else lookup v k.held) old ≡ false
    by_key true = refl
    by_key false = h v

disconnect-IsUnheld :
    (old : ℕ) (h : Hub) (sid grace_sec now : ℕ)
    → IsUnheld old h.sockets
    → IsUnheld old (disconnect h sid grace_sec now).sockets
unfolding disconnect disconnect_of forget_presence
disconnect-IsUnheld old h sid grace_sec now free = by_context (lookup sid h.sockets.contexts)
  where
    by_context :
        (x : Option Context)
        → IsUnheld old
            (elim x as (λ _. Hub) [
              | none ↦ h
              | some c ↦ disconnect_of h sid c grace_sec now
            ]).sockets
    by_context none = free
    by_context (some c) = elim (Bool-cases (release_socket h.sockets c.user_id sid).0) [
      | inl y ↦ rw y (release-IsUnheld old h.sockets c.user_id sid free)
      | inr n ↦ rw n (release-IsUnheld old h.sockets c.user_id sid free)
    ]

connect-IsUnheld :
    (old : ℕ) (h : Hub) (sid : ℕ) (pod : Pod) (identity : Option ℕ) (slug now : ℕ)
    → (sid == old) ≡ false
    → IsUnheld old h.sockets
    → IsUnheld old (connect h sid pod identity slug now).1.sockets
unfolding connect establish
connect-IsUnheld old h sid pod identity slug now apart free =
    by_check (admit_socket h identity slug)
  where
    by_check :
        (r : Result (Participant × Room))
        → IsUnheld old
            (elim r as (λ _. Result (Option ℕ) × Hub) [
              | err e ↦ (err e, disconnect h sid pod.grace_sec now)
              | ok (m, room) ↦
                  (ok (establish h sid pod m room now).0, (establish h sid pod m room now).1)
            ]).1.sockets
    by_check (err e) = disconnect-IsUnheld old h sid pod.grace_sec now free
    by_check (ok (m, room)) =
        claim-IsUnheld old h.sockets sid
          (record {
            user_id = m.user_id;
            participant_id = m.id;
            room_id = room.id;
            pod_id = pod.id;
          })
          apart free

refresh-held :
    (k : Sockets) (sid : ℕ) (c : Context) (now : ℕ) → (refresh_socket k sid c now).1.held ≡ k.held
unfolding refresh_socket
refresh-held k sid c now = elim (Bool-cases (holds_socket k c.user_id sid)) [
  | inl y ↦ rw y refl
  | inr n ↦ rw n refl
]

ping-IsUnheld :
    (old : ℕ) (h : Hub) (sid now : ℕ)
    → IsUnheld old h.sockets
    → IsUnheld old (ping h sid now).1.sockets
unfolding ping
ping-IsUnheld old h sid now free = by_context (lookup sid h.sockets.contexts)
  where
    by_context :
        (x : Option Context)
        → IsUnheld old
            (elim x as (λ _. Result (Unit {0}) × Hub) [
              | none ↦ (err (app not_a_participant), h)
              | some c ↦ (
                ensure (refresh_socket h.sockets sid c now).0 (app not_a_participant),
                record h { sockets = (refresh_socket h.sockets sid c now).1 },
              )
            ]).1.sockets
    by_context none = free
    by_context (some c) =
        same-IsUnheld old h.sockets (refresh_socket h.sockets sid c now).1
          (refresh-held h.sockets sid c now) free

-- The sweep of a starting Pod leaves the sockets alone.
reconcile_row-sockets :
    (grace_sec now : ℕ) (h : Hub) (m : Participant)
    → (reconcile_row grace_sec now h m).1.sockets ≡ h.sockets
unfolding reconcile_row
reconcile_row-sockets grace_sec now h m =
    elim (Bool-cases
      (not (is_connected m.connection_status) || socket_is_live h.sockets m.user_id m.id)) [
        | inl y ↦ rw y refl
        | inr n ↦ rw n refl
      ]

reconcile_one-sockets :
    (grace_sec now : ℕ) (h : Hub) (m : Participant)
    → (reconcile_one grace_sec now h m).1.sockets ≡ h.sockets
unfolding reconcile_one
reconcile_one-sockets grace_sec now h m =
    by_room (not (has_room m.room_id h.rooms)) (get_member m.id h.members)
  where
    by_room :
        (b : Bool) (o : Option Participant)
        → (if b then (0, h) else elim o as (λ _. ℕ × Hub) [
          | none ↦ (0, h)
          | some current ↦ reconcile_row grace_sec now h current
        ]).1.sockets
          ≡ h.sockets
    by_room true o = refl
    by_room false none = refl
    by_room false (some current) = reconcile_row-sockets grace_sec now h current

reconcile_all-sockets :
    (grace_sec now : ℕ) (h : Hub) (ms : List Participant)
    → (reconcile_all grace_sec now h ms).1.sockets ≡ h.sockets
unfolding reconcile_all
reconcile_all-sockets grace_sec now h [] = refl
reconcile_all-sockets grace_sec now h (m ∷ ms) =
    reconcile_all-sockets grace_sec now (reconcile_one grace_sec now h m).1 ms
    ∙ reconcile_one-sockets grace_sec now h m

reconcile-sockets :
    (h : Hub) (grace_sec now : ℕ) → (reconcile_connections h grace_sec now).1.sockets ≡ h.sockets
unfolding reconcile_connections
reconcile-sockets h grace_sec now =
    reconcile_all-sockets grace_sec now h
      (keep (λ m. not (socket_is_live h.sockets m.user_id m.id)) (connected_without_socket h))

-- Whether a step opens the socket.
abbrev pub opens : {h h' : Hub} → ℕ → Step h h' → Bool
opens old (Step.connects sid pod identity slug now fresh) = sid == old
opens old (Step.disconnects sid grace_sec now) = false
opens old (Step.pings sid now) = false
opens old (Step.starts pod_id) = false
opens old (Step.stops pod_id) = false
opens old (Step.reconciles grace_sec now) = false
opens old (Step.joins id room user_id nickname color now) = false

-- What the steps can come to from a state, when none of them opens the socket again: Socket.IO
-- gives each connection an id of its own.
pub data Later (old : ℕ) (first : Hub) : Hub → Type 0 where
  begin : Later old first first
  step :
      {h h' : Hub} → Later old first h → (s : Step h h') → opens old s ≡ false → Later old first h'

Step-IsUnheld :
    (old : ℕ) (h h' : Hub) (s : Step h h')
    → opens old s ≡ false
    → IsUnheld old h.sockets
    → IsUnheld old h'.sockets
unfolding start_heartbeat shutdown
Step-IsUnheld old h _ (Step.connects sid pod identity slug now fresh) other free =
    connect-IsUnheld old h sid pod identity slug now other free
Step-IsUnheld old h _ (Step.disconnects sid grace_sec now) other free =
    disconnect-IsUnheld old h sid grace_sec now free
Step-IsUnheld old h _ (Step.pings sid now) other free = ping-IsUnheld old h sid now free
Step-IsUnheld old h _ (Step.starts pod_id) other free = free
Step-IsUnheld old h _ (Step.stops pod_id) other free = free
Step-IsUnheld old h _ (Step.reconciles grace_sec now) other free =
    rw (reconcile-sockets h grace_sec now) free
Step-IsUnheld old h _ (Step.joins id room user_id nickname color now) other free = free

pub Later-IsUnheld :
    (old : ℕ) (first h : Hub)
    → Later old first h
    → IsUnheld old first.sockets
    → IsUnheld old h.sockets
Later-IsUnheld old first _ Later.begin free = free
Later-IsUnheld old first h (Later.step {h = h₁} l s other) free =
    Step-IsUnheld old h₁ h s other (Later-IsUnheld old first h₁ l free)
