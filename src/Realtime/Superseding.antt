-- ===== src/Realtime/Superseding.antt =====
-- A new socket of app/realtime/server.py takes the place of the user's old one.
use emoselfie_be.Prelude.{
  ℕ, Bool, if◌then◌else◌, Bool-cases, inl, inr, ap, ==_iff, ◌≡◌, refl, ◌∙◌, true, false, not,
  Option, none, some, [], arith, ◌==◌, all,
}
use emoselfie_be.Prelude.Dict.{lookup, erase, lookup-insert}
use emoselfie_be.Core.Errors.{Result, ok, err}
use emoselfie_be.Db.{Room, Participant}
use emoselfie_be.Domain.Enums.{is_connected}
use emoselfie_be.Realtime.{Context, Sockets, claim_socket, release_socket, holds_socket}
use emoselfie_be.Realtime.Connections.{
  Hub, Pod, disconnect, disconnect_of, establish, admit_socket, connect,
}
use emoselfie_be.Realtime.Replaced.{IsUnheld, Later, Later-IsUnheld}
use emoselfie_be.Realtime.Steps.{Reach, Reach-IsTracked, no_socket-IsTracked}
use emoselfie_be.Realtime.Registry.{IsOwned, not_fresh}

release-stale :
    (k : Sockets) (u sid : ℕ)
    → holds_socket k u sid ≡ false
    → release_socket k u sid ≡ (false, record k { contexts = erase sid k.contexts })
unfolding release_socket
release-stale k u sid n = rw n refl

-- What a `disconnect` of the old socket does.
unfoldable pub IsSpared : Hub → ℕ → ℕ → ℕ → Type 0
unfolding disconnect
IsSpared h old grace_sec later =
    ((disconnect h old grace_sec later).members ≡ h.members)
    × ((disconnect h old grace_sec later).timers ≡ h.timers)
    × ((disconnect h old grace_sec later).sockets.held ≡ h.sockets.held)

unheld-IsSpared :
    (h : Hub) (old grace_sec later : ℕ) → IsUnheld old h.sockets → IsSpared h old grace_sec later
unfolding IsSpared disconnect
unheld-IsSpared h old grace_sec later free = by_context (lookup old h.sockets.contexts) refl
  where
    after : Option Context → Hub
    after x = elim x [ none ↦ h | some c ↦ disconnect_of h old c grace_sec later ]

    by_context :
        (x : Option Context)
        → lookup old h.sockets.contexts ≡ x
        → ((after x).members ≡ h.members)
          × ((after x).timers ≡ h.timers)
          × ((after x).sockets.held ≡ h.sockets.held)
    by_context none e = (refl, refl, refl)
    by_context (some c) e =
        rw (disconnect_of, release-stale h.sockets c.user_id old (free c.user_id))
          (refl, refl, refl)

-- The socket that a new one replaces is held by nobody.
establish-IsUnheld :
    (h : Hub) (sid : ℕ) (pod : Pod) (m : Participant) (room : Room) (now old : ℕ)
    → IsOwned h.sockets
    → lookup sid h.sockets.contexts ≡ none
    → (establish h sid pod m room now).0 ≡ some old
    → IsUnheld old (establish h sid pod m room now).1.sockets
unfolding establish claim_socket
establish-IsUnheld h sid pod m room now old o fresh e u =
    ap (λ x. elim x [ none ↦ false | some s ↦ s == old ])
      (lookup-insert u m.user_id sid h.sockets.held)
    ∙ by_key (u == m.user_id) refl
  where
    apart : (old == sid) ≡ false
    apart = not_fresh h.sockets m.user_id old sid o fresh e

    by_held :
        (x : Option ℕ)
        → lookup u h.sockets.held ≡ x
        → (u == m.user_id) ≡ false
        → elim x [ none ↦ false | some s ↦ s == old ] ≡ false
    by_held none f other = refl
    by_held (some s) f other = elim (Bool-cases (s == old)) [
      | inr n ↦ n
      | inl y ↦
          let same = (==_iff s old).0 y in
          let mine = o u old (f ∙ ap some same) in
          let theirs = o m.user_id old e in let one : u ≡ m.user_id = cc in absurd (ground arith)
    ]

    by_key :
        (b : Bool)
        → (u == m.user_id) ≡ b
        → elim (if b then some sid else lookup u h.sockets.held) [
          | none ↦ false
          | some s ↦ s == old
        ]
          ≡ false
    by_key true f = ground (arith, apart)
    by_key false f = by_held (lookup u h.sockets.held) refl f

-- Where a connection replaces an older socket of its user, the `disconnect` of the older one changes
-- no participant, no timer and not who holds which socket, whenever it comes: after any steps of
-- handlers, heartbeats, sweeps and joins that follow the connection, of which none opens
-- the older socket's id again. The connection has a new id, and meets any state that the handlers
-- reach from one without sockets and without connected participants.
pub connect-spares :
    (first h : Hub) (sid : ℕ) (pod : Pod) (identity : Option ℕ) (slug now old : ℕ) (h' : Hub)
    (grace_sec later : ℕ)
    → first.sockets.held ≡ []
    → all (λ m. not (is_connected m.connection_status)) first.members ≡ true
    → Reach first h
    → lookup sid h.sockets.contexts ≡ none
    → (connect h sid pod identity slug now).0 ≡ ok (some old)
    → Later old (connect h sid pod identity slug now).1 h'
    → IsSpared h' old grace_sec later
unfolding connect
connect-spares first h sid pod identity slug now old h' grace_sec later empty none_yet r fresh won
      steps =
    unheld-IsSpared h' old grace_sec later (
      Later-IsUnheld old (connect h sid pod identity slug now).1 h' steps
        (by_check (admit_socket h identity slug) won))
  where
    after : Result (Participant × Room) → Result (Option ℕ) × Hub
    after (err e) = (err e, disconnect h sid pod.grace_sec now)
    after (ok (m, room)) =
        (ok (establish h sid pod m room now).0, (establish h sid pod m room now).1)

    by_check :
        (x : Result (Participant × Room))
        → (after x).0 ≡ ok (some old)
        → IsUnheld old (after x).1.sockets
    by_check (err e) f = absurd cc
    by_check (ok (m, room)) f =
        establish-IsUnheld h sid pod m room now old
          (Reach-IsTracked first h r (no_socket-IsTracked first empty none_yet)).0 fresh cc
