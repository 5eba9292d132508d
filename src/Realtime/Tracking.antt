-- ===== src/Realtime/Tracking.antt =====
-- The handlers of app/realtime/server.py as steps of the rows and the sockets together.
use emoselfie_be.Prelude.{
  ℕ, ◌≡◌, ◌⊎◌, refl, sym, ◌∙◌, true, false, ◌&&◌, Option, none, some, List, arith, ◌==◌, ==_iff,
  ==_refl, ap, if◌then◌else◌, Bool-cases, inl, inr, All,
}
use emoselfie_be.Prelude.Dict.{lookup, lookup-insert}
use emoselfie_be.Db.{Room, Participant}
use emoselfie_be.Realtime.{Context, Sockets, claim_socket, release_socket, holds_socket, is_of}
use emoselfie_be.Realtime.Connections.{
  Hub, Pod, mark_disconnected, connected_member, disconnect, disconnect_of, left_behind,
  old_context, establish,
}
use emoselfie_be.Realtime.Registry.{
  IsOwned, not_fresh, reaches, claim-IsOwned, claim-reaches, release-IsOwned, release-reaches,
  reaches-held, release-current, IsReached, mark-IsReached, put-IsReached, weaken-IsReached,
}

-- Each held socket is its user's, and each participant shown as connected is reached by one.
abbrev pub IsTracked : Hub → Type 0
IsTracked h = IsOwned h.sockets × All (IsReached h.sockets) h.members

-- A participant whom a user's socket reaches, and for whom it was not opened, is another user's.
apart_from :
    (k : Sockets) (c : Context) (sid : ℕ) (m : Participant)
    → lookup sid k.contexts ≡ some c
    → (m.id == c.participant_id) ≡ false
    → reaches k m.user_id m.id ≡ true
    → (holds_socket k c.user_id sid && (m.user_id == c.user_id)) ≡ false
apart_from k c sid m e n r = elim (Bool-cases (m.user_id == c.user_id)) [
  | inr other ↦ ground arith
  | inl same ↦ elim (Bool-cases (holds_socket k c.user_id sid)) [
    | inr n ↦ ground arith
    | inl y ↦ absurd (
        let u = (==_iff m.user_id c.user_id).0 same in
        let f = sym (reaches-held k c.user_id sid m.id y) ∙ (rw u at r) in
        let g : is_of m.id (some c) ≡ true = rw e at f in ground arith)
  ]
]

pub disconnect-IsTracked :
    (h : Hub) (sid grace_sec now : ℕ) → IsTracked h → IsTracked (disconnect h sid grace_sec now)
unfolding disconnect disconnect_of
disconnect-IsTracked h sid grace_sec now (o, a) = by_context (lookup sid h.sockets.contexts) refl
  where
    kept :
        (c : Context)
        → lookup sid h.sockets.contexts ≡ some c
        → (m : Participant)
        → ((holds_socket h.sockets c.user_id sid && (m.user_id == c.user_id)) ≡ false)
        → IsReached h.sockets m
        → IsReached (release_socket h.sockets c.user_id sid).1 m
    kept c e m apart r y =
        release-reaches h.sockets c.user_id sid m.user_id m.id o (rw e refl) apart ∙ r y

    released :
        (c : Context)
        → lookup sid h.sockets.contexts ≡ some c
        → IsTracked (disconnect_of h sid c grace_sec now)
    released c e = by_current (Bool-cases (release_socket h.sockets c.user_id sid).0)
      where
        own : IsOwned (release_socket h.sockets c.user_id sid).1
        own = release-IsOwned h.sockets c.user_id sid o (rw e refl)

        by_current :
            (((release_socket h.sockets c.user_id sid).0 ≡ true)
              ⊎ ((release_socket h.sockets c.user_id sid).0 ≡ false))
            → IsTracked (disconnect_of h sid c grace_sec now)
        by_current (inl y) = rw y (
          own,
          mark-IsReached h.sockets (release_socket h.sockets c.user_id sid).1 c.participant_id now
              h.members (λ m n r z. kept c e m (apart_from h.sockets c sid m e n (r z)) r z) a,
        )
        by_current (inr n) = rw n (
          own,
          weaken-IsReached h.sockets (release_socket h.sockets c.user_id sid).1 h.members
              (λ m r z.
                kept c e m (rw (sym (release-current h.sockets c.user_id sid) ∙ n) refl) r z)
              a,
        )

    by_context :
        (x : Option Context)
        → lookup sid h.sockets.contexts ≡ x
        → IsTracked (elim x [ none ↦ h | some c ↦ disconnect_of h sid c grace_sec now ])
    by_context none e = (o, a)
    by_context (some c) e = released c e

module _ (k : Sockets) (sid : ℕ) (c : Context) (o : IsOwned k)
    (fresh : lookup sid k.contexts ≡ none) where
  -- The participant of the user's old socket is the one left behind.
  left_behind-old :
      (p : ℕ)
      → reaches k c.user_id p ≡ true
      → (c.participant_id == p) ≡ false
      → left_behind c.participant_id (old_context (claim_socket k sid c).0 (claim_socket k sid c).1)
        ≡ some p
  unfolding claim_socket
  left_behind-old p r n = by_held (lookup c.user_id k.held) refl r
    where
      by_context : (x : Option Context) → is_of p x ≡ true → left_behind c.participant_id x ≡ some p
      by_context none e = absurd cc
      by_context (some d) e =
          let same = (==_iff d.participant_id p).0 e in
          let other : (d.participant_id == c.participant_id) ≡ false = ground arith in
          rw other (ap some same)

      by_held :
          (x : Option ℕ)
          → lookup c.user_id k.held ≡ x
          → (elim x [ none ↦ false | some s ↦ is_of p (lookup s k.contexts) ]) ≡ true
          → left_behind c.participant_id (old_context x (claim_socket k sid c).1) ≡ some p
      by_held none e f = absurd cc
      by_held (some s) e f =
          rw (lookup-insert s sid c k.contexts, not_fresh k c.user_id s sid o fresh e)
            (by_context (lookup s k.contexts) f)

  -- All but the one left behind are reached as before, or by the new socket.
  claim-IsReached :
      (x : Participant)
      → ¬ (
          left_behind c.participant_id
            (old_context (claim_socket k sid c).0 (claim_socket k sid c).1)
          ≡ some x.id)
      → IsReached k x
      → IsReached (claim_socket k sid c).1 x
  claim-IsReached x not_left r y = claim-reaches k sid c x.user_id x.id o fresh ∙ by_user
    where
      by_user :
          (if x.user_id == c.user_id then c.participant_id == x.id else reaches k x.user_id x.id)
          ≡ true
      by_user = elim (Bool-cases (x.user_id == c.user_id)) [
        | inr n ↦ rw n (r y)
        | inl e ↦ rw e (elim (Bool-cases (c.participant_id == x.id)) [
          | inl here ↦ here
          | inr n ↦
              absurd
                (not_left (left_behind-old x.id (rw ((==_iff x.user_id c.user_id).0 e) at (r y)) n))
        ])
      ]

  claim-all :
      (left : Option ℕ)
      → left_behind c.participant_id (old_context (claim_socket k sid c).0 (claim_socket k sid c).1)
        ≡ left
      → (now : ℕ) (ms : List Participant) → All (IsReached k) ms
      → All
          (IsReached (claim_socket k sid c).1)
          (elim left [ none ↦ ms | some p ↦ mark_disconnected p now ms ])
  claim-all none e now ms a =
      weaken-IsReached k (claim_socket k sid c).1 ms
        (λ x r. claim-IsReached x (λ f. let g = sym e ∙ f in cc) r) a
  claim-all (some p) e now ms a =
      mark-IsReached k (claim_socket k sid c).1 p now ms
        (λ x n r.
          claim-IsReached x (λ f. let g = sym e ∙ f in let same : p ≡ x.id = cc in ground arith) r)
        a

pub establish-IsTracked :
    (h : Hub) (sid : ℕ) (pod : Pod) (m : Participant) (room : Room) (now : ℕ)
    → lookup sid h.sockets.contexts ≡ none
    → IsTracked h
    → IsTracked (establish h sid pod m room now).1
unfolding establish
establish-IsTracked h sid pod m room now fresh (o, a) = (
  claim-IsOwned h.sockets sid c o fresh,
  put-IsReached (claim_socket h.sockets sid c).1 (connected_member m) _
      (λ _.
        claim-reaches h.sockets sid c m.user_id m.id o fresh
        ∙ rw (==_refl m.user_id, ==_refl m.id) refl)
      (claim-all h.sockets sid c o fresh
        (left_behind m.id
          (old_context (claim_socket h.sockets sid c).0 (claim_socket h.sockets sid c).1))
        refl now h.members a),
)
  where
    c : Context
    c = record { user_id = m.user_id; participant_id = m.id; room_id = room.id; pod_id = pod.id }
