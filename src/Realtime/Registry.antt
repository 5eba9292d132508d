-- ===== src/Realtime/Registry.antt =====
-- The sockets of app/realtime/server.py: who holds which, and who is shown as connected.
use emoselfie_be.Prelude.{
  ℕ, ◌≡◌, refl, sym, ◌∙◌, Bool, true, false, ◌&&◌, Option, none, some, List, [], ◌∷◌, arith, ◌==◌,
  ==_iff, ==_refl, ap, if◌then◌else◌, is_some, Bool-cases, inl, inr, All,
}
use emoselfie_be.Prelude.Dict.{lookup, insert, erase, lookup-insert, lookup-erase}
use emoselfie_be.Db.{Participant}
use emoselfie_be.Domain.Enums.{is_connected}
use emoselfie_be.Domain.Store.{put_member}
use emoselfie_be.Realtime.{
  Context, Sockets, claim_socket, release_socket, holds_socket, is_of, current_sid,
}
use emoselfie_be.Realtime.Connections.{mark_disconnected}

abbrev pub owner_of : Option Context → Option ℕ
owner_of none = none
owner_of (some c) = some c.user_id

-- The socket that a user holds has a context, which names that user.
abbrev pub IsOwned : Sockets → Type 0
IsOwned k = (u sid : ℕ) → lookup u k.held ≡ some sid → owner_of (lookup sid k.contexts) ≡ some u

-- Whether the user holds a socket that was opened for the participant.
abbrev pub reaches : Sockets → ℕ → ℕ → Bool
reaches k u p = elim (lookup u k.held) [ none ↦ false | some sid ↦ is_of p (lookup sid k.contexts) ]

pub current_sid-reaches :
    (k : Sockets) (m : Participant) → is_some (current_sid k m) ≡ reaches k m.user_id m.id
unfolding current_sid
current_sid-reaches k m = by_held (lookup m.user_id k.held)
  where
    by_held :
        (o : Option ℕ)
        → is_some (elim o [
          | none ↦ none
          | some sid ↦ if is_of m.id (lookup sid k.contexts) then some sid else none
        ])
          ≡ (elim o [ none ↦ false | some sid ↦ is_of m.id (lookup sid k.contexts) ])
    by_held none = refl
    by_held (some sid) = ground arith

-- A held socket is not one without a context.
pub not_fresh :
    (k : Sockets) (u s sid : ℕ)
    → IsOwned k
    → lookup sid k.contexts ≡ none
    → lookup u k.held ≡ some s
    → (s == sid) ≡ false
not_fresh k u s sid o fresh h = elim (Bool-cases (s == sid)) [
  | inl y ↦ absurd (let e = (==_iff s sid).0 y in let f = (rw (e, fresh) at (o u s h)) in cc)
  | inr n ↦ n
]

pub claim-IsOwned :
    (k : Sockets) (sid : ℕ) (c : Context)
    → IsOwned k
    → lookup sid k.contexts ≡ none
    → IsOwned (claim_socket k sid c).1
unfolding claim_socket
claim-IsOwned k sid c o fresh u s h =
    let e = sym (lookup-insert u c.user_id sid k.held) ∙ h in
    elim (Bool-cases (u == c.user_id)) [
      | inl y ↦
          let f : sid ≡ s = (let g = rw y at e in cc) in
          rw (← f, lookup-insert sid sid c k.contexts, ==_refl sid)
            (ap some (sym ((==_iff u c.user_id).0 y)))
      | inr n ↦
          let g = rw n at e in
          rw (lookup-insert s sid c k.contexts, not_fresh k u s sid o fresh g) (o u s g)
    ]

pub claim-reaches :
    (k : Sockets) (sid : ℕ) (c : Context) (u p : ℕ)
    → IsOwned k
    → lookup sid k.contexts ≡ none
    → reaches (claim_socket k sid c).1 u p
      ≡ (if u == c.user_id then c.participant_id == p else reaches k u p)
unfolding claim_socket
claim-reaches k sid c u p o fresh = elim (Bool-cases (u == c.user_id)) [
  | inl y ↦
      rw
        (
          reaches,
          lookup-insert u c.user_id sid k.held,
          y,
          lookup-insert sid sid c k.contexts,
          ==_refl sid,
        )
        refl
  | inr n ↦ rw (reaches, lookup-insert u c.user_id sid k.held, n) (by_held (lookup u k.held) refl)
]
  where
    by_held :
        (h : Option ℕ)
        → lookup u k.held ≡ h
        → (elim h [ none ↦ false | some s ↦ is_of p (lookup s (insert sid c k.contexts)) ])
          ≡ (elim h [ none ↦ false | some s ↦ is_of p (lookup s k.contexts) ])
    by_held none e = refl
    by_held (some s) e = rw (lookup-insert s sid c k.contexts, not_fresh k u s sid o fresh e) refl

same_owner :
    (k : Sockets) (u v sid : ℕ)
    → IsOwned k
    → owner_of (lookup sid k.contexts) ≡ some u
    → lookup v k.held ≡ some sid
    → v ≡ u
same_owner k u v sid o own h = let e = sym (o v sid h) ∙ own in cc

release-contexts :
    (k : Sockets) (u sid : ℕ) → (release_socket k u sid).1.contexts ≡ erase sid k.contexts
unfolding release_socket
release-contexts k u sid = elim (Bool-cases (holds_socket k u sid)) [
  | inl y ↦ rw y refl
  | inr n ↦ rw n refl
]

pub release-held :
    (k : Sockets) (u sid v : ℕ)
    → lookup v (release_socket k u sid).1.held
      ≡ (if holds_socket k u sid && (v == u) then none else lookup v k.held)
unfolding release_socket
release-held k u sid v = elim (Bool-cases (holds_socket k u sid)) [
  | inl y ↦ rw y (lookup-erase v u k.held)
  | inr n ↦ rw n refl
]

-- What is held after a socket is released was held before, and is another socket.
kept_socket :
    (k : Sockets) (u sid v s : ℕ)
    → IsOwned k
    → owner_of (lookup sid k.contexts) ≡ some u
    → lookup v (release_socket k u sid).1.held ≡ some s
    → (lookup v k.held ≡ some s) × ((s == sid) ≡ false)
kept_socket k u sid v s o own h =
    by_held (holds_socket k u sid && (v == u)) refl (sym (release-held k u sid v) ∙ h)
  where
    by_held :
        (b : Bool)
        → (holds_socket k u sid && (v == u)) ≡ b
        → (if b then none else lookup v k.held) ≡ some s
        → (lookup v k.held ≡ some s) × ((s == sid) ≡ false)
    by_held true e f = absurd cc
    by_held false e f = (
      f,
      elim (Bool-cases (s == sid)) [
        | inl y ↦ absurd (
            let g = rw ((==_iff s sid).0 y) at f in
            let w = same_owner k u v sid o own g in
            let mine = rw w at g in
            let other = rw (w, holds_socket, mine, ==_refl sid, ==_refl u) at e in cc)
        | inr n ↦ n
      ],
    )

pub release-IsOwned :
    (k : Sockets) (u sid : ℕ)
    → IsOwned k
    → owner_of (lookup sid k.contexts) ≡ some u
    → IsOwned (release_socket k u sid).1
release-IsOwned k u sid o own v s h =
    let (f, apart) = kept_socket k u sid v s o own h in
    rw (release-contexts k u sid, lookup-erase s sid k.contexts, apart) (o v s f)

pub release-reaches :
    (k : Sockets) (u sid v p : ℕ)
    → IsOwned k
    → owner_of (lookup sid k.contexts) ≡ some u
    → (holds_socket k u sid && (v == u)) ≡ false
    → reaches (release_socket k u sid).1 v p ≡ reaches k v p
release-reaches k u sid v p o own h =
    let same : lookup v (release_socket k u sid).1.held ≡ lookup v k.held =
      rw (release-held k u sid v, h) refl in
    rw (reaches, same)
      (by_held (lookup v k.held) (λ s e. (kept_socket k u sid v s o own (same ∙ e)).1))
  where
    by_held :
        (x : Option ℕ)
        → ((s : ℕ) → x ≡ some s → (s == sid) ≡ false)
        → (elim x [
          | none ↦ false
          | some s ↦ is_of p (lookup s (release_socket k u sid).1.contexts)
        ])
          ≡ (elim x [ none ↦ false | some s ↦ is_of p (lookup s k.contexts) ])
    by_held none e = refl
    by_held (some s) e = rw (release-contexts k u sid, lookup-erase s sid k.contexts, e s refl) refl

pub release-current : (k : Sockets) (u sid : ℕ) → (release_socket k u sid).0 ≡ holds_socket k u sid
unfolding release_socket
release-current k u sid = elim (Bool-cases (holds_socket k u sid)) [
  | inl y ↦ rw y refl
  | inr n ↦ rw n refl
]

-- The participant whom a held socket reaches is the one that it was opened for.
pub reaches-held :
    (k : Sockets) (u sid p : ℕ)
    → holds_socket k u sid ≡ true
    → reaches k u p ≡ is_of p (lookup sid k.contexts)
reaches-held k u sid p h = by_held (lookup u k.held) h
  where
    by_held :
        (x : Option ℕ)
        → (elim x [ none ↦ false | some s ↦ s == sid ]) ≡ true
        → (elim x [ none ↦ false | some s ↦ is_of p (lookup s k.contexts) ])
          ≡ is_of p (lookup sid k.contexts)
    by_held none e = absurd cc
    by_held (some s) e = rw ((==_iff s sid).0 e) refl

-- A participant who is shown as connected is reached by the socket that the user holds.
abbrev pub IsReached : Sockets → Participant → Type 0
IsReached k m = is_connected m.connection_status ≡ true → reaches k m.user_id m.id ≡ true

pub mark-IsReached :
    (k k' : Sockets) (i now : ℕ) (ms : List Participant)
    → ((m : Participant) → (m.id == i) ≡ false → IsReached k m → IsReached k' m)
    → All (IsReached k) ms
    → All (IsReached k') (mark_disconnected i now ms)
mark-IsReached k k' i now [] h a = tt
mark-IsReached k k' i now (m ∷ ms) h a = elim (Bool-cases (m.id == i)) [
  | inl y ↦ rw y ((λ e. absurd cc), mark-IsReached k k' i now ms h a.1)
  | inr n ↦ rw n (h m n a.0, mark-IsReached k k' i now ms h a.1)
]

pub put-IsReached :
    (k : Sockets) (m : Participant) (ms : List Participant)
    → IsReached k m
    → All (IsReached k) ms
    → All (IsReached k) (put_member m ms)
put-IsReached k m [] h a = tt
put-IsReached k m (x ∷ xs) h a = elim (Bool-cases (x.id == m.id)) [
  | inl y ↦ rw y (h, put-IsReached k m xs h a.1)
  | inr n ↦ rw n (a.0, put-IsReached k m xs h a.1)
]

pub weaken-IsReached :
    (k k' : Sockets) (ms : List Participant)
    → ((m : Participant) → IsReached k m → IsReached k' m)
    → All (IsReached k) ms
    → All (IsReached k') ms
weaken-IsReached k k' [] h a = tt
weaken-IsReached k k' (m ∷ ms) h a = (h m a.0, weaken-IsReached k k' ms h a.1)
