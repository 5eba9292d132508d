-- ===== src/Realtime/Recipients.antt =====
-- app/realtime/server.py: who receives what `send_viewers` and `announce_round` send.
use emoselfie_be.Prelude.{
  ℕ, ◌≡◌, refl, Bool, true, false, ◌&&◌, Option, none, some, List, [], ◌∷◌, ==_iff, ◌==◌, ◌||◌,
  if◌then◌else◌, keep, nonempty, Bool-cases, inl, inr, All, all,
}
use emoselfie_be.Prelude.Sets.{has}
use emoselfie_be.Prelude.Every.{All-keep, All-of_forall}
use emoselfie_be.Prelude.Dict.{lookup}
use emoselfie_be.Core.Errors.{Result, ok, ◌>>=◌, >>=-eq-ok}
use emoselfie_be.Db.{Participant}
use emoselfie_be.Realtime.{Context, Sockets, current_sid, is_of}
use emoselfie_be.Realtime.Emitter.{Event, Channel, Message, viewers, is_viewer, emit}
use emoselfie_be.Realtime.Delivery.{to_each, narrowed, send_viewers}

-- What a current socket was opened for.
pub current_sid-is_of :
    (k : Sockets) (m : Participant) (sid : ℕ)
    → current_sid k m ≡ some sid
    → is_of m.id (lookup sid k.contexts) ≡ true
unfolding current_sid
current_sid-is_of k m sid h = by_held (lookup m.user_id k.held) h
  where
    by_held :
        (o : Option ℕ)
        → ◌≡◌ {A = Option ℕ}
            (elim o [
              | none ↦ none
              | some s ↦ if is_of m.id (lookup s k.contexts) then some s else none
            ])
            (some sid)
        → is_of m.id (lookup sid k.contexts) ≡ true
    by_held none e = absurd cc
    by_held (some s) e = elim (Bool-cases (is_of m.id (lookup s k.contexts))) [
      | inl y ↦ let f = rw y at e in let g : s ≡ sid = cc in rw (← g) y
      | inr n ↦ absurd (let f = rw n at e in cc)
    ]

module _ {ℓ} {B : Type ℓ} where
  -- A test that each message passes, when its receiver passes one, holds of all that is sent.
  pub to_each-all :
      (k : Sockets) (P : Participant → Type 0) (Q : Message B → Bool)
      (send : ℕ → Participant → Result (Message B)) (ms : List Participant)
      (sent : List (Message B))
      → ((m : Participant) (sid : ℕ) (x : Message B)
          → P m
          → current_sid k m ≡ some sid
          → send sid m ≡ ok x
          → Q x ≡ true)
      → All P ms
      → to_each k send ms ≡ ok sent
      → all Q sent ≡ true
  unfolding to_each
  to_each-all k P Q send [] sent each a h = let e : [] ≡ sent = cc in rw (← e) refl
  to_each-all k P Q send (m ∷ ms) sent each a h =
      by_sid (λ xs. to_each-all k P Q send ms xs each a.1) (current_sid k m) refl h
    where
      by_sid :
          ((xs : List (Message B)) → to_each k send ms ≡ ok xs → all Q xs ≡ true)
          → (o : Option ℕ) → current_sid k m ≡ o
          → ◌≡◌ {A = Result (List (Message B))}
              (elim o [
                | none ↦ to_each k send ms
                | some sid ↦ (send sid m >>= λ x. to_each k send ms >>= λ xs. ok (x ∷ xs))
              ])
              (ok sent)
          → all Q sent ≡ true
      by_sid later none e f = later sent f
      by_sid later (some sid) e f =
          let (x, here, f₁) = >>=-eq-ok (send sid m) _ f in
          let (xs, rest, f₂) = >>=-eq-ok (to_each k send ms) _ f₁ in
          let same : x ∷ xs ≡ sent = cc in rw (← same, each m sid x a.0 e here) (later xs rest)

abbrev pub opened_for : List ℕ → Option Context → Bool
opened_for ids none = false
opened_for ids (some c) = has c.participant_id ids

-- Whether a message goes to a socket that was opened for one of the participants.
abbrev pub goes_to {ℓ} : {B : Type ℓ} → Sockets → List ℕ → Message B → Bool
goes_to k ids x = elim x.channel [
  | Channel.socket sid ↦ opened_for ids (lookup sid k.contexts)
  | _ ↦ false
]

opened_for-is_of :
    (ids : List ℕ) (i : ℕ) (x : Option Context)
    → has i ids ≡ true
    → is_of i x ≡ true
    → opened_for ids x ≡ true
opened_for-is_of ids i none h e = absurd cc
opened_for-is_of ids i (some c) h e = rw ((==_iff c.participant_id i).0 e) h

pub emit-eq-ok {ℓ} :
    {B : Type ℓ} (allowed : Bool) (event : Event) (channel : Channel) (body : B) (x : Message B)
    → emit allowed event channel body ≡ ok x
    → (allowed ≡ true) × (x ≡ record { event = event; channel = channel; body = body })
emit-eq-ok true event channel body x h = (refl, cc)
emit-eq-ok false event channel body x h = absurd cc

-- Whether a message goes to a socket of one of those whom a replay is for, if it is one.
abbrev pub is_meant {ℓ} : {B : Type ℓ} → Sockets → Option (List ℕ) → Message B → Bool
is_meant k none x = true
is_meant k (some only) x = goes_to k only x

has-keep :
    (p : ℕ → Bool) (i : ℕ) (xs : List ℕ)
    → has i (keep p xs) ≡ true
    → (has i xs ≡ true) × (p i ≡ true)
has-keep p i [] h = absurd cc
has-keep p i (x ∷ xs) h = elim (Bool-cases (p x)) [
  | inr n ↦ let (a, b) = has-keep p i xs (rw n at h) in (rw a (or_true (i == x)), b)
  | inl y ↦ elim (Bool-cases (i == x)) [
    | inl e ↦ (rw e refl, rw ((==_iff i x).0 e) y)
    | inr o ↦ let (a, b) = has-keep p i xs (rw o at (rw y at h)) in (rw (o, a) refl, b)
  ]
]
  where
    or_true : (b : Bool) → (b || true) ≡ true
    or_true true = refl
    or_true false = refl

has-narrowed :
    (only : Option (List ℕ)) (ids : List ℕ) (i : ℕ)
    → has i (narrowed only ids) ≡ true
    → has i ids ≡ true
has-narrowed none ids i h = h
has-narrowed (some only) ids i h = (has-keep (λ j. has j only) i ids h).0

-- Whatever `send_viewers` sends is a viewer event, and goes to a socket that was opened for a viewer of
-- the round; in a replay to some participants only, for one of them as well.
pub send_viewers-private {ℓ} :
    {B : Type ℓ} (k : Sockets) (rows : List Participant) (viewer_ids : List ℕ) (event : Event)
    (payload : Participant → B) (only : Option (List ℕ)) (sent : List (Message B))
    → send_viewers k rows viewer_ids event payload only ≡ ok sent
    → all (λ x. is_viewer x.event && goes_to k viewer_ids x && is_meant k only x) sent ≡ true
unfolding send_viewers
send_viewers-private {B = B} k rows viewer_ids event payload only sent h =
    elim (Bool-cases (nonempty (narrowed only viewer_ids))) [
      | inr n ↦ let e = rw n at h in let f : [] ≡ sent = cc in rw (← f) refl
      | inl y ↦
          to_each-all k (λ m. has m.id (narrowed only viewer_ids) ≡ true) _
            (λ sid m. viewers event sid (payload m))
            (keep (λ m. has m.id (narrowed only viewer_ids)) rows) sent each
            (All-keep (λ m. has m.id (narrowed only viewer_ids)) rows) (rw y at h)
    ]
  where
    each :
        (m : Participant) (sid : ℕ) (x : Message B)
        → has m.id (narrowed only viewer_ids) ≡ true
        → current_sid k m ≡ some sid
        → viewers event sid (payload m) ≡ ok x
        → (is_viewer x.event && goes_to k viewer_ids x && is_meant k only x) ≡ true
    each m sid x inside e f =
        let (allowed, same) =
          emit-eq-ok (is_viewer event) event (Channel.socket sid) (payload m) x f in
        rw
          (
            same,
            allowed,
            opened_for-is_of viewer_ids m.id (lookup sid k.contexts)
                (has-narrowed only viewer_ids m.id inside) (current_sid-is_of k m sid e),
          )
          (meant only inside)
      where
        meant :
            (o : Option (List ℕ))
            → has m.id (narrowed o viewer_ids) ≡ true
            → is_meant k o
                (record { event = event; channel = Channel.socket sid; body = payload m })
              ≡ true
        meant none h = refl
        meant (some os) h =
            opened_for-is_of os m.id (lookup sid k.contexts)
              (has-keep (λ j. has j os) m.id viewer_ids h).1 (current_sid-is_of k m sid e)

-- A test that holds of every message that could be sent holds of those that are.
pub send_viewers-all {ℓ} :
    {B : Type ℓ} (k : Sockets) (rows : List Participant) (viewer_ids : List ℕ) (event : Event)
    (payload : Participant → B) (only : Option (List ℕ)) (sent : List (Message B))
    (Q : Message B → Bool)
    → ((m : Participant) (sid : ℕ)
        → Q (record { event = event; channel = Channel.socket sid; body = payload m }) ≡ true)
    → send_viewers k rows viewer_ids event payload only ≡ ok sent
    → all Q sent ≡ true
unfolding send_viewers
send_viewers-all {B = B} k rows viewer_ids event payload only sent Q each h =
    elim (Bool-cases (nonempty (narrowed only viewer_ids))) [
      | inr n ↦ let e = rw n at h in let f : [] ≡ sent = cc in rw (← f) refl
      | inl y ↦
          to_each-all k (λ _. Unit {0}) Q (λ sid m. viewers event sid (payload m))
            (keep (λ m. has m.id (narrowed only viewer_ids)) rows) sent
            (λ m sid x _ e f.
              rw (emit-eq-ok (is_viewer event) event (Channel.socket sid) (payload m) x f).1
                (each m sid))
            (All-of_forall (λ _. Unit {0}) (λ _. tt) _) (rw y at h)
    ]

-- The same, for a test that needs to know whom the message goes to.
pub send_viewers-each {ℓ} :
    {B : Type ℓ} (k : Sockets) (rows : List Participant) (viewer_ids : List ℕ) (event : Event)
    (payload : Participant → B) (only : Option (List ℕ)) (sent : List (Message B))
    (Q : Message B → Bool)
    → ((m : Participant) (sid : ℕ)
        → has m.id (narrowed only viewer_ids) ≡ true
        → is_of m.id (lookup sid k.contexts) ≡ true
        → Q (record { event = event; channel = Channel.socket sid; body = payload m }) ≡ true)
    → send_viewers k rows viewer_ids event payload only ≡ ok sent
    → all Q sent ≡ true
unfolding send_viewers
send_viewers-each {B = B} k rows viewer_ids event payload only sent Q each h =
    elim (Bool-cases (nonempty (narrowed only viewer_ids))) [
      | inr n ↦ let e = rw n at h in let f : [] ≡ sent = cc in rw (← f) refl
      | inl y ↦
          to_each-all k (λ m. has m.id (narrowed only viewer_ids) ≡ true) Q
            (λ sid m. viewers event sid (payload m))
            (keep (λ m. has m.id (narrowed only viewer_ids)) rows) sent
            (λ m sid x inside e f.
              rw (emit-eq-ok (is_viewer event) event (Channel.socket sid) (payload m) x f).1
                (each m sid inside (current_sid-is_of k m sid e)))
            (All-keep (λ m. has m.id (narrowed only viewer_ids)) rows) (rw y at h)
    ]
