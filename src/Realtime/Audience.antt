-- ===== src/Realtime/Audience.antt =====
-- app/realtime/server.py: lemmas on the viewers whom `send_viewers` sends an event to.
use emoselfie_be.Prelude.{
  ℕ, ◌≡◌, refl, Bool, true, false, not, ◌&&◌, ◌||◌, Option, none, some, List, [], ◌∷◌, arith, ◌==◌,
  ==_refl, if◌then◌else◌, keep, is_some, nonempty, Bool-cases, inl, inr, all,
}
use emoselfie_be.Prelude.Sets.{has}
use emoselfie_be.Core.Errors.{Result, ok, ◌>>=◌}
use emoselfie_be.Db.{Participant}
use emoselfie_be.Realtime.{Sockets, current_sid}
use emoselfie_be.Realtime.Emitter.{Event, Channel, Message, viewers, is_viewer}
use emoselfie_be.Realtime.Delivery.{to_each, narrowed, send_viewers}

-- Whether the sent messages hold one of the event to the socket.
abbrev pub is_sent {ℓ} : {B : Type ℓ} → Option ℕ → List (Message B) → Bool
is_sent none sent = false
is_sent (some sid) [] = false
is_sent (some sid) (x ∷ xs) =
    (elim x.channel [ Channel.socket s ↦ s == sid | _ ↦ false ]) || is_sent (some sid) xs

-- Whether a participant has a current socket, and no message goes there.
abbrev pub is_missed {ℓ} : {B : Type ℓ} → Sockets → List (Message B) → Participant → Bool
is_missed k sent m = is_some (current_sid k m) && not (is_sent (current_sid k m) sent)

module _ {ℓ} {B : Type ℓ} (k : Sockets) (event : Event) (payload : Participant → B) where
  is_sent-later :
      (o : Option ℕ) (x : Message B) (xs : List (Message B))
      → is_sent o xs ≡ true
      → is_sent o (x ∷ xs) ≡ true
  is_sent-later none x xs h = h
  is_sent-later (some sid) x xs h = ground arith

  none_missed-later :
      (x : Message B) (xs : List (Message B)) (ms : List Participant)
      → all (λ m. not (is_missed k xs m)) ms ≡ true
      → all (λ m. not (is_missed k (x ∷ xs) m)) ms ≡ true
  none_missed-later x xs [] h = refl
  none_missed-later x xs (m ∷ ms) h =
      let here = is_sent-later (current_sid k m) x xs in
      let rest = none_missed-later x xs ms in ground arith

  to_each-sends :
      (ms : List Participant)
      → is_viewer event ≡ true
      → (sent : List (Message B)) × (to_each k (λ sid m. viewers event sid (payload m)) ms
          ≡ ok sent)
        × (all (λ m. not (is_missed k sent m)) ms ≡ true)
  unfolding to_each
  to_each-sends [] v = ([], refl, refl)
  to_each-sends (m ∷ ms) v = by_sid (to_each-sends ms v) (current_sid k m) refl
    where
      by_sid :
          ((sent : List (Message B)) × (to_each k (λ sid m'. viewers event sid (payload m')) ms
              ≡ ok sent)
            × (all (λ m'. not (is_missed k sent m')) ms ≡ true))
          → (o : Option ℕ) → current_sid k m ≡ o
          → (sent : List (Message B)) × (◌≡◌ {A = Result (List (Message B))}
              (elim o [
                | none ↦ to_each k (λ sid m'. viewers event sid (payload m')) ms
                | some sid ↦
                    (viewers event sid (payload m) >>= λ x.
                    to_each k (λ s m'. viewers event s (payload m')) ms >>= λ xs. ok (x ∷ xs))
              ])
              (ok sent))
            × (all (λ m'. not (is_missed k sent m')) (m ∷ ms) ≡ true)
      by_sid (sent, done, h) none e = (sent, done, rw e h)
      by_sid (sent, done, h) (some sid) e = (
        record { event = event; channel = Channel.socket sid; body = payload m } ∷ sent,
        rw (done, v) refl,
        rw (e, ==_refl sid) (none_missed-later _ sent ms h),
      )

all-keep :
    (p q : Participant → Bool) (ms : List Participant)
    → all q (keep p ms) ≡ true
    → all (λ m. not (p m) || q m) ms ≡ true
all-keep p q [] h = refl
all-keep p q (m ∷ ms) h = elim (Bool-cases (p m)) [
  | inl y ↦ rw y (let g = rw y at h in let rest = all-keep p q ms in ground arith)
  | inr n ↦ rw n (all-keep p q ms (rw n at h))
]

-- Sending a viewer event never fails, and each viewer of the round who has a current socket is sent it;
-- in a replay to some participants only, each of those viewers.
pub send_viewers-reaches {ℓ} :
    {B : Type ℓ} (k : Sockets) (rows : List Participant) (viewer_ids : List ℕ) (event : Event)
    (payload : Participant → B) (only : Option (List ℕ))
    → is_viewer event ≡ true
    → (sent : List (Message B)) × (send_viewers k rows viewer_ids event payload only ≡ ok sent)
      × (all (λ m. not (has m.id (narrowed only viewer_ids)) || not (is_missed k sent m)) rows
          ≡ true)
unfolding send_viewers
send_viewers-reaches {B = B} k rows viewer_ids event payload only v =
    by_ids (narrowed only viewer_ids)
  where
    nobody :
        (ms : List Participant) (q : Participant → Bool)
        → all (λ m. not (has m.id []) || q m) ms ≡ true
    nobody [] q = refl
    nobody (m ∷ ms) q = nobody ms q

    by_ids :
        (ids : List ℕ)
        → (sent : List (Message B)) × ((if not (nonempty ids)
              then ok []
              else to_each k
                  (λ sid m. viewers event sid (payload m))
                  (keep (λ m. has m.id ids) rows))
            ≡ ok sent)
          × (all (λ m. not (has m.id ids) || not (is_missed k sent m)) rows ≡ true)
    by_ids [] = ([], refl, nobody rows (λ m. not (is_missed {B = B} k [] m)))
    by_ids (i ∷ is) =
        let (sent, done, h) =
          to_each-sends k event payload (keep (λ m. has m.id (i ∷ is)) rows) v in
        (sent, done, all-keep (λ m. has m.id (i ∷ is)) _ rows h)
