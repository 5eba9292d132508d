-- ===== src/Realtime/Tokens.antt =====
-- app/realtime/server.py: the capture tokens in the personal events of a round.
use emoselfie_be.Prelude.{
  ℕ, ◌≡◌, refl, Bool, true, false, Option, none, some, List, [], ◌∷◌, ◌++◌, arith, ==_iff,
  if◌then◌else◌, length, Bool-cases, inl, inr, all,
}
use emoselfie_be.Prelude.Every.{All-of_forall}
use emoselfie_be.Prelude.Dict.{lookup}
use emoselfie_be.Core.Errors.{Result, ok, ◌>>=◌, >>=-eq-ok}
use emoselfie_be.Core.Security.{capture_token, text_eq, text_eq_refl}
use emoselfie_be.Db.{Participant, Round}
use emoselfie_be.Domain.Store.{Store, active_participants, get_round}
use emoselfie_be.Domain.Enums.{is_playing}
use emoselfie_be.Realtime.{Context, Sockets, current_sid, is_of}
use emoselfie_be.Realtime.Emitter.{
  Channel, Message, personal, to_room, round_revealed, game_started,
}
use emoselfie_be.Realtime.Recipients.{to_each-all, current_sid-is_of, emit-eq-ok}
use emoselfie_be.Realtime.Delivery.{
  Body, revealed, started, started_view, to_each, revealed_view, announce, announce_round,
}

-- A token in a message belongs to the participant whom the receiving socket was opened for.
unfoldable pub is_own_token : (List ℕ → List ℕ → List ℕ) → List ℕ → Sockets → Message Body → Bool
unfolding capture_token text_eq
is_own_token digest secret k x = elim x.body [
  | revealed v ↦ elim x.channel [
    | Channel.socket sid ↦ elim (lookup sid k.contexts) [
      | none ↦ false
      | some c ↦
          text_eq v.capture_token
            (capture_token digest v.round_id c.participant_id v.deadline_at_ms secret)
    ]
    | _ ↦ false
  ]
  | _ ↦ true
]

pub all-append {ℓ} :
    {A : Type ℓ} (p : A → Bool) (xs ys : List A)
    → all p xs ≡ true
    → all p ys ≡ true
    → all p (xs ++ ys) ≡ true
all-append p [] ys h k = k
all-append p (x ∷ xs) ys h k = let rest = all-append p xs ys in ground arith

module _ (digest : List ℕ → List ℕ → List ℕ) (secret : List ℕ) where
  announce-tokens :
      (k : Sockets) (st : Store) (current : Round) (first : Bool) (sent : List (Message Body))
      → announce digest secret k st current first ≡ ok sent
      → all (is_own_token digest secret k) sent ≡ true
  unfolding announce is_own_token revealed_view
  announce-tokens k st current first sent h =
      let (head, e, h₁) = >>=-eq-ok (head_of first) _ h in
      let (rest, f, h₂) = >>=-eq-ok (to_each k send members) _ h₁ in
      let same : head ++ rest ≡ sent = cc in
      rw (← same) (
        all-append _ head rest (by_first first head e) (
          to_each-all k (λ _. Unit {0}) (is_own_token digest secret k) send members rest each
            (All-of_forall (λ _. Unit {0}) (λ _. tt) members) f))
    where
      members : List Participant
      members = active_participants st.members

      head_of : Bool → Result (List (Message Body))
      head_of b =
          if b
          then (to_room game_started st.room.id (started (started_view st.room members)) >>= λ x.
              ok (x ∷ []))
          else ok []

      send : ℕ → Participant → Result (Message Body)
      send sid m =
          personal round_revealed sid
            (revealed (revealed_view digest secret st.room current m (length members)))

      by_first :
          (b : Bool) (head : List (Message Body))
          → head_of b ≡ ok head
          → all (is_own_token digest secret k) head ≡ true
      by_first true head e =
          let same : record {
            event = game_started;
            channel = Channel.room st.room.id;
            body = started (started_view st.room members);
          }
                ∷ []
              ≡ head =
            cc in
          rw (← same) refl
      by_first false head e = let same : [] ≡ head = cc in rw (← same) refl

      each :
          (m : Participant) (sid : ℕ) (x : Message Body)
          → Unit {0}
          → current_sid k m ≡ some sid
          → send sid m ≡ ok x
          → is_own_token digest secret k x ≡ true
      each m sid x _ e f =
          let (_, same) =
            emit-eq-ok true round_revealed (Channel.socket sid)
              (revealed (revealed_view digest secret st.room current m (length members))) x f in
          rw same (by_context (lookup sid k.contexts) (current_sid-is_of k m sid e))
        where
          by_context :
              (o : Option Context)
              → is_of m.id o ≡ true
              → (elim o [
                | none ↦ false
                | some c ↦
                    text_eq
                      (capture_token digest current.id m.id current.deadline_at secret)
                      (capture_token digest current.id c.participant_id current.deadline_at secret)
              ])
                ≡ true
          by_context none g = absurd cc
          by_context (some c) g =
              rw ((==_iff c.participant_id m.id).0 g)
                (text_eq_refl (capture_token digest current.id m.id current.deadline_at secret))

  -- Whatever `announce_round` sends, a capture token goes only to a socket that was opened for the
  -- participant to whom the token belongs.
  pub announce_round-tokens :
      (k : Sockets) (st : Store) (first : Bool) (sent : List (Message Body))
      → announce_round digest secret k st first ≡ ok sent
      → all (is_own_token digest secret k) sent ≡ true
  unfolding announce_round
  announce_round-tokens k st first sent h = elim (Bool-cases (is_playing st.room.status)) [
    | inr n ↦ nothing (rw n at h)
    | inl y ↦ by_id st.room.current_round_id (rw y at h)
  ]
    where
      nothing :
          ◌≡◌ {A = Result (List (Message Body))} (ok []) (ok sent)
          → all (is_own_token digest secret k) sent ≡ true
      nothing e = let same : [] ≡ sent = cc in rw (← same) refl

      by_round :
          (o : Option Round)
          → ◌≡◌ {A = Result (List (Message Body))}
              (elim o [ none ↦ ok [] | some current ↦ announce digest secret k st current first ])
              (ok sent)
          → all (is_own_token digest secret k) sent ≡ true
      by_round none e = nothing e
      by_round (some current) e = announce-tokens k st current first sent e

      by_id :
          (o : Option ℕ)
          → ◌≡◌ {A = Result (List (Message Body))}
              (elim o [
                | none ↦ ok []
                | some i ↦ elim (get_round i st) [
                  | none ↦ ok []
                  | some current ↦ announce digest secret k st current first
                ]
              ])
              (ok sent)
          → all (is_own_token digest secret k) sent ≡ true
      by_id none e = nothing e
      by_id (some i) e = by_round (get_round i st) e
