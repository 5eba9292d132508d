-- ===== src/Runner/Cards.antt =====
-- The cards of a round: whom `_announce_score` and `send_backlog` send them.
use emoselfie_be.Prelude.{
  ℕ, ◌≡◌, refl, sym, ◌∙◌, ap, Bool, true, false, not, ◌&&◌, Option, none, some, List, [], ◌∷◌, ◌++◌,
  arith, ◌==◌, ==_iff, ==_refl, Bool-cases, inl, inr, All, all, length, keep, or_else,
}
use emoselfie_be.Prelude.Sets.{has, has-keep}
use emoselfie_be.Prelude.Every.{All-keep, All-sort_by}
use emoselfie_be.Prelude.Dict.{lookup, keys}
use emoselfie_be.Core.Errors.{Result, ok, ◌>>=◌, >>=-eq-ok}
use emoselfie_be.Core.Security.{text_eq, text_eq_refl}
use emoselfie_be.Core.Media.{media_token}
use emoselfie_be.Db.{Participant, Round}
use emoselfie_be.Domain.Keys.{Payload, failed_payload, RoundKeys}
use emoselfie_be.Domain.Store.{get_round, get_member, active_participants}
use emoselfie_be.Domain.Inflight.{media_expiry_ms, viewer_ids}
use emoselfie_be.Domain.Lifecycle.{World, keys_of}
use emoselfie_be.Realtime.{Context, Sockets, is_of}
use emoselfie_be.Realtime.Emitter.{Channel, Message, submission_scored}
use emoselfie_be.Realtime.Delivery.{send_viewers, narrowed}
use emoselfie_be.Realtime.Recipients.{send_viewers-each}
use emoselfie_be.Realtime.Tokens.{all-append}
use emoselfie_be.Runner.{
  Notice, counted, scored, ScoredCard, scored_card, announce_score, arrivals, arrival_key, replay,
  row_id, send_backlog,
}

both : (a b : Bool) → a ≡ true → b ≡ true → (a && b) ≡ true
both a b h k = ground arith

get_member-id :
    (i : ℕ) (ms : List Participant) (m : Participant) → get_member i ms ≡ some m → m.id ≡ i
get_member-id i [] m h = absurd cc
get_member-id i (x ∷ xs) m h = elim (Bool-cases (x.id == i)) [
  | inl y ↦ ground arith
  | inr n ↦ get_member-id i xs m (rw n at h)
]

only-id : (i p : ℕ) (ids : List ℕ) → has i (narrowed (some (p ∷ [])) ids) ≡ true → i ≡ p
only-id i p ids h = ground (arith, has-keep (λ j. has j (p ∷ [])) i ids)

arrivals-All : (k : RoundKeys) (p : ℕ) → All (λ q. not (q == p) ≡ true) (arrivals k p)
unfolding arrivals
arrivals-All k p =
    All-sort_by (λ q. not (q == p) ≡ true) (arrival_key k.submitted)
      (keep (λ q. not (q == p)) (keys k.scores)) (All-keep (λ q. not (q == p)) (keys k.scores))

module _ (digest : List ℕ → List ℕ → List ℕ) (b64encode : List ℕ → List ℕ)
    (b64decode : List ℕ → Option (List ℕ)) (secret : List ℕ) where
  -- The image token of a card is the one of the participant for whom the socket was opened.
  abbrev pub is_token_of : Round → ScoredCard → Context → Bool
  is_token_of current v c = text_eq v.media_token (
      media_token digest b64encode b64decode current.id v.submission_id c.participant_id
        (media_expiry_ms current) secret)

  -- A card of the round that goes to one socket, with the token of its owner.
  abbrev pub is_own_card : Sockets → Round → Message Notice → Bool
  is_own_card s current x = elim x.body [
    | counted i n t ↦ false
    | scored v ↦ elim x.channel [
      | Channel.socket sid ↦ elim (lookup sid s.contexts) [
        | none ↦ false
        | some c ↦ (v.round_id == current.id) && is_token_of current v c
      ]
      | _ ↦ false
    ]
  ]

  -- Such a card of another participant, which goes to a socket that was opened for this one.
  abbrev pub is_replay : Sockets → Round → ℕ → Message Notice → Bool
  is_replay s current p x = is_own_card s current x && (elim x.body [
    | counted i n t ↦ false
    | scored v ↦ elim x.channel [
      | Channel.socket sid ↦ is_of p (lookup sid s.contexts) && not (v.participant_id == p)
      | _ ↦ false
    ]
  ])

  own_card-token :
      (s : Sockets) (k : RoundKeys) (current : Round) (owner : Participant) (submission_id : ℕ)
      (payload : Payload) (total : ℕ) (m : Participant) (sid : ℕ)
      → is_of m.id (lookup sid s.contexts) ≡ true
      → is_own_card s current (record {
        event = submission_scored;
        channel = Channel.socket sid;
        body =
            scored_card digest b64encode b64decode secret k current owner submission_id payload
              total m;
      })
        ≡ true
  unfolding scored_card
  own_card-token s k current owner submission_id payload total m sid h =
      by_context (lookup sid s.contexts) h
    where
      by_context :
          (o : Option Context)
          → is_of m.id o ≡ true
          → (elim o [
            | none ↦ false
            | some c ↦
                (current.id == current.id)
                && text_eq
                    (media_token digest b64encode b64decode current.id submission_id m.id
                      (media_expiry_ms current)
                      secret)
                    (media_token digest b64encode b64decode current.id submission_id
                      c.participant_id
                      (media_expiry_ms current)
                      secret)
          ])
            ≡ true
      by_context none g = absurd cc
      by_context (some c) g =
          rw
            (
              (==_iff c.participant_id m.id).0 g,
              ==_refl current.id,
              text_eq_refl (
                  media_token digest b64encode b64decode current.id submission_id m.id
                    (media_expiry_ms current) secret),
            )
            refl

  -- A card that `_announce_score` sends of a round goes to one socket, with an image token for the
  -- participant for whom that socket was opened.
  pub announce_score-tokens :
      (s : Sockets) (w : World) (current : Round) (i p submission_id : ℕ) (payload : Payload)
      (sent : List (Message Notice))
      → get_round i w.store ≡ some current
      → announce_score digest b64encode b64decode secret s w i p submission_id payload ≡ ok sent
      → all (is_own_card s current) sent ≡ true
  unfolding announce_score
  announce_score-tokens s w current i p submission_id payload sent found h =
      by_rows (get_member p w.store.members) (get_round i w.store) found h
    where
      by_rows :
          (m : Option Participant) (o : Option Round)
          → o ≡ some current
          → (◌≡◌ {A = Result (List (Message Notice))}
              (elim m [
                | none ↦ ok []
                | some owner ↦ elim o [
                  | none ↦ ok []
                  | some r ↦
                      send_viewers s w.store.members
                        (viewer_ids (keys_of i w))
                        submission_scored
                        (scored_card digest b64encode b64decode secret
                          (keys_of i w)
                          r
                          owner
                          submission_id
                          payload
                          (length (active_participants w.store.members)))
                        none
                ]
              ])
              (ok sent))
          → all (is_own_card s current) sent ≡ true
      by_rows none o e f = let g : [] ≡ sent = cc in rw (← g) refl
      by_rows (some owner) none e f = absurd cc
      by_rows (some owner) (some r) e f =
          let same : r ≡ current = cc in
          send_viewers-each s w.store.members (viewer_ids (keys_of i w)) submission_scored
            (scored_card digest b64encode b64decode secret (keys_of i w) r owner submission_id
              payload (length (active_participants w.store.members)))
            none sent (is_own_card s current)
            (λ m sid _ c. rw (← same) (
              own_card-token s (keys_of i w) r owner submission_id payload
                (length (active_participants w.store.members)) m sid c))
            f

  replay_card :
      (s : Sockets) (k : RoundKeys) (current : Round) (p q : ℕ) (owner : Participant)
      (submission_id : ℕ) (payload : Payload) (total : ℕ) (m : Participant) (sid : ℕ)
      → owner.id ≡ q
      → not (q == p) ≡ true
      → m.id ≡ p
      → is_of m.id (lookup sid s.contexts) ≡ true
      → is_replay s current p (record {
        event = submission_scored;
        channel = Channel.socket sid;
        body =
            scored_card digest b64encode b64decode secret k current owner submission_id payload
              total m;
      })
        ≡ true
  unfolding scored_card
  replay_card s k current p q owner submission_id payload total m sid e apart same h =
      both _ _ (own_card-token s k current owner submission_id payload total m sid h) (
        both _ _ (ap (λ j. is_of j (lookup sid s.contexts)) (sym same) ∙ h)
          (ap (λ j. not (j == p)) e ∙ apart))

  replay-cards :
      (s : Sockets) (w : World) (current : Round) (p : ℕ) (qs : List ℕ)
      (sent : List (Message Notice))
      → All (λ q. not (q == p) ≡ true) qs
      → replay digest b64encode b64decode secret s w current p qs ≡ ok sent
      → all (is_replay s current p) sent ≡ true
  unfolding replay
  replay-cards s w current p [] sent a h = let g : [] ≡ sent = cc in rw (← g) refl
  replay-cards s w current p (q ∷ qs) sent a h =
      by_rows (λ later. replay-cards s w current p qs later a.1)
        (get_member q (active_participants w.store.members)) refl
        (row_id current.id q w.store.submissions) h
    where
      k : RoundKeys
      k = keys_of current.id w

      total : ℕ
      total = length (active_participants w.store.members)

      payload : Payload
      payload = or_else (lookup q k.scores) failed_payload

      rest : Result (List (Message Notice))
      rest = replay digest b64encode b64decode secret s w current p qs

      by_rows :
          ((later : List (Message Notice))
            → rest ≡ ok later
            → all (is_replay s current p) later ≡ true)
          → (m : Option Participant) → get_member q (active_participants w.store.members) ≡ m
          → (o : Option ℕ)
          → (◌≡◌ {A = Result (List (Message Notice))}
              (elim m [
                | none ↦ rest
                | some owner ↦ elim o [
                  | none ↦ rest
                  | some submission_id ↦
                      (send_viewers s w.store.members
                          (viewer_ids k)
                          submission_scored
                          (scored_card digest b64encode b64decode secret k current owner
                            submission_id payload total)
                          (some (p ∷ []))
                        >>= λ here. rest >>= λ later. ok (here ++ later))
                ]
              ])
              (ok sent))
          → all (is_replay s current p) sent ≡ true
      by_rows ih none e o f = ih sent f
      by_rows ih (some owner) e none f = ih sent f
      by_rows ih (some owner) e (some submission_id) f =
          let (here, told, f₁) =
            >>=-eq-ok
              (send_viewers s w.store.members (viewer_ids k) submission_scored
                (scored_card digest b64encode b64decode secret k current owner submission_id payload
                  total)
                (some (p ∷ [])))
              _ f in
          let (later, went, f₂) = >>=-eq-ok rest _ f₁ in
          let same : here ++ later ≡ sent = cc in
          rw (← same) (
            all-append (is_replay s current p) here later
              (send_viewers-each s w.store.members (viewer_ids k) submission_scored
                (scored_card digest b64encode b64decode secret k current owner submission_id payload
                  total)
                (some (p ∷ [])) here (is_replay s current p)
                (λ m sid inside c.
                  replay_card s k current p q owner submission_id payload total m sid
                    (get_member-id q (active_participants w.store.members) owner e) a.0
                    (only-id m.id p (viewer_ids k) inside) c)
                told)
              (ih later went))

  -- What `send_backlog` replays to a participant are cards of others in the round: each goes
  -- to a socket that was opened for that participant, with an image token for them.
  pub send_backlog-replays :
      (s : Sockets) (w : World) (current : Round) (i p : ℕ) (sent : List (Message Notice))
      → get_round i w.store ≡ some current
      → send_backlog digest b64encode b64decode secret s w i p ≡ ok sent
      → all (is_replay s current p) sent ≡ true
  unfolding send_backlog
  send_backlog-replays s w current i p sent found h =
      by_arrivals (arrivals (keys_of i w) p) (arrivals-All (keys_of i w) p) (get_round i w.store)
        found h
    where
      by_arrivals :
          (qs : List ℕ)
          → All (λ q. not (q == p) ≡ true) qs
          → (o : Option Round) → o ≡ some current
          → (◌≡◌ {A = Result (List (Message Notice))}
              (elim qs [
                | [] ↦ ok []
                | q ∷ rest ↦ elim o [
                  | none ↦ ok []
                  | some r ↦ replay digest b64encode b64decode secret s w r p (q ∷ rest)
                ]
              ])
              (ok sent))
          → all (is_replay s current p) sent ≡ true
      by_arrivals [] a o e f = let g : [] ≡ sent = cc in rw (← g) refl
      by_arrivals (q ∷ qs) a none e f = absurd cc
      by_arrivals (q ∷ qs) a (some r) e f =
          let same : r ≡ current = cc in rw (← same) (replay-cards s w r p (q ∷ qs) sent a f)
