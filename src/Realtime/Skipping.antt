-- ===== src/Realtime/Skipping.antt =====
-- `skip` of app/realtime/server.py: when the viewing of a round ends early.
use mathlib.Core.Path.{ap₂}
use emoselfie_be.Prelude.{
  ℕ, ◌≡◌, ◌⊎◌, refl, ap, ◌∙◌, Bool, true, false, not, ◌&&◌, ◌||◌, ◌==◌, none, List, [], ◌∷◌,
  if◌then◌else◌, Bool-cases, inl, inr, All, any, all, map, keep, nonempty, is_some,
}
use emoselfie_be.Prelude.Sets.{has, discard, has-discard, IsDistinct}
use emoselfie_be.Core.Errors.{ok}
use emoselfie_be.Db.{Participant, Round}
use emoselfie_be.Domain.Keys.{RoundKeys}
use emoselfie_be.Domain.Lobby.Capacity.{member_ids}
use emoselfie_be.Domain.Lifecycle.{World, keys_of}
use emoselfie_be.Domain.Lifecycle.Advance.{advance-ok, IsLeft}
use emoselfie_be.Domain.Lifecycle.Settling.{IsLast}
use emoselfie_be.Domain.Settlement.Total.{HasBest}
use emoselfie_be.Domain.Store.{get_round}
use emoselfie_be.Domain.Reactions.{toggle_skip}
use emoselfie_be.Realtime.Delivery.{connected_viewers}
use emoselfie_be.Realtime.{Sockets, current_sid}
use emoselfie_be.Realtime.Emitter.{Message, round_skip_status}
use emoselfie_be.Realtime.Audience.{send_viewers-reaches}
use emoselfie_be.Realtime.Actions.{
  SkipStatus, put_keys, voted, tell_skip, ends_viewing, cast_skip, may_skip, skip, is_unanimous,
}

-- A participant who may view the round, and holds a socket.
abbrev pub is_watching : Sockets → List ℕ → Participant → Bool
is_watching k viewers m = has m.id viewers && is_some (current_sid k m)

-- The host skips, or somebody watches and all who watch have voted.
abbrev pub is_over : Sockets → World → RoundKeys → Bool → Bool
is_over k w k' is_host =
    is_host
    || (any (is_watching k k'.viewers) w.store.members
        && all (λ m. not (is_watching k k'.viewers m) || has m.id k'.skips) w.store.members)

-- The vote of one participant is turned, and nothing else of the keys.
abbrev pub IsTurned : RoundKeys → ℕ → RoundKeys → Type 0
IsTurned k p k' =
    (k' ≡ record k { skips = k'.skips })
    × ((q : ℕ) → has q k'.skips ≡ (if q == p then not (has p k.skips) else has q k.skips))

-- What a vote leaves behind: the turned vote and, if the viewing is over, the round that is left.
abbrev pub IsOutcome : Sockets → World → ℕ → Round → Bool → ℕ → World → Type 0
IsOutcome k w participant_id current is_host now w'' =
    (k' : RoundKeys) × IsTurned (keys_of current.id w) participant_id k'
    × (if is_over k w k' is_host
        then IsLeft (put_keys current.id k' w) (get_round current.id w.store) now w''
        else (w'' ≡ put_keys current.id k' w))

voted-IsTurned :
    (w : World) (p : ℕ) (current : Round) → IsTurned (keys_of current.id w) p (voted w p current)
unfolding voted toggle_skip
voted-IsTurned w p current =
    (refl, λ q. by_vote q (Bool-cases (has p (keys_of current.id w).skips)))
  where
    skips : List ℕ
    skips = (keys_of current.id w).skips

    by_vote :
        (q : ℕ)
        → ((has p skips ≡ true) ⊎ (has p skips ≡ false))
        → has q (if not (has p skips) then p ∷ skips else discard p skips)
          ≡ (if q == p then not (has p skips) else has q skips)
    by_vote q (inl y) = rw y (has-discard q p skips)
    by_vote q (inr n) = rw n (by_key (q == p))
      where
        by_key : (b : Bool) → (b || has q skips) ≡ (if b then true else has q skips)
        by_key true = refl
        by_key false = refl

-- Those who are connected among the viewers, and whether they all have voted.
watching_all :
    (k : Sockets) (viewers skips : List ℕ) (ms : List Participant)
    → all
        (λ i. has i skips)
        (map (λ m. m.id) (keep (λ m. is_some (current_sid k m)) (keep (λ m. has m.id viewers) ms)))
      ≡ all (λ m. not (is_watching k viewers m) || has m.id skips) ms
watching_all k viewers skips [] = refl
watching_all k viewers skips (m ∷ ms) = elim (Bool-cases (has m.id viewers)) [
  | inr n ↦ rw n (watching_all k viewers skips ms)
  | inl y ↦ elim (Bool-cases (is_some (current_sid k m))) [
    | inr n ↦ rw (y, n) (watching_all k viewers skips ms)
    | inl s ↦ rw (y, s) (ap (λ b. has m.id skips && b) (watching_all k viewers skips ms))
  ]
]

watching_any :
    (k : Sockets) (viewers : List ℕ) (ms : List Participant)
    → nonempty
        (map (λ m. m.id) (keep (λ m. is_some (current_sid k m)) (keep (λ m. has m.id viewers) ms)))
      ≡ any (is_watching k viewers) ms
watching_any k viewers [] = refl
watching_any k viewers (m ∷ ms) = elim (Bool-cases (has m.id viewers)) [
  | inr n ↦ rw n (watching_any k viewers ms)
  | inl y ↦ elim (Bool-cases (is_some (current_sid k m))) [
    | inr n ↦ rw (y, n) (watching_any k viewers ms)
    | inl s ↦ rw (y, s) refl
  ]
]

nobody : (k : Sockets) (ms : List Participant) → any (is_watching k []) ms ≡ false
nobody k [] = refl
nobody k (m ∷ ms) = nobody k ms

ends_viewing_lem :
    (k : Sockets) (w : World) (k' : RoundKeys) (is_host : Bool)
    → ends_viewing k w k' is_host ≡ is_over k w k' is_host
unfolding ends_viewing connected_viewers
ends_viewing_lem k w k' is_host = ap (λ b. is_host || b) (by_viewers k'.viewers)
  where
    by_viewers :
        (vs : List ℕ)
        → is_unanimous k'.skips (
            if not (nonempty vs)
            then []
            else map
                (λ m. m.id)
                (keep (λ m. is_some (current_sid k m)) (keep (λ m. has m.id vs) w.store.members)))
          ≡ (any (is_watching k vs) w.store.members
              && all (λ m. not (is_watching k vs m) || has m.id k'.skips) w.store.members)
    by_viewers [] = rw (nobody k w.store.members) refl
    by_viewers (v ∷ vs) =
        ap₂ (λ a b. a && b) (watching_any k (v ∷ vs) w.store.members)
          (watching_all k (v ∷ vs) k'.skips w.store.members)

tell_skip-ok :
    (k : Sockets) (w : World) (current : Round) (k' : RoundKeys)
    → (messages : List (Message SkipStatus)) × (tell_skip k w current k' ≡ ok messages)
unfolding tell_skip
tell_skip-ok k w current k' =
    let (messages, sent, _) =
      send_viewers-reaches k w.store.members k'.viewers round_skip_status _ none refl in
    (messages, sent)

cast_skip-ok :
    (k : Sockets) (w : World) (participant_id : ℕ) (current : Round) (is_host : Bool) (now : ℕ)
    → IsDistinct (member_ids w.store.members)
    → All HasBest w.store.members
    → IsLast current.id w.store
    → (messages : List (Message SkipStatus)) × (w'' : World) × (cast_skip k w participant_id current
          is_host now
        ≡ (ok messages, w''))
      × IsOutcome k w participant_id current is_host now w''
unfolding cast_skip
cast_skip-ok k w participant_id current is_host now d best latest =
    by_end (Bool-cases (is_over k w k' is_host))
  where
    k' : RoundKeys
    k' = voted w participant_id current

    w' : World
    w' = put_keys current.id k' w

    by_end :
        ((is_over k w k' is_host ≡ true) ⊎ (is_over k w k' is_host ≡ false))
        → (messages : List (Message SkipStatus)) × (w'' : World) × (cast_skip k w participant_id
              current is_host now
            ≡ (ok messages, w''))
          × IsOutcome k w participant_id current is_host now w''
    by_end (inl y) =
        let (messages, sent) = tell_skip-ok k w current k' in
        let (w'', moved, left) = advance-ok w' current.id now d best latest in
        let ended = ends_viewing_lem k w k' is_host ∙ y in
        (
          messages,
          w'',
          rw (cast_skip, sent, ended, moved) refl,
          (k', voted-IsTurned w participant_id current, rw y left),
        )
    by_end (inr n) =
        let (messages, sent) = tell_skip-ok k w current k' in
        let ended = ends_viewing_lem k w k' is_host ∙ n in
        (
          messages,
          w',
          rw (cast_skip, sent, ended) refl,
          (k', voted-IsTurned w participant_id current, rw n refl),
        )

-- A skip that passes its checks is always answered, in a room whose members have different ids and
-- best scores in range, with at most seven emotions and no round later than the one skipped. The
-- vote of the participant is turned. The round is left, the next one opens or the game ends,
-- exactly where the host skips, or somebody who may view the round is connected and all who are
-- have voted then; else only the vote changes.
pub skip-ok :
    (k : Sockets) (w : World) (sid now participant_id : ℕ) (current : Round) (is_host : Bool)
    → may_skip k w sid ≡ ok (participant_id, current, is_host)
    → IsDistinct (member_ids w.store.members)
    → All HasBest w.store.members
    → IsLast current.id w.store
    → (messages : List (Message SkipStatus)) × (w'' : World) × (skip k w sid now
        ≡ (ok messages, w''))
      × IsOutcome k w participant_id current is_host now w''
unfolding skip
skip-ok k w sid now participant_id current is_host checked d best latest =
    let (messages, w'', done, outcome) =
      cast_skip-ok k w participant_id current is_host now d best latest in
    (messages, w'', rw (skip, checked, done) refl, outcome)
