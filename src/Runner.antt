-- ===== src/Runner.antt =====
-- app/domain/round/runner.py: what follows an accepted upload. `_score` runs as a task of its own, so
-- it is a step of its own, and what it meets (the image, the engine) is its argument.
pub mod Flow
pub mod Recording
pub mod Resolving
pub mod Cards
use emoselfie_be.Prelude.{
  ℕ, Bool, true, false, not, Option, none, some, List, [], ◌∷◌, ◌++◌, leb, ◌==◌, if◌then◌else◌,
  or_else, ℤ, pos, length, keep, nonempty,
}
use emoselfie_be.Prelude.Dict.{Dict, lookup, keys}
use emoselfie_be.Prelude.Sort.{sort_by}
use emoselfie_be.Core.Errors.{Error, app, Result, ok, err, ◌>>=◌}
use emoselfie_be.Core.Media.{media_token}
use emoselfie_be.Db.{Participant, Round, Submission}
use emoselfie_be.Domain.Enums.{EmotionLabel, SubmissionStatus}
use emoselfie_be.Domain.Keys.{Payload, failed_payload, RoundKeys}
use emoselfie_be.Domain.Store.{Store, get_round, get_member, active_participants}
use emoselfie_be.Domain.Inflight.{
  record_score, display_ranks, media_expiry_ms, submitted_count, viewer_ids,
}
use emoselfie_be.Domain.Lifecycle.{World, keys_of, close_entry, finalize_if_resolved}
use emoselfie_be.Inference.Results.{EmotionResult, result_payload}
use emoselfie_be.Realtime.{Sockets}
use emoselfie_be.Realtime.Emitter.{Message, to_players, submission_status, submission_scored}
use emoselfie_be.Realtime.Delivery.{send_viewers}
use emoselfie_be.Realtime.Actions.{put_keys}

-- What `classify` comes to.
pub data Verdict : Type 0 where
  classified : EmotionResult → Verdict
  inference_error timed_out cancelled : Verdict

-- What `_score` meets: whether `_store_image` can read the image, and the engine, where there is one.
pub record Attempt : Type 0 where
  pub readable : Bool
  pub verdict : Option Verdict

abbrev pub or_failed : Result Payload → Payload
or_failed (ok p) = p
or_failed (err e) = failed_payload

-- The payload that is recorded after `classify`: without the round `_target` raises.
unfoldable pub judged : Option Round → Verdict → Payload
unfolding result_payload
judged none v = failed_payload
judged (some current) (classified r) = or_failed (result_payload r current.target_emotion)
judged (some current) _ = failed_payload

-- `payload` in the `finally` block of `_score`: failed, whatever is raised.
unfoldable pub score_payload : Attempt → Option Round → Payload
unfolding judged
score_payload a current =
    if not a.readable
    then failed_payload
    else elim a.verdict [ none ↦ failed_payload | some v ↦ judged current v ]

-- What leaves the task after the `finally` block: the cancellation that is raised again, or an
-- error that no `except` clause names.
pub data Escape : Type 0 where
  cancellation : Escape
  failure : Error → Escape

abbrev pub unnamed : Result Payload → Option Escape
unnamed (ok p) = none
unnamed (err (app code)) = none
unnamed (err e) = some (failure e)

unfoldable pub escaping : Option Round → Verdict → Option Escape
unfolding result_payload
escaping current cancelled = some cancellation
escaping (some current) (classified r) = unnamed (result_payload r current.target_emotion)
escaping current v = none

unfoldable pub escape : Attempt → Option Round → Option Escape
unfolding escaping
escape a current =
    if not a.readable then none else elim a.verdict [ none ↦ none | some v ↦ escaping current v ]

-- `submission:scored`
pub record ScoredCard : Type 0 where
  pub round_id : ℕ
  pub submission_id : ℕ
  pub participant_id : ℕ
  pub nickname : List ℕ
  pub color_tag : ℕ
  pub status : SubmissionStatus
  pub target_score : Option ℕ
  pub top_emotions : Option (List (EmotionLabel × ℕ))
  pub current_rank : Option ℕ
  pub media_token : List ℕ
  pub scored_count : ℕ
  pub scored_total : ℕ

pub data Notice : Type 0 where
  -- `submission:status`
  counted : (round_id submitted total : ℕ) → Notice
  scored : ScoredCard → Notice

-- `.get(participant_id)` on the ranks
abbrev pub rank_in : ℕ → Dict (Option ℕ) → Option ℕ
rank_in p ranks = or_else (lookup p ranks) none

-- The row whose id `send_backlog` reads for a participant: the last one, as in a dict.
abbrev pub row_id : ℕ → ℕ → List Submission → Option ℕ
row_id round_id p [] = none
row_id round_id p (s ∷ ss) = elim (row_id round_id p ss) [
  | some i ↦ some i
  | none ↦
      if s.round_id == round_id then (if s.participant_id == p then some s.id else none) else none
]

abbrev pub arrival_key : Dict ℕ → ℕ → List ℤ
arrival_key received p = pos (or_else (lookup p received) 0) ∷ pos p ∷ []

-- `earlier` in its order: the owners of the scores but one, as their uploads arrived.
unfoldable pub arrivals : RoundKeys → ℕ → List ℕ
unfolding sort_by
arrivals k p = sort_by (arrival_key k.submitted) (keep (λ q. not (q == p)) (keys k.scores))

-- The round's keys hold the score from here on, whatever the rest of `_score` raises.
unfoldable pub with_score : World → ℕ → ℕ → Attempt → World
unfolding record_score score_payload
with_score w round_id participant_id a =
    put_keys round_id
      (record_score (keys_of round_id w) participant_id
        (score_payload a (get_round round_id w.store)))
      w

module _ (digest : List ℕ → List ℕ → List ℕ) (b64encode : List ℕ → List ℕ)
    (b64decode : List ℕ → Option (List ℕ)) (secret : List ℕ) where
  -- `_scored_card`
  unfoldable pub scored_card :
      RoundKeys → Round → Participant → ℕ → Payload → ℕ → Participant → Notice
  unfolding media_token display_ranks media_expiry_ms
  scored_card k current owner submission_id payload total viewer = scored (record {
    round_id = current.id;
    submission_id = submission_id;
    participant_id = owner.id;
    nickname = owner.nickname;
    color_tag = owner.color_tag;
    status = payload.status;
    target_score = payload.target_score;
    top_emotions = payload.top_emotions;
    current_rank = rank_in owner.id (display_ranks k.submitted k.scores);
    media_token =
        media_token digest b64encode b64decode current.id submission_id viewer.id
          (media_expiry_ms current) secret;
    scored_count = length (keys k.scores);
    scored_total = total;
  })

  -- `_announce_score`, on the keys that hold the score
  unfoldable pub announce_score :
      Sockets → World → ℕ → ℕ → ℕ → Payload → Result (List (Message Notice))
  unfolding send_viewers scored_card active_participants
  announce_score s w round_id participant_id submission_id payload =
      elim (get_member participant_id w.store.members) [
        | none ↦ ok []
        | some owner ↦ elim (get_round round_id w.store) [
          | none ↦ ok []
          | some current ↦
              let k = keys_of round_id w in
              let total = length (active_participants w.store.members) in
              send_viewers s w.store.members (viewer_ids k) submission_scored
                (scored_card k current owner submission_id payload total) none
        ]
      ]

  -- The loop of `send_backlog`
  unfoldable pub replay : Sockets → World → Round → ℕ → List ℕ → Result (List (Message Notice))
  unfolding send_viewers scored_card active_participants
  replay s w current p [] = ok []
  replay s w current p (q ∷ qs) =
      let rest = replay s w current p qs in
      let k = keys_of current.id w in
      let active = active_participants w.store.members in
      elim (get_member q active) [
        | none ↦ rest
        | some owner ↦ elim (row_id current.id q w.store.submissions) [
          | none ↦ rest
          | some submission_id ↦
              (send_viewers s w.store.members (viewer_ids k) submission_scored
                  (scored_card k current owner submission_id
                    (or_else (lookup q k.scores) failed_payload) (length active))
                  (some (p ∷ []))
                >>= λ sent. rest >>= λ later. ok (sent ++ later))
        ]
      ]

  unfoldable pub send_backlog : Sockets → World → ℕ → ℕ → Result (List (Message Notice))
  unfolding replay arrivals
  send_backlog s w round_id p = elim (arrivals (keys_of round_id w) p) [
    | [] ↦ ok []
    | q ∷ qs ↦ elim (get_round round_id w.store) [
      | none ↦ ok []
      | some current ↦ replay s w current p (q ∷ qs)
    ]
  ]

  -- `dispatch`, less the task of `_score` that it starts: a full house closes the round.
  unfoldable pub dispatch : Sockets → World → ℕ → ℕ → ℕ → Result (List (Message Notice) × World)
  unfolding send_backlog active_participants close_entry
  dispatch s w round_id participant_id now =
      let submitted = submitted_count (keys_of round_id w) in
      let total = length (active_participants w.store.members) in
      to_players submission_status w.store.room.id (counted round_id submitted total) >>= λ status.
      send_backlog s w round_id participant_id >>= λ backlog.
      (if leb total submitted then close_entry w round_id now else ok w) >>= λ w'.
      ok (status ∷ backlog, w')

  -- `_score`: the messages, the world that is left, and what is raised when all is done.
  unfoldable pub score :
      Sockets
      → World
      → ℕ
      → ℕ
      → ℕ
      → Attempt
      → ℕ
      → Result (List (Message Notice) × World × Option Escape)
  unfolding with_score announce_score finalize_if_resolved escape
  score s w round_id participant_id submission_id a now =
      let w' = with_score w round_id participant_id a in
      announce_score s w' round_id participant_id submission_id
        (score_payload a (get_round round_id w.store))
      >>= λ sent. finalize_if_resolved w' round_id now >>= λ w''.
          ok (sent, w'', escape a (get_round round_id w.store))
