-- ===== src/Tests/Results.antt =====
-- Concrete runs of scoring: a result of the engine, the round that waits for it, and its cards.
use emoselfie_be.Prelude.{◌≡◌, refl, true, some, none, List, [], ◌∷◌, all, pos, arith}
use emoselfie_be.Core.Errors.{ok}
use emoselfie_be.Domain.Enums.{happy, sad, angry, surprise, neutral, disgust, fear, submitted}
use emoselfie_be.Domain.Keys.{Payload, RoundKeys, no_keys}
use emoselfie_be.Domain.Store.{Store}
use emoselfie_be.Domain.Scoring.{decimal}
use emoselfie_be.Domain.Inflight.{accept_submission, record_score}
use emoselfie_be.Domain.Inflight.Reading.{IsPayload}
use emoselfie_be.Domain.Settlement.{Finalized, finalize_round}
use emoselfie_be.Domain.Settlement.Total.{IsReady}
use emoselfie_be.Domain.Lifecycle.{World, close_entry}
use emoselfie_be.Domain.Lifecycle.Settling.{IsAwaited, close_entry-settles}
use emoselfie_be.Inference.Results.{EmotionResult, Probabilities, result_check, result_payload}
use emoselfie_be.Inference.Payloads.{IsJudged, result_payload-ok}
use emoselfie_be.Api.Submissions.{accepted_row}
use emoselfie_be.Realtime.Emitter.{Message}
use emoselfie_be.Runner.{Attempt, classified, Notice, score_payload, send_backlog}
use emoselfie_be.Runner.Flow.{Step, Reach, Reach-finalize_round}
use emoselfie_be.Runner.Cards.{is_replay, send_backlog-replays}
use emoselfie_be.Tests.{plain_digest, token_of_1, one_waiting, one_waiting-IsCoherent, open_round_7}
use emoselfie_be.Tests.Rooms.{store_1, world_1, scoring_round}
use emoselfie_be.Tests.Sockets.{two_sockets}
use emoselfie_be.Tests.Uploads.{moved_up, moved_down}

abbrev smile : Probabilities
smile =
    (happy, decimal (pos 9) 1)
    ∷ (sad, decimal (pos 4) 2)
    ∷ (angry, decimal (pos 3) 2)
    ∷ (surprise, decimal (pos 1) 2)
    ∷ (neutral, decimal (pos 1) 2)
    ∷ (disgust, decimal (pos 5) 3)
    ∷ (fear, decimal (pos 5) 3)
    ∷ []

abbrev smiling : EmotionResult
smiling = record {
  face_detected = true;
  probabilities = some smile;
  face_box = some (pos 10, pos 10, pos 80, pos 80);
}

smiling_check : result_check smiling ≡ ok tt
unfolding result_check
smiling_check = refl

result_payload-ok_example :
    (p : Payload) × (result_payload smiling happy ≡ ok p)
    × IsPayload p
    × IsJudged happy p (some smile)
result_payload-ok_example = result_payload-ok smiling happy smiling_check

abbrev smiled : Attempt
smiled = record { readable = true; verdict = some (classified smiling) }

-- Participant 1 uploads, and gets a score.
abbrev scored_run : RoundKeys
scored_run =
    record_score (accept_submission plain_digest no_keys open_round_7 1 5000 token_of_1 (83 ∷ [])).1
      1 (score_payload smiled (some open_round_7))

run_1 : Reach plain_digest scored_run
unfolding accept_submission
run_1 =
    Reach.next
      (Reach.next Reach.opens (Step.uploads no_keys open_round_7 1 5000 token_of_1 (83 ∷ [])))
      (Step.scores
        (accept_submission plain_digest no_keys open_round_7 1 5000 token_of_1 (83 ∷ [])).1
        (some open_round_7) 1 smiled refl smiling_check)

Reach-finalize_round_example :
    (f : Finalized) × (st' : Store) × (finalize_round store_1 scored_run scoring_round 20000
      ≡ ok (f, st'))
Reach-finalize_round_example =
    Reach-finalize_round plain_digest store_1 scoring_round 20000 run_1 (refl, (refl, tt))
      (omega arith, (omega arith, tt))

waiting-IsReady : (st : Store) → st.members ≡ store_1.members → IsReady st one_waiting
waiting-IsReady st e = record {
  coherent = one_waiting-IsCoherent;
  payloads = λ q. tt;
  once = rw e (refl, (refl, tt));
  best = rw e (omega arith, (omega arith, tt));
}

close_entry-settles_example :
    (w' : World) × (close_entry world_1 7 14000 ≡ ok w') × IsAwaited 7 14000 world_1 w'
close_entry-settles_example =
    close_entry-settles world_1 open_round_7 7 14000 refl refl refl (waiting-IsReady store_1 refl)
      (omega arith, (omega arith, tt))

-- Participant 2 comes after participant 1 has a score.
abbrev late_world : World
late_world = record world_1 {
  store = record store_1 { submissions = accepted_row 9 7 1 5000 ∷ [] };
  keys =
      (
        7,
        record no_keys {
          submitted = (1, 5000) ∷ (2, 6000) ∷ [];
          scores =
              (1, record { status = submitted; target_score = some 876; top_emotions = none }) ∷ [];
          viewers = 1 ∷ 2 ∷ [];
        },
      )
      ∷ [];
}

replayed :
    (sent : List (Message Notice)) × (send_backlog plain_digest moved_up moved_down
        (83 ∷ [])
        two_sockets
        late_world
        7
        2
      ≡ ok sent)
unfolding send_backlog
replayed = (_, refl)

send_backlog-replays_example :
    all (is_replay plain_digest moved_up moved_down (83 ∷ []) two_sockets open_round_7 2) replayed.0
    ≡ true
send_backlog-replays_example =
    send_backlog-replays plain_digest moved_up moved_down (83 ∷ []) two_sockets late_world
      open_round_7 7 2 replayed.0 refl replayed.1
