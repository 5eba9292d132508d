-- ===== src/Tests.antt =====
-- Concrete runs: the theorems applied to small rooms, rounds and timers.
pub mod Rooms
pub mod Games
pub mod Sockets
pub mod Uploads
pub mod Results
pub mod Entry
use mathlib.Core.List.{Perm}
use mathlib.Core.List.Perm
use emoselfie_be.Prelude.{
  ℕ, ◌≡◌, ◌≤◌, refl, Bool, true, false, Option, none, some, List, [], ◌∷◌, ◌++◌, map, arith, All,
  pos, ℤ, if◌then◌else◌, ◌+◌, ◌*◌, leb, or_else, keep, take, length,
}
use emoselfie_be.Core.Errors.{Result, ok}
use emoselfie_be.Db.{Room, Participant, Round}
use emoselfie_be.Domain.Enums.{
  submitted, missed, failed, happy, sad, RoundStatus, RoomStatus, ParticipantStatus,
  ConnectionStatus, like, question, ReactionType,
}
use emoselfie_be.Domain.Scoring.{
  RoundSubmission, score_round, outcome_of, Float, submission_check, is_voided_round,
}
use emoselfie_be.Domain.Scoring.Population.{
  Covers, score_round-Covers, score_round-perm, score_round_distinct,
}
use emoselfie_be.Prelude.Every.{AllPairs}
use emoselfie_be.Prelude.Dict.{lookup}
use emoselfie_be.Prelude.{enumerate}
use emoselfie_be.Core.Security.{capture_token}
use emoselfie_be.Domain.Keys.{RoundKeys, no_keys}
use emoselfie_be.Domain.Store.{Store}
use emoselfie_be.Domain.Scoring.{is_ranked, ranked_result}
use emoselfie_be.Domain.Scoring.Ranking.{
  IsOver, Precedes, IsValid, score_round-Precedes, score_round-IsOver,
}
use emoselfie_be.Domain.Scoring.Points.{IsFair, score_round-IsFair}
use emoselfie_be.Domain.Scoring.Rounding.{Scores, target_score-Scores}
use emoselfie_be.Domain.Scoring.{target_score}
use emoselfie_be.Domain.Scoring.Totals.{ParticipantTotals, final_ranking, most_loved}
use emoselfie_be.Domain.Scoring.Game.{
  IsRanking, IsAward, final_ranking-IsRanking, most_loved-IsAward,
}
use emoselfie_be.Domain.Inflight.{
  accept_submission, force_pending_failed, pending_inference, stranded, read_submissions,
}
use emoselfie_be.Domain.Inflight.Acceptance.{
  IsCoherent, Attempt, no_keys-IsCoherent, accept_submission-Attempt, accept_submission-IsCoherent,
}
use emoselfie_be.Domain.Inflight.Guard.{force_pending_failed-resolves, pending_inference-stranded}
use emoselfie_be.Domain.Inflight.Reading.{IsReading, read_submissions-IsReading}
use emoselfie_be.Domain.Scheduler.{Job, JobKind, Timers, schedule, due_at, claim_due, due, same_job}
use emoselfie_be.Domain.Scheduler.Calendar.{
  Calendar, Op, Turns, Agree, perform_all, perform_all-refines,
}
use emoselfie_be.Domain.Scheduler.Claim.{due_at-schedule, claim_due_lem, is_among}
use emoselfie_be.Domain.Reactions.{counter, toggle_reaction}
use emoselfie_be.Domain.Reactions.Toggle.{IsCounted, tally, toggle_reaction-IsCounted}

abbrev photo : ℕ → ℕ → ℕ → RoundSubmission
photo i t score = record {
  participant_id = i;
  status = submitted;
  received_at_ms = some t;
  target_score = some score;
}

abbrev absent : ℕ → RoundSubmission
absent i = record {
  participant_id = i;
  status = missed;
  received_at_ms = none;
  target_score = none;
}

abbrev broken : ℕ → ℕ → RoundSubmission
broken i t = record {
  participant_id = i;
  status = failed;
  received_at_ms = some t;
  target_score = none;
}

abbrev four : List RoundSubmission
four = photo 1 2000 900 ∷ photo 2 1000 900 ∷ absent 3 ∷ broken 4 1500 ∷ []

four_scored : score_round four ≡ ok (outcome_of four)
four_scored = score_round_distinct four (refl, (refl, (refl, (refl, tt))))

four_counted : (outcome_of four).voided ≡ false
unfolding outcome_of is_voided_round
four_counted = refl

score_round-Covers_example : Covers four (score_round four)
score_round-Covers_example = score_round-Covers four

score_round-perm_example :
    score_round four
    ≡ score_round (photo 2 1000 900 ∷ photo 1 2000 900 ∷ absent 3 ∷ broken 4 1500 ∷ [])
score_round-perm_example =
    score_round-perm four _ (Perm.swap (photo 2 1000 900) (photo 1 2000 900) _)

score_round-Precedes_example :
    (order : List RoundSubmission) × Perm order (keep is_ranked four)
    × AllPairs Precedes order
    × (take (length order) (outcome_of four).results ≡ enumerate ranked_result 1 order)
score_round-Precedes_example = score_round-Precedes four (outcome_of four) four_scored four_counted

four-IsValid : All IsValid four
unfolding submission_check
four-IsValid = (refl, (refl, (refl, (refl, tt))))

score_round-IsOver_example : AllPairs IsOver (outcome_of four).results
score_round-IsOver_example =
    score_round-IsOver four (outcome_of four) four-IsValid four_scored four_counted

score_round-IsFair_example : All (IsFair (outcome_of four).voided) (outcome_of four).results
score_round-IsFair_example = score_round-IsFair four (outcome_of four) four_scored

-- `0.87654` as a float
abbrev probability : Float
probability = Float.decimal (pos 87654) 5

abbrev totals : ℕ → ℕ → ℕ → ParticipantTotals
totals i points likes = record {
  participant_id = i;
  joined_at = i * 100;
  total_points = points;
  best_round_score = 900;
  like_count = likes;
  question_count = 1;
}

abbrev three_totals : List ParticipantTotals
three_totals = totals 1 170 2 ∷ totals 2 170 3 ∷ totals 3 50 0 ∷ []

final_ranking-IsRanking_example : IsRanking three_totals (final_ranking three_totals)
final_ranking-IsRanking_example = final_ranking-IsRanking three_totals

most_loved-IsAward_example : IsAward three_totals (most_loved three_totals)
most_loved-IsAward_example = most_loved-IsAward three_totals

abbrev pub open_round_7 : Round
open_round_7 = record {
  id = 7;
  room_id = 1;
  index = 1;
  target_emotion = happy;
  status = RoundStatus.revealed;
  revealed_at = 1000;
  deadline_at = 14000;
  finalized_at = none;
  viewing_ends_at = none;
  closed_at = none;
}

-- A digest that shows the text it signs, in 32 places or more.
abbrev pub plain_digest : List ℕ → List ℕ → List ℕ
plain_digest secret text =
    text
    ++ secret
    ++ 65 ∷ 65 ∷ 65 ∷ 65 ∷ 65 ∷ 65 ∷ 65 ∷ 65 ∷ 65 ∷ 65 ∷ 65 ∷ 65 ∷ 65 ∷ 65 ∷ 65 ∷ 65 ∷ 65 ∷ 65 ∷ 65
      ∷ 65 ∷ 65 ∷ 65 ∷ 65 ∷ 65 ∷ 65 ∷ 65 ∷ []

abbrev pub token_of_1 : Option (List ℕ)
token_of_1 = some (capture_token plain_digest 7 1 14000 (83 ∷ []))

accept_submission-Attempt_example :
    Attempt plain_digest no_keys open_round_7 1 5000 token_of_1
      (83 ∷ [])
      (accept_submission plain_digest no_keys open_round_7 1 5000 token_of_1 (83 ∷ []))
accept_submission-Attempt_example =
    accept_submission-Attempt plain_digest no_keys open_round_7 1 5000 token_of_1 (83 ∷ [])
      no_keys-IsCoherent

-- Participant 1 has submitted, and waits for a score.
abbrev pub one_waiting : RoundKeys
one_waiting = record no_keys { submitted = (1, 5000) ∷ []; viewers = 1 ∷ []; tokens = 1 ∷ [] }

pub one_waiting-IsCoherent : IsCoherent one_waiting
one_waiting-IsCoherent = record {
  submitted_once = (refl, tt);
  scored_once = tt;
  viewing_once = (refl, tt);
  used = λ p. ground arith;
  audience = λ p. ground arith;
  settled = λ p h. cc;
}

abbrev pub member : ℕ → Participant
member i = record {
  id = i;
  room_id = 1;
  user_id = 100 + i;
  nickname = 65 ∷ 66 ∷ [];
  color_tag = i;
  status = ParticipantStatus.active;
  connection_status = ConnectionStatus.connected;
  disconnected_at = none;
  total_points = 0;
  best_round_score = 0;
  joined_at = i * 10;
}

abbrev pub pair : List Participant
pair = member 1 ∷ member 2 ∷ []

abbrev viewing_end_job : Job
viewing_end_job = record { kind = JobKind.round_viewing_end; target_id = 7 }

abbrev pub deadline_job : Job
deadline_job = record { kind = JobKind.round_deadline; target_id = 7 }

abbrev two_timers : Timers
two_timers = (viewing_end_job, 900) ∷ (deadline_job, 400) ∷ []

abbrev target_bytes : Job → List ℤ
target_bytes j = pos j.target_id ∷ []

abbrev three_ops : List Op
three_ops = Op.schedules deadline_job 400 ∷ Op.schedules viewing_end_job 900 ∷ Op.claims 500 10 ∷ []

perform_all-refines_example :
    (cal : Calendar) × Turns (λ _. none) three_ops (perform_all target_bytes [] three_ops).0 cal
    × Agree (perform_all target_bytes [] three_ops).1 cal
perform_all-refines_example = perform_all-refines target_bytes three_ops

pub no_keys-IsCounted : IsCounted no_keys
no_keys-IsCounted = (tt, none_counted)
  where
    none_counted :
        (s : ℕ) (kind : ReactionType)
        → or_else (lookup s (counter kind no_keys)) 0 ≡ tally s kind []
    none_counted s like = refl
    none_counted s question = refl

toggle_reaction-IsCounted_example : IsCounted (toggle_reaction no_keys 4 1 like).1
toggle_reaction-IsCounted_example = toggle_reaction-IsCounted no_keys 4 1 like no_keys-IsCounted
