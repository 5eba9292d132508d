-- ===== src/Domain/Scoring.antt =====
-- app/domain/scoring/service.py: the scores, ranks and points of a round, and the final ranking.
-- A score is a `Decimal` with one decimal place, modelled as a number of tenths: 100.0 is 1000.
-- A time is a number of milliseconds.
pub mod Totals
pub mod Rounding
pub mod Population
pub mod Ranking
pub mod Points
pub mod Game
use emoselfie_be.Prelude.{
  ℕ, ◌+◌, ◌*◌, ◌/◌, ◌^◌, Bool, true, false, not, ◌&&◌, ◌||◌, Option, none, some, List, [], ◌∷◌,
  ◌++◌, map, leb, ◌==◌, if◌then◌else◌, is_some, or_else, ℤ, pos, negsuc, neg, length, keep, all,
  nonempty, enumerate,
}
use emoselfie_be.Prelude.Sets.{set_of}
use emoselfie_be.Prelude.Sort.{sort_by}
use emoselfie_be.Core.Errors.{value_error, Result, ok, err, ◌>>◌, ensure}
use emoselfie_be.Domain.Enums.{SubmissionStatus, is_submitted, is_no_face, is_failed, is_missed}

abbrev pub default_points : ℕ
default_points = 30

-- `RANK_POINTS.get(rank, DEFAULT_POINTS)`
unfoldable pub points_for_rank : ℕ → ℕ
points_for_rank rank =
    if rank == 1 then 100 else if rank == 2 then 70 else if rank == 3 then 50 else default_points

abbrev pub in_submitted_statuses : SubmissionStatus → Bool
in_submitted_statuses s = not (is_missed s)

abbrev pub in_ranked_statuses : SubmissionStatus → Bool
in_ranked_statuses s = is_submitted s || is_no_face s

-- `value.quantize(step, rounding=ROUND_HALF_UP)` of `n / d`, which counts steps.
unfoldable pub round_half_up : ℕ → ℕ → ℕ
round_half_up n d = (2 * n + d) / (2 * d)

-- A Python float by its shortest decimal `str`: `digits / 10 ^ places`, or no number at all.
pub data Float : Type 0 where
  not_finite : Float
  decimal : (digits : ℤ) (places : ℕ) → Float

unfoldable pub target_score : Float → Result ℕ
unfolding round_half_up
target_score not_finite = err value_error
target_score (decimal (negsuc _) places) = err value_error
target_score (decimal (pos n) places) =
    if leb n (10 ^ places) then ok (round_half_up (n * 1000) (10 ^ places)) else err value_error

pub record RoundSubmission : Type 0 where
  pub participant_id : ℕ
  pub status : SubmissionStatus
  pub received_at_ms : Option ℕ
  pub target_score : Option ℕ

-- `__post_init__`: the constructor raises on what it refuses.
unfoldable pub submission_check : RoundSubmission → Result (Unit {0})
submission_check s = do
  ensure (if is_missed s.status then not (is_some s.received_at_ms) else is_some s.received_at_ms)
      value_error
  ensure (if is_submitted s.status then is_some s.target_score else not (is_some s.target_score))
      value_error
  ensure (leb (or_else s.target_score 0) 1000) value_error

pub record ScoredSubmission : Type 0 where
  pub participant_id : ℕ
  pub status : SubmissionStatus
  pub rank : Option ℕ
  pub rank_points : ℕ
  pub target_score : Option ℕ

pub record RoundOutcome : Type 0 where
  pub voided : Bool
  pub results : List ScoredSubmission

-- `_order_key`
unfoldable pub order_key : RoundSubmission → List ℤ
order_key s =
    neg (or_else s.target_score 0) ∷ pos (or_else s.received_at_ms 0) ∷ pos s.participant_id ∷ []

abbrev pub id_key : RoundSubmission → List ℤ
id_key s = pos s.participant_id ∷ []

-- `_final_score`
unfoldable pub final_score : RoundSubmission → Option ℕ
final_score s = if is_no_face s.status then some 0 else s.target_score

unfoldable pub voided_result : RoundSubmission → ScoredSubmission
unfolding final_score
voided_result s = record {
  participant_id = s.participant_id;
  status = s.status;
  rank = none;
  rank_points = 0;
  target_score = final_score s;
}

unfoldable pub ranked_result : ℕ → RoundSubmission → ScoredSubmission
unfolding final_score points_for_rank
ranked_result rank s = record {
  participant_id = s.participant_id;
  status = s.status;
  rank = some rank;
  rank_points = if is_no_face s.status then default_points else points_for_rank rank;
  target_score = final_score s;
}

unfoldable pub unranked_result : ℕ → RoundSubmission → ScoredSubmission
unranked_result compensation s = record {
  participant_id = s.participant_id;
  status = s.status;
  rank = none;
  rank_points = if is_failed s.status then compensation else 0;
  target_score = none;
}

abbrev pub is_ranked : RoundSubmission → Bool
is_ranked s = in_ranked_statuses s.status

abbrev pub is_unranked : RoundSubmission → Bool
is_unranked s = not (in_ranked_statuses s.status)

-- `voided` in `score_round`: somebody submitted, and every submitter failed.
unfoldable pub is_voided_round : List RoundSubmission → Bool
is_voided_round ss =
    let submitters = keep (λ s. in_submitted_statuses s.status) ss in
    nonempty submitters && all (λ s. is_failed s.status) submitters

unfoldable pub sum_points : List ScoredSubmission → ℕ
sum_points [] = 0
sum_points (r ∷ rs) = r.rank_points + sum_points rs

-- The points of a submission that the engine failed on: the mean of those awarded.
unfoldable pub compensation_for : List ScoredSubmission → ℕ
unfolding round_half_up sum_points
compensation_for results =
    if nonempty results then round_half_up (sum_points results) (length results) else default_points

unfoldable pub ranked_results : List RoundSubmission → List ScoredSubmission
unfolding sort_by order_key ranked_result
ranked_results ss = enumerate ranked_result 1 (sort_by order_key (keep is_ranked ss))

unfoldable pub unranked_results : ℕ → List RoundSubmission → List ScoredSubmission
unfolding sort_by unranked_result
unranked_results compensation ss =
    map (unranked_result compensation) (sort_by id_key (keep is_unranked ss))

-- The outcome once the participants are known to be all different.
unfoldable pub outcome_of : List RoundSubmission → RoundOutcome
unfolding is_voided_round voided_result ranked_results unranked_results compensation_for sort_by
outcome_of ss =
    if is_voided_round ss
    then record { voided = true; results = map voided_result (sort_by id_key ss) }
    else record {
      voided = false;
      results = ranked_results ss ++ unranked_results (compensation_for (ranked_results ss)) ss;
    }

abbrev pub ids : List RoundSubmission → List ℕ
ids = map (λ s. s.participant_id)

unfoldable pub score_round : List RoundSubmission → Result RoundOutcome
unfolding outcome_of
score_round ss = do ensure (length (set_of (ids ss)) == length ss) value_error; ok (outcome_of ss)
