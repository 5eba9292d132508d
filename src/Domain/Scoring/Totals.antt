-- ===== src/Domain/Scoring/Totals.antt =====
-- app/domain/scoring/service.py: the totals of a game, the final ranking and the most loved.
use emoselfie_be.Prelude.{
  ℕ, ◌+◌, max, Bool, Option, none, some, List, [], ◌∷◌, map, ltb, leb, ◌==◌, or_else, ℤ, pos, neg,
  length, keep, enumerate,
}
use emoselfie_be.Prelude.Sets.{set_of}
use emoselfie_be.Prelude.Sort.{sort_by, min_by}
use emoselfie_be.Core.Errors.{value_error, Result, ok, ◌>>◌, ensure}
use emoselfie_be.Domain.Scoring.{ScoredSubmission}

pub record ParticipantTotals : Type 0 where
  pub participant_id : ℕ
  pub joined_at : ℕ
  pub total_points : ℕ
  pub best_round_score : ℕ
  pub like_count : ℕ
  pub question_count : ℕ

-- `ParticipantTotals.__post_init__`; that no count is negative, the type says.
unfoldable pub totals_check : ParticipantTotals → Result (Unit {0})
totals_check t = ensure (leb t.best_round_score 1000) value_error

unfoldable pub accumulate : ParticipantTotals → ScoredSubmission → Result ParticipantTotals
unfolding totals_check
accumulate t r = do
  ensure (t.participant_id == r.participant_id) value_error
  let t' = record t {
    total_points = t.total_points + r.rank_points;
    best_round_score = max t.best_round_score (or_else r.target_score 0);
  }
  totals_check t'
  ok t'

pub record FinalRank : Type 0 where
  pub rank : ℕ
  pub participant_id : ℕ
  pub total_points : ℕ

pub record MostLoved : Type 0 where
  pub participant_id : ℕ
  pub like_count : ℕ

unfoldable pub final_key : ParticipantTotals → List ℤ
final_key t =
    neg t.total_points ∷ neg t.best_round_score ∷ pos t.joined_at ∷ pos t.participant_id ∷ []

abbrev pub final_rank : ℕ → ParticipantTotals → FinalRank
final_rank rank t = record {
  rank = rank;
  participant_id = t.participant_id;
  total_points = t.total_points;
}

abbrev pub totals_ids : List ParticipantTotals → List ℕ
totals_ids = map (λ t. t.participant_id)

unfoldable pub final_ranking : List ParticipantTotals → Result (List FinalRank)
unfolding sort_by final_key
final_ranking ts = do
  ensure (length (set_of (totals_ids ts)) == length ts) value_error
  ok (enumerate final_rank 1 (sort_by final_key ts))

unfoldable pub loved_key : ParticipantTotals → List ℤ
loved_key t = neg t.like_count ∷ pos t.question_count ∷ pos t.joined_at ∷ pos t.participant_id ∷ []

abbrev pub award : ParticipantTotals → MostLoved
award t = record { participant_id = t.participant_id; like_count = t.like_count }

abbrev pub is_loved : ParticipantTotals → Bool
is_loved t = ltb 0 t.like_count

unfoldable pub most_loved : List ParticipantTotals → Option MostLoved
unfolding min_by loved_key
most_loved ts = elim (keep is_loved ts) [
  | [] ↦ none
  | t ∷ rest ↦ some (award (min_by loved_key t rest))
]
