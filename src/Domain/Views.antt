-- ===== src/Domain/Views.antt =====
-- app/domain/round/service.py: what viewers are told of a round, when it is settled and when it is
-- closed.
pub mod Replay
use emoselfie_be.Prelude.{
  ℕ, Bool, Option, none, some, List, [], ◌∷◌, map, ◌==◌, if◌then◌else◌, or_else, ℤ, pos, keep,
}
use emoselfie_be.Prelude.Sort.{sort_by}
use emoselfie_be.Prelude.Dict.{Dict, lookup, insert}
use emoselfie_be.Db.{Participant, Round, Submission}
use emoselfie_be.Domain.Enums.{SubmissionStatus}
use emoselfie_be.Domain.Store.{Store, get_member}
use emoselfie_be.Domain.Scoring.{ScoredSubmission}
use emoselfie_be.Domain.Settlement.{Finalized}

pub record FinalizedResult : Type 0 where
  pub participant_id : ℕ
  pub rank : Option ℕ
  pub target_score : Option ℕ
  pub rank_points : ℕ
  pub total_points : ℕ
  pub status : SubmissionStatus

pub record FinalizedView : Type 0 where
  pub round_id : ℕ
  pub results : List FinalizedResult
  pub viewing_ends_at_ms : Option ℕ

abbrev pub finalized_result : Dict ℕ → ScoredSubmission → FinalizedResult
finalized_result totals r = record {
  participant_id = r.participant_id;
  rank = r.rank;
  target_score = r.target_score;
  rank_points = r.rank_points;
  total_points = or_else (lookup r.participant_id totals) 0;
  status = r.status;
}

unfoldable pub finalized_view : Round → Finalized → FinalizedView
finalized_view current f = record {
  round_id = current.id;
  results = map (finalized_result f.totals) f.outcome.results;
  viewing_ends_at_ms = f.viewing_ends_at_ms;
}

pub record ClosedResult : Type 0 where
  pub participant_id : ℕ
  pub rank_points : ℕ
  pub total_points : ℕ

pub record ClosedView : Type 0 where
  pub round_id : ℕ
  -- a submission with its likes and questions
  pub reactions : Dict (ℕ × ℕ)
  pub results : List ClosedResult
  pub next_round_at_ms : ℕ

abbrev pub closed_result : Dict ℕ → ScoredSubmission → ClosedResult
closed_result totals r = record {
  participant_id = r.participant_id;
  rank_points = r.rank_points;
  total_points = or_else (lookup r.participant_id totals) 0;
}

abbrev pub submission_key : ℕ × (ℕ × ℕ) → List ℤ
submission_key (i, n) = pos i ∷ []

unfoldable pub closed_view :
    Round → Dict ℕ → Dict (ℕ × ℕ) → Dict ℕ → List ScoredSubmission → ℕ → ClosedView
unfolding sort_by
closed_view current totals reactions rows results next_round_at_ms = record {
  round_id = current.id;
  reactions = sort_by submission_key reactions;
  results = map (closed_result totals) results;
  next_round_at_ms = next_round_at_ms;
}

abbrev pub scored_row : Submission → ScoredSubmission
scored_row row = record {
  participant_id = row.participant_id;
  status = row.status;
  rank = row.rank;
  rank_points = row.rank_points;
  target_score = row.target_score;
}

abbrev pub total_of : List Participant → ℕ → ℕ
total_of members i = elim (get_member i members) [ none ↦ 0 | some m ↦ m.total_points ]

-- The loop of `settled_results` that notes the total of each row's participant.
abbrev pub totals_from : List Participant → List Submission → Dict ℕ → Dict ℕ
totals_from members [] totals = totals
totals_from members (row ∷ rows) totals =
    totals_from members rows
      (insert row.participant_id (total_of members row.participant_id) totals)

abbrev pub rows_from : List Submission → Dict ℕ → Dict ℕ
rows_from [] ids = ids
rows_from (row ∷ rows) ids = rows_from rows (insert row.participant_id row.id ids)

-- `settled_results`: the results of a round, with the totals and the rows of their participants.
unfoldable pub settled_results : Store → ℕ → List ScoredSubmission × Dict ℕ × Dict ℕ
settled_results st round_id =
    let rows = keep (λ (s : Submission). s.round_id == round_id) st.submissions in
    (map scored_row rows, totals_from st.members rows [], rows_from rows [])
