-- ===== src/Domain/Settlement.antt =====
-- app/domain/round/service.py: `finalize_round`, which settles a round in one transaction.
pub mod Credit
pub mod Total
pub mod Members
pub mod Rows
pub mod Notes
use emoselfie_be.Prelude.{
  ℕ, ◌+◌, ◌*◌, Bool, true, false, not, ◌&&◌, ◌||◌, Option, none, some, List, [], ◌∷◌, ◌++◌, map,
  ltb, ◌==◌, if◌then◌else◌, is_some, or_else, length, keep, nonempty,
}
use emoselfie_be.Prelude.Dict.{Dict, lookup, insert}
use emoselfie_be.Core.Errors.{Result, ok, err, ◌>>=◌}
use emoselfie_be.Db.{Room, Participant, Round, Submission, find}
use emoselfie_be.Domain.Enums.{SubmissionStatus, RoundStatus, failed, finalized, voided, is_missed}
use emoselfie_be.Domain.Keys.{Payload, RoundKeys}
use emoselfie_be.Domain.Store.{
  Store, put_member, put_round, put_submission, get_member, is_active_member, active_participants,
}
use emoselfie_be.Domain.Scoring.{RoundSubmission, ScoredSubmission, RoundOutcome, score_round}
use emoselfie_be.Domain.Scoring.Totals.{ParticipantTotals, accumulate}
use emoselfie_be.Domain.Inflight.{read_submissions, read_details, viewing_seconds}

-- `_received_at`: a receive time of 0 counts as none.
unfoldable pub received_at : List RoundSubmission → ScoredSubmission → Option ℕ
received_at [] r = none
received_at (s ∷ ss) r =
    if (s.participant_id == r.participant_id) && ltb 0 (or_else s.received_at_ms 0)
    then s.received_at_ms
    else received_at ss r

-- The totals that `finalize_round` hands to `accumulate`: reactions stay out of it.
abbrev pub totals_of : Participant → ParticipantTotals
totals_of m = record {
  participant_id = m.id;
  joined_at = m.joined_at;
  total_points = m.total_points;
  best_round_score = m.best_round_score;
  like_count = 0;
  question_count = 0;
}

unfoldable pub credit : Participant → ScoredSubmission → Result Participant
credit m r = do
  updated ← accumulate (totals_of m) r
  ok (record m { total_points = updated.total_points; best_round_score = updated.best_round_score })

-- `Submission(round_id=..., participant_id=...)` with the columns' defaults, and a new id.
abbrev pub new_row : ℕ → ℕ → ℕ → Submission
new_row i round_id participant_id = record {
  id = i;
  round_id = round_id;
  participant_id = participant_id;
  status = failed;
  received_at = none;
  target_score = none;
  top_emotions = none;
  rank = none;
  rank_points = 0;
  like_count = 0;
  question_count = 0;
}

unfoldable pub settled_row :
    Dict Payload → List RoundSubmission → ScoredSubmission → Submission → Submission
unfolding received_at
settled_row details submissions r row = record row {
  status = r.status;
  received_at = received_at submissions r;
  target_score = r.target_score;
  top_emotions = elim (lookup r.participant_id details) [ none ↦ none | some p ↦ p.top_emotions ];
  rank = r.rank;
  rank_points = r.rank_points;
}

-- What the loop of `finalize_round` changes.
pub record Ledger : Type 0 where
  pub members : List Participant
  pub submissions : List Submission
  pub next_id : ℕ
  pub rows : Dict ℕ
  pub totals : Dict ℕ

abbrev pub is_row_of : ℕ → ℕ → Submission → Bool
is_row_of round_id participant_id s =
    (s.round_id == round_id) && (s.participant_id == participant_id)

-- The row is settled: an accepted upload owns one already, any other gets a new one.
unfoldable pub settle_row :
    ℕ → Dict Payload → List RoundSubmission → ScoredSubmission → Ledger → Ledger
unfolding settled_row
settle_row round_id details submissions r g =
    elim (find (is_row_of round_id r.participant_id) g.submissions) [
      | some row ↦ record g {
        submissions = put_submission (settled_row details submissions r row) g.submissions;
        rows = insert r.participant_id row.id g.rows;
      }
      | none ↦ record g {
        submissions =
            g.submissions
            ++ settled_row details submissions r (new_row g.next_id round_id r.participant_id) ∷ [];
        next_id = g.next_id + 1;
        rows = insert r.participant_id g.next_id g.rows;
      }
    ]

abbrev pub is_active_id : ℕ → Participant → Bool
is_active_id i m = is_active_member m && (m.id == i)

-- Points are credited in a round that counts, and the total is noted either way.
unfoldable pub settle_points : Bool → ScoredSubmission → Participant → Ledger → Result Ledger
settle_points is_void r m g =
    if is_void
    then ok (record g { totals = insert r.participant_id m.total_points g.totals })
    else (credit m r >>= λ m'. ok (record g {
      members = put_member m' g.members;
      totals = insert r.participant_id m'.total_points g.totals;
    }))

-- The loop body of `finalize_round`: a participant who left keeps no place in the ledger.
unfoldable pub settle_one :
    ℕ → Dict Payload → List RoundSubmission → Bool → ScoredSubmission → Ledger → Result Ledger
settle_one round_id details submissions is_void r g =
    elim (find (is_active_id r.participant_id) g.members) [
      | none ↦ ok g
      | some m ↦ settle_points is_void r m (settle_row round_id details submissions r g)
    ]

unfoldable pub settle_all :
    ℕ → Dict Payload → List RoundSubmission → Bool → List ScoredSubmission → Ledger → Result Ledger
settle_all round_id details submissions is_void [] g = ok g
settle_all round_id details submissions is_void (r ∷ rs) g =
    settle_one round_id details submissions is_void r g
    >>= settle_all round_id details submissions is_void rs

pub record Finalized : Type 0 where
  pub outcome : RoundOutcome
  pub rows : Dict ℕ
  pub totals : Dict ℕ
  pub viewers : List ℕ
  pub missed : List ℕ
  pub viewing_ends_at_ms : Option ℕ

unfoldable pub viewers_of : RoundOutcome → List ℕ
viewers_of o =
    map (λ r. r.participant_id)
      (keep (λ (r : ScoredSubmission). not (is_missed r.status)) o.results)

unfoldable pub missed_of : RoundOutcome → List ℕ
missed_of o =
    map (λ r. r.participant_id) (keep (λ (r : ScoredSubmission). is_missed r.status) o.results)

-- Nobody views a voided round, or one that nobody submitted to.
unfoldable pub viewing_end : RoundOutcome → ℕ → Option ℕ
unfolding viewers_of viewing_seconds
viewing_end o now =
    if o.voided
    then none
    else if nonempty (viewers_of o)
    then some (now + viewing_seconds (length (viewers_of o)) * 1000)
    else none

unfoldable pub finalized_status : RoundOutcome → Round → ℕ → Round
unfolding viewing_end
finalized_status o current now = record current {
  finalized_at = some now;
  status = if o.voided then voided else finalized;
  viewing_ends_at = elim (viewing_end o now) [ none ↦ current.viewing_ends_at | some t ↦ some t ];
}

unfoldable pub finalized_room : RoundOutcome → Room → ℕ → Room
finalized_room o room now = record room {
  consecutive_voided = if o.voided then room.consecutive_voided + 1 else 0;
  last_active_at = now;
}

abbrev pub ledger_of : Store → Ledger
ledger_of st = record {
  members = st.members;
  submissions = st.submissions;
  next_id = st.next_id;
  rows = [];
  totals = [];
}

-- What `finalize_round` returns, and the rows that it leaves.
unfoldable pub report_of : RoundOutcome → Ledger → ℕ → Finalized
unfolding viewers_of missed_of viewing_end
report_of o g now = record {
  outcome = o;
  rows = g.rows;
  totals = g.totals;
  viewers = viewers_of o;
  missed = missed_of o;
  viewing_ends_at_ms = viewing_end o now;
}

unfoldable pub settled_store : Store → RoundOutcome → Ledger → Round → ℕ → Store
unfolding finalized_status finalized_room
settled_store st o g current now = record st {
  room = finalized_room o st.room now;
  members = g.members;
  submissions = g.submissions;
  next_id = g.next_id;
  rounds = put_round (finalized_status o current now) st.rounds;
}

unfoldable pub finalize_round : Store → RoundKeys → Round → ℕ → Result (Finalized × Store)
finalize_round st k current now = do
  submissions ← read_submissions k (active_participants st.members)
  outcome ← score_round submissions
  let details = read_details k.scores k.submitted
  g ← settle_all current.id details submissions outcome.voided outcome.results (ledger_of st)
  ok (report_of outcome g now, settled_store st outcome g current now)
