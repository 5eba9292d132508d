-- ===== src/Api/Submissions.antt =====
-- app/api/submissions.py: the transaction of `submit`, which accepts an upload before its body is
-- read. Redis keeps what it was told even where the transaction of the database is rolled back. The
-- route takes no row lock: what it reads of the room and what it writes are one step here.
use emoselfie_be.Prelude.{
  ℕ, ◌+◌, Bool, false, ◌&&◌, Option, none, some, List, [], ◌∷◌, ◌++◌, ◌==◌, if◌then◌else◌,
}
use emoselfie_be.Core.Errors.{
  Result, ok, err, app, ensure, ◌>>=◌, ◌>>◌, database_error, not_current_round, deadline_passed,
}
use emoselfie_be.Db.{Room, Participant, Round, Submission}
use emoselfie_be.Domain.Enums.{is_playing, failed}
use emoselfie_be.Domain.Keys.{RoundKeys}
use emoselfie_be.Domain.Store.{Store, get_round}
use emoselfie_be.Domain.Inflight.{accept_submission, in_open_statuses}
use emoselfie_be.Domain.Lobby.{current_participant}
use emoselfie_be.Api.Rooms.{get_room}

-- `create_submission_row` of app/domain/round/service.py
abbrev pub accepted_row : ℕ → ℕ → ℕ → ℕ → Submission
accepted_row i round_id participant_id received_at_ms = record {
  id = i;
  round_id = round_id;
  participant_id = participant_id;
  status = failed;
  received_at = some received_at_ms;
  target_score = none;
  top_emotions = none;
  rank = none;
  rank_points = 0;
  like_count = 0;
  question_count = 0;
}

unfoldable pub create_submission_row : Store → ℕ → ℕ → ℕ → ℕ × Store
create_submission_row st round_id participant_id received_at_ms = (
  st.next_id,
  record st {
    submissions =
        st.submissions ++ accepted_row st.next_id round_id participant_id received_at_ms ∷ [];
    next_id = st.next_id + 1;
  },
)

abbrev pub is_current : Room → Round → Bool
is_current room current =
    (current.room_id == room.id)
    && (is_playing room.status
        && (elim room.current_round_id [ none ↦ false | some i ↦ i == current.id ]))

-- The check of the round that `submit` names.
abbrev pub current_round : Room → Option Round → Result Round
current_round room none = err (app not_current_round)
current_round room (some current) =
    if is_current room current then ok current else err (app not_current_round)

-- The guards of `submit`, up to the call of `accept_submission`.
unfoldable pub admit_upload : Store → ℕ → ℕ → ℕ → Result (Participant × Round)
unfolding get_room current_participant
admit_upload st slug user_id round_id = do
  room ← get_room st slug
  participant ← current_participant st user_id
  current ← current_round room (get_round round_id st)
  ensure (in_open_statuses current.status) (app deadline_passed)
  ok (participant, current)

module _ (digest : List ℕ → List ℕ → List ℕ) where
  -- `accept_submission` and then the row, in the transaction; `commits` says whether the insert and
  -- the commit go through.
  unfoldable pub take_upload :
      Store
      → RoundKeys
      → Participant
      → Round
      → ℕ
      → Option (List ℕ)
      → List ℕ
      → Bool
      → Result (ℕ × Store) × RoundKeys
  unfolding accept_submission create_submission_row
  take_upload st k participant current received_at_ms token secret commits =
      let (r, k') = accept_submission digest k current participant.id received_at_ms token secret in
      (
        (r
            >> (if commits
                then ok (create_submission_row st current.id participant.id received_at_ms)
                else err database_error)),
        k',
      )

  unfoldable pub submit :
      Store
      → RoundKeys
      → ℕ
      → ℕ
      → ℕ
      → ℕ
      → Option (List ℕ)
      → List ℕ
      → Bool
      → Result (ℕ × Store) × RoundKeys
  unfolding admit_upload take_upload
  submit st k slug user_id round_id received_at_ms token secret commits =
      elim (admit_upload st slug user_id round_id) [
        | err e ↦ (err e, k)
        | ok (participant, current) ↦
            take_upload st k participant current received_at_ms token secret commits
      ]
