-- ===== src/Domain/Inflight.antt =====
-- app/domain/round/service.py: the state of a round in flight, which lives in Redis until the round
-- is finalized.
pub mod Acceptance
pub mod Guard
pub mod Reading
use emoselfie_be.Prelude.{
  ℕ, ◌+◌, ◌-◌, ◌*◌, ◌/◌, min, Bool, true, false, not, ◌&&◌, ◌||◌, Option, none, some, List, [], ◌∷◌,
  ◌++◌, map, ltb, leb, ◌==◌, if◌then◌else◌, is_some, or_else, ℤ, pos, negsuc, neg, length, keep,
  nonempty, enumerate,
}
use emoselfie_be.Prelude.Sets.{has, add}
use emoselfie_be.Prelude.Dict.{Dict, lookup, insert, keys, has_key}
use emoselfie_be.Prelude.Sort.{sort_by}
use emoselfie_be.Core.Errors.{
  Error, app, value_error, Result, ok, err, ◌>>=◌, ◌>>◌, ensure, deadline_passed,
  invalid_capture_token, already_submitted,
}
use emoselfie_be.Core.Security.{verify_capture_token}
use emoselfie_be.Db.{Participant, Round}
use emoselfie_be.Domain.Enums.{
  SubmissionStatus, missed, RoundStatus, revealed, capturing, scoring, is_submitted, is_no_face,
}
use emoselfie_be.Domain.Keys.{Payload, failed_payload, RoundKeys}
use emoselfie_be.Domain.Scoring.{RoundSubmission, submission_check}

abbrev pub scoring_guard_sec : ℕ
scoring_guard_sec = 8

abbrev pub media_grace_sec : ℕ
media_grace_sec = 10

abbrev pub viewing_max_sec : ℕ
viewing_max_sec = 60

unfoldable pub viewing_seconds : ℕ → ℕ
viewing_seconds viewers = min viewing_max_sec (10 + viewers * 2)

-- The submission that one entry of `submitted` stands for.
unfoldable pub submission_of : Dict Payload → ℕ × ℕ → RoundSubmission
submission_of scored (raw_id, raw_time) =
    let payload = or_else (lookup raw_id scored) failed_payload in
    record {
      participant_id = raw_id;
      status = payload.status;
      received_at_ms = some raw_time;
      target_score = if is_submitted payload.status then payload.target_score else none;
    }

-- The loop body of `read_submissions` for that entry: the constructor checks it.
unfoldable pub read_one : Dict Payload → ℕ × ℕ → Result RoundSubmission
read_one scored e = submission_check (submission_of scored e) >> ok (submission_of scored e)

unfoldable pub read_received_submissions :
    Dict Payload → List (ℕ × ℕ) → Result (List RoundSubmission)
read_received_submissions scored [] = ok []
read_received_submissions scored (e ∷ es) = do
  s ← read_one scored e
  rest ← read_received_submissions scored es
  ok (s ∷ rest)

unfoldable pub missed_submission : Participant → RoundSubmission
missed_submission m = record {
  participant_id = m.id;
  status = missed;
  received_at_ms = none;
  target_score = none;
}

-- `details` of `read_submissions`: the payload of each participant who submitted.
unfoldable pub read_details : Dict Payload → List (ℕ × ℕ) → Dict Payload
read_details scored [] = []
read_details scored ((raw_id, _) ∷ es) =
    (raw_id, or_else (lookup raw_id scored) failed_payload) ∷ read_details scored es

unfoldable pub read_submissions : RoundKeys → List Participant → Result (List RoundSubmission)
read_submissions k active = do
  received ← read_received_submissions k.scores k.submitted
  ok (received ++ map missed_submission (keep (λ m. not (has m.id (keys k.submitted))) active))

module _ (digest : List ℕ → List ℕ → List ℕ) where
  -- Redis keeps what was written before a later step raises.
  unfoldable pub accept_submission :
      RoundKeys → Round → ℕ → ℕ → Option (List ℕ) → List ℕ → Result (Unit {0}) × RoundKeys
  unfolding verify_capture_token
  accept_submission k current participant_id received_at_ms token secret =
      let deadline_ms = current.deadline_at in
      let marked = record k { tokens = add participant_id k.tokens } in
      if leb deadline_ms received_at_ms
      then (err (app deadline_passed), k)
      else if not (verify_capture_token digest token current.id participant_id deadline_ms secret)
      then (err (app invalid_capture_token), k)
      else if has participant_id k.tokens
      then (err (app invalid_capture_token), k)
      else if has_key participant_id k.submitted
      then (err (app already_submitted), marked)
      else (
        ok tt,
        record marked {
          submitted = insert participant_id received_at_ms k.submitted;
          viewers = add participant_id k.viewers;
        },
      )

unfoldable pub record_score : RoundKeys → ℕ → Payload → RoundKeys
record_score k participant_id payload = record k { scores = insert participant_id payload k.scores }

unfoldable pub media_expiry_ms : Round → ℕ
media_expiry_ms current =
    current.deadline_at + (scoring_guard_sec + viewing_max_sec + media_grace_sec) * 1000

abbrev pub resolved_count : RoundKeys → ℕ
resolved_count k = length (keys k.scores)

abbrev pub submitted_count : RoundKeys → ℕ
submitted_count k = length (keys k.submitted)

abbrev pub viewer_ids : RoundKeys → List ℕ
viewer_ids k = k.viewers

-- `float(scores[participant_id].get("targetScore") or 0.0)`
abbrev pub shown_score : Dict Payload → ℕ → ℕ
shown_score scores p = elim (lookup p scores) [ none ↦ 0 | some x ↦ or_else x.target_score 0 ]

abbrev pub is_settled_rank : ℕ × Payload → Bool
is_settled_rank (_, payload) = is_submitted payload.status || is_no_face payload.status

unfoldable pub display_key : Dict ℕ → Dict Payload → ℕ → List ℤ
display_key received scores p =
    neg (shown_score scores p) ∷ pos (or_else (lookup p received) 0) ∷ pos p ∷ []

-- `ranked` in `display_ranks`
unfoldable pub display_order : Dict ℕ → Dict Payload → List ℕ
unfolding sort_by display_key
display_order received scores =
    sort_by (display_key received scores) (keys (keep is_settled_rank scores))

-- The loop that writes positions, counted from `n`, over the initial `None`s.
unfoldable pub place : ℕ → List ℕ → Dict (Option ℕ) → Dict (Option ℕ)
place n [] ranks = ranks
place n (p ∷ ps) ranks = place (n + 1) ps (insert p (some n) ranks)

abbrev pub unplaced : ℕ × Payload → ℕ × Option ℕ
unplaced (p, _) = (p, none)

unfoldable pub display_ranks : Dict ℕ → Dict Payload → Dict (Option ℕ)
unfolding place display_order
display_ranks received scores = place 1 (display_order received scores) (map unplaced scores)

-- `received - resolved`, a Python int.
unfoldable pub pending_inference : RoundKeys → ℤ
pending_inference k =
    if leb (resolved_count k) (submitted_count k)
    then pos (submitted_count k - resolved_count k)
    else negsuc (resolved_count k - submitted_count k - 1)

abbrev pub stranded : RoundKeys → List ℕ
stranded k = keep (λ p. not (has p (keys k.scores))) (keys k.submitted)

-- `hset(..., mapping={key: failed for key in stranded})`
unfoldable pub fail_all : List ℕ → Dict Payload → Dict Payload
fail_all [] scores = scores
fail_all (p ∷ ps) scores = fail_all ps (insert p failed_payload scores)

unfoldable pub force_pending_failed : RoundKeys → ℕ × RoundKeys
unfolding fail_all
force_pending_failed k = (length (stranded k), record k { scores = fail_all (stranded k) k.scores })

abbrev pub in_open_statuses : RoundStatus → Bool
in_open_statuses s = elim s [ revealed ↦ true | capturing ↦ true | _ ↦ false ]

unfoldable pub close_submissions : Round → Bool × Round
close_submissions current =
    if in_open_statuses current.status
    then (true, record current { status = scoring })
    else (false, current)
