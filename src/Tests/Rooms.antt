-- ===== src/Tests/Rooms.antt =====
-- Concrete runs of a room: settling a round, handling a timer, and joining.
use emoselfie_be.Prelude.{
  ℕ, ◌+◌, ◌*◌, ◌≡◌, refl, Bool, true, none, some, List, [], ◌∷◌, arith, if◌then◌else◌, ◌==◌,
  Bool-cases, inl, inr,
}
use emoselfie_be.Core.Errors.{ok}
use emoselfie_be.Db.{Room, Participant, Round}
use emoselfie_be.Domain.Enums.{submitted, happy, sad, RoomStatus}
use emoselfie_be.Domain.Keys.{RoundKeys, no_keys}
use emoselfie_be.Domain.Store.{Store, put_round}
use emoselfie_be.Domain.Settlement.{Finalized, finalize_round, finalized_status}
use emoselfie_be.Domain.Settlement.Credit.{points_at, earned, is_active_in}
use emoselfie_be.Domain.Settlement.Total.{IsReady, finalize_round-ok, finalize_round-credits}
use emoselfie_be.Domain.Scheduler.{JobKind}
use emoselfie_be.Domain.Inflight.{
  close_submissions, read_submissions, read_received_submissions, read_one, submission_of,
  pending_inference, scoring_guard_sec,
}
use emoselfie_be.Domain.Inflight.Acceptance.{IsCoherent, no_keys-IsCoherent}
use emoselfie_be.Domain.Scoring.{submission_check}
use emoselfie_be.Domain.Lifecycle.{World, load, handle, close_entry, arm, job}
use emoselfie_be.Domain.Lifecycle.Progress.{IsForward}
use emoselfie_be.Domain.Lifecycle.Monotone.{rounds_of, handle-IsForward}
use emoselfie_be.Domain.Game.{require_open}
use emoselfie_be.Domain.Lobby.{join_room, normalize_nickname, is_occupying}
use emoselfie_be.Domain.Lobby.Joining.{HasSeats, join_room-HasSeats, join_room-ok}
use emoselfie_be.Api.Submissions.{submit}
use emoselfie_be.Api.Uploads.{Agrees, submit-HasRows}
use emoselfie_be.Tests.{plain_digest, token_of_1, pair, one_waiting, open_round_7, deadline_job}

abbrev pub room_1 : Room
room_1 = record {
  id = 1;
  invite_slug = 5;
  host_user_id = 101;
  status = RoomStatus.playing;
  round_count = 2;
  time_limit_sec = 10;
  emotion_sequence = happy ∷ sad ∷ [];
  current_round_id = some 7;
  consecutive_voided = 0;
  last_active_at = 1000;
}

abbrev pub store_1 : Store
store_1 = record {
  room = room_1;
  members = pair;
  rounds = open_round_7 ∷ [];
  submissions = [];
  reactions = [];
  round_skips = [];
  next_id = 8;
}

abbrev pub scoring_round : Round
scoring_round = (close_submissions open_round_7).1

-- Participant 1 has a score of 87.6, and participant 2 missed.
abbrev pub scored_keys : RoundKeys
scored_keys = record one_waiting {
  scores = (1, record { status = submitted; target_score = some 876; top_emotions = none }) ∷ [];
}

scored_keys-IsCoherent : IsCoherent scored_keys
scored_keys-IsCoherent = record {
  submitted_once = (refl, tt);
  scored_once = (refl, tt);
  viewing_once = (refl, tt);
  used = λ p. ground arith;
  audience = λ p. ground arith;
  settled = λ p h. ground arith;
}

pub store_1-IsReady : IsReady store_1 scored_keys
store_1-IsReady = record {
  coherent = scored_keys-IsCoherent;
  payloads = λ q. elim (Bool-cases (q == 1)) [
    | inl y ↦ rw y (refl, (λ e. refl), omega arith)
    | inr n ↦ rw n tt
  ];
  once = (refl, (refl, tt));
  best = (omega arith, (omega arith, tt));
}

abbrev pub settled :
    (f : Finalized) × (st' : Store) × (finalize_round store_1 scored_keys scoring_round 20000
      ≡ ok (f, st'))
settled = finalize_round-ok store_1 scored_keys scoring_round 20000 store_1-IsReady

finalize_round-credits_example :
    ((i : ℕ)
      → is_active_in i store_1.members ≡ true
      → points_at i settled.1.members
        ≡ points_at i store_1.members
          + (if settled.0.outcome.voided then 0 else earned i settled.0.outcome.results))
    × (settled.1.rounds
        ≡ put_round (finalized_status settled.0.outcome scoring_round 20000) store_1.rounds)
    × (settled.1.room.consecutive_voided
        ≡ (if settled.0.outcome.voided then store_1.room.consecutive_voided + 1 else 0))
finalize_round-credits_example =
    finalize_round-credits store_1 settled.1 scored_keys scoring_round 20000 settled.0 settled.2

abbrev pub world_1 : World
world_1 = record {
  store = store_1;
  keys = (7, one_waiting) ∷ [];
  timers = (deadline_job, 14000) ∷ [];
}

-- The world after the deadline: the round is scoring, and the guard is armed.
abbrev pub world_2 : World
world_2 =
    arm (job JobKind.round_scoring_guard 7) (14000 + scoring_guard_sec * 1000) (record world_1 {
      store = record store_1 { rounds = put_round scoring_round store_1.rounds };
    })

deadline_run : handle world_1 deadline_job 5 14000 ≡ ok world_2
unfolding handle close_entry load close_submissions read_submissions read_received_submissions
    read_one submission_check submission_of pending_inference
deadline_run = refl

handle-IsForward_example : IsForward (rounds_of world_1) (rounds_of world_2)
handle-IsForward_example = handle-IsForward world_1 world_2 deadline_job 5 14000 deadline_run

abbrev nickname_ab : List ℕ
nickname_ab = 97 ∷ 98 ∷ []

abbrev unchanged : List ℕ → List ℕ
unchanged text = text

abbrev is_letter : ℕ → Bool
is_letter c = true

nickname_run : normalize_nickname unchanged is_letter nickname_ab ≡ ok nickname_ab
unfolding normalize_nickname
nickname_run = refl

opened_run : require_open room_1 ≡ ok tt
unfolding require_open
opened_run = refl

abbrev joined :
    (p : Participant) × (st' : Store) × (join_room unchanged is_letter store_1 300 nickname_ab 5000
      ≡ ok (p, st'))
joined =
    join_room-ok unchanged is_letter store_1 300 nickname_ab nickname_ab 5000 opened_run
      nickname_run (omega arith)

store_1-HasSeats : HasSeats store_1
store_1-HasSeats =
    (((refl, (refl, tt)), (refl, (refl, tt)), omega arith), (omega arith, (omega arith, tt)))

join_room-HasSeats_example : HasSeats joined.1 × (is_occupying joined.0 ≡ true)
join_room-HasSeats_example =
    join_room-HasSeats unchanged is_letter store_1 joined.1 300 nickname_ab 5000 joined.0
      store_1-HasSeats joined.2

submit-HasRows_example :
    Agrees true 7 store_1
      (submit plain_digest store_1 no_keys 5 101 7 5000 token_of_1 (83 ∷ []) true)
submit-HasRows_example =
    submit-HasRows plain_digest store_1 no_keys 5 101 7 5000 token_of_1 (83 ∷ []) true
      no_keys-IsCoherent (λ p. refl)
