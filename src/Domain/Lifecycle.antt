-- ===== src/Domain/Lifecycle.antt =====
-- app/domain/round/runner.py: `RoundRunner`, which drives the rounds of a room by the jobs of the
-- scheduler. Each transaction runs under the room's row lock, so it is one step. What is sent to
-- the players, and the scoring of images, are not modelled; `now` is the clock, read once a job.
pub mod Progress
pub mod Monotone
pub mod Finishing
pub mod Advance
pub mod Settling
use emoselfie_be.Prelude.{
  ℕ, ◌+◌, ◌*◌, Bool, true, false, not, ◌&&◌, ◌||◌, Option, none, some, List, [], ◌∷◌, ◌++◌, map,
  ltb, leb, ◌==◌, if◌then◌else◌, or_else, ℤ, pos, eqb_ℤ, ltb_ℤ, length,
}
use emoselfie_be.Prelude.Dict.{Dict, lookup, insert}
use emoselfie_be.Core.Errors.{Result, ok, err, ◌>>=◌}
use emoselfie_be.Db.{Room, Participant, Round, find}
use emoselfie_be.Domain.Enums.{
  RoundStatus, is_playing, is_scoring, is_finalized, is_voided, ParticipantStatus, ConnectionStatus,
  is_left, is_connected, is_active, is_waiting_next_game, RoomStatus,
}
use emoselfie_be.Domain.Keys.{RoundKeys, no_keys}
use emoselfie_be.Domain.Store.{
  Store, get_round, get_member, put_round, put_member, active_count, active_participants,
}
use emoselfie_be.Domain.Scheduler.{
  Job, Timers, round_deadline, round_scoring_guard, round_viewing_end, participant_left, schedule,
  cancel, JobKind,
}
use emoselfie_be.Domain.Reactions.{drop}
use emoselfie_be.Domain.Inflight.{
  close_submissions, pending_inference, force_pending_failed, scoring_guard_sec, submitted_count,
  read_submissions,
}
use emoselfie_be.Domain.Settlement.{Finalized, finalize_round}
use emoselfie_be.Domain.Closing.{
  close_round, finish_game, next_index, abort_reason, Finished, AbortReason,
}
use emoselfie_be.Domain.Game.{open_round, min_players}

-- A room with its rounds, the Redis keys of the rounds, and the timers.
pub record World : Type 0 where
  pub store : Store
  pub keys : Dict RoundKeys
  pub timers : Timers

abbrev pub keys_of : ℕ → World → RoundKeys
keys_of round_id w = or_else (lookup round_id w.keys) no_keys

abbrev pub job : JobKind → ℕ → Job
job kind target_id = record { kind = kind; target_id = target_id }

abbrev pub arm : Job → ℕ → World → World
arm j fire_at_ms w = record w { timers = schedule w.timers j fire_at_ms }

abbrev pub disarm : Job → World → World
disarm j w = record w { timers = (cancel w.timers j).1 }

-- `_load`: nothing is done for a round that is not there, or in a room that is not playing.
unfoldable pub load : World → ℕ → Option Round
load w round_id = elim (get_round round_id w.store) [
  | none ↦ none
  | some current ↦ if is_playing w.store.room.status then some current else none
]

abbrev pub may_advance : RoundStatus → Bool
may_advance s = is_finalized s || is_voided s

-- The transaction of `advance` after the round is closed: finish the game, or open a round.
unfoldable pub follow : Store → Round → ℕ → Timers → Result (Store × Timers)
follow st current now timers = elim (abort_reason st) [
  | some reason ↦ (finish_game st (some reason) now >>= λ r. ok (r.1, timers))
  | none ↦ elim (next_index st.room current) [
    | none ↦ (finish_game st none now >>= λ r. ok (r.1, timers))
    | some index ↦
        (open_round st index now >>= λ r.
        ok (r.1, schedule timers (job round_deadline r.0.id) r.0.deadline_at))
  ]
]

unfoldable pub advance : World → ℕ → ℕ → Result World
unfolding load follow
advance w round_id now = elim (load w round_id) [
  | none ↦ ok w
  | some current ↦
      if may_advance current.status
      then (let (_, current', st) = close_round w.store (keys_of round_id w) current now in
          follow st current' now w.timers >>= λ r. ok (record {
            store = r.0;
            keys = insert round_id (drop (keys_of round_id w)) w.keys;
            timers = (cancel r.1 (job round_viewing_end round_id)).1;
          }))
      else ok w
]

-- `finalize` after its transaction: a round that nobody may view is left at once.
unfoldable pub after_finalize : World → ℕ → ℕ → Option ℕ → Result World
after_finalize w round_id now none =
    advance (disarm (job round_scoring_guard round_id) w) round_id now
after_finalize w round_id now (some viewing_ends_at_ms) = ok (
    arm (job round_viewing_end round_id) viewing_ends_at_ms
      (disarm (job round_scoring_guard round_id) w))

unfoldable pub finalize : World → ℕ → ℕ → Result World
unfolding load after_finalize
finalize w round_id now = elim (load w round_id) [
  | none ↦ ok w
  | some current ↦
      if is_scoring current.status
      then (finalize_round w.store (keys_of round_id w) current now >>= λ r.
          after_finalize (record w { store = r.1 }) round_id now r.0.viewing_ends_at_ms)
      else ok w
]

-- `close_submissions` of the runner: what the deadline and a full house both call.
unfoldable pub close_entry : World → ℕ → ℕ → Result World
unfolding load
close_entry w round_id now = elim (load w round_id) [
  | none ↦ ok w
  | some current ↦
      let (won, current') = close_submissions current in
      if won
      then (let w' = record w {
        store = record (w.store) { rounds = put_round current' w.store.rounds };
      } in
          read_submissions (keys_of round_id w) (active_participants w.store.members) >>= λ _.
          if eqb_ℤ (pending_inference (keys_of round_id w)) (pos 0)
          then finalize w' round_id now
          else ok (arm (job round_scoring_guard round_id) (now + scoring_guard_sec * 1000) w'))
      else ok w
]

unfoldable pub force_finalize : World → ℕ → ℕ → Result World
force_finalize w round_id now =
    finalize
      (record w { keys = insert round_id (force_pending_failed (keys_of round_id w)).1 w.keys })
      round_id now

-- `_finalize_if_resolved`, after a score was recorded.
unfoldable pub finalize_if_resolved : World → ℕ → ℕ → Result World
finalize_if_resolved w round_id now = elim (get_round round_id w.store) [
  | none ↦ ok w
  | some current ↦
      if is_scoring current.status && not (ltb_ℤ (pos 0) (pending_inference (keys_of round_id w)))
      then finalize w round_id now
      else ok w
]

-- `grace_expired` of app/domain/participant/service.py
unfoldable pub grace_expired : Participant → ℕ → ℕ → Bool
grace_expired m grace_sec now =
    if is_connected m.connection_status
    then false
    else if not (is_active m.status)
    then is_waiting_next_game m.status
    else leb (or_else m.disconnected_at m.joined_at + grace_sec * 1000) now

-- `release`: the slot and the colour go back to the room, and the points stay.
abbrev pub released : Participant → Participant
released m = record m {
  status = ParticipantStatus.left;
  connection_status = ConnectionStatus.disconnected;
}

unfoldable pub release : Store → Participant → ℕ → Bool × Store
release st m now = if is_left m.status then (false, st) else (
  true,
  record st {
    room = record (st.room) { last_active_at = now };
    members = put_member (released m) st.members;
  },
)

-- `active_shortfall`
unfoldable pub active_shortfall : Store → Bool
unfolding active_count
active_shortfall st =
    if is_playing st.room.status then ltb (active_count st.members) min_players else false

abbrev pub is_over : RoomStatus → Bool
is_over s = elim s [ RoomStatus.closed ↦ true | RoomStatus.finished ↦ true | _ ↦ false ]

unfoldable pub expire_participant : World → ℕ → ℕ → ℕ → Result World
unfolding release active_shortfall grace_expired
expire_participant w participant_id grace_sec now =
    elim (get_member participant_id w.store.members) [
      | none ↦ ok w
      | some m ↦
          if is_over w.store.room.status || not (grace_expired m grace_sec now)
          then ok w
          else (let (removed, st) = release w.store m now in
              if removed && active_shortfall st
              then (finish_game st (some AbortReason.not_enough_players) now >>= λ r.
                  ok (record w { store = r.1 }))
              else ok (record w { store = st }))
    ]

-- `handle`: the job that a timer fires.
unfoldable pub handle : World → Job → ℕ → ℕ → Result World
unfolding close_entry force_finalize advance expire_participant
handle w j grace_sec now = elim j.kind [
  | round_deadline ↦ close_entry w j.target_id now
  | round_scoring_guard ↦ force_finalize w j.target_id now
  | round_viewing_end ↦ advance w j.target_id now
  | participant_left ↦ expire_participant w j.target_id grace_sec now
  | _ ↦ ok w
]
