-- ===== src/Realtime/Actions.antt =====
-- `Realtime.react` and `skip` of app/realtime/server.py, less the rate limit, on the rows of one room
-- and the sockets of all. Both answer an exception that is no `AppError` with SERVICE_UNAVAILABLE.
use emoselfie_be.Prelude.{
  ℕ, Bool, true, false, not, ◌&&◌, ◌||◌, Option, none, List, ◌==◌, if◌then◌else◌, keep, length,
  nonempty, all,
}
use emoselfie_be.Prelude.Sets.{has}
use emoselfie_be.Prelude.Dict.{lookup, insert, has_key}
use emoselfie_be.Core.Errors.{
  Result, or_error, ok, err, app, ensure, ◌>>=◌, ◌>>◌, not_a_participant, invalid_request,
  not_a_viewer, reaction_closed, not_scored_yet, self_reaction, not_current_round,
  service_unavailable,
}
use emoselfie_be.Db.{Round, Submission, find}
use emoselfie_be.Domain.Enums.{RoundStatus, ReactionType, is_finalized}
use emoselfie_be.Domain.Keys.{RoundKeys}
use emoselfie_be.Domain.Store.{Store, get_round, get_member}
use emoselfie_be.Domain.Reactions.{toggle_reaction, count_for, toggle_skip}
use emoselfie_be.Domain.Lifecycle.{World, keys_of, advance}
use emoselfie_be.Realtime.{Context, Sockets}
use emoselfie_be.Realtime.Emitter.{Message, reaction_updated, round_skip_status}
use emoselfie_be.Realtime.Delivery.{send_viewers, connected_viewers}

-- The payload of `reaction:updated`
pub record Update : Type 0 where
  pub round_id : ℕ
  pub submission_id : ℕ
  pub like : ℕ
  pub question : ℕ

-- The payload of `round:skipStatus`
pub record SkipStatus : Type 0 where
  pub round_id : ℕ
  pub skipped : ℕ
  pub total : ℕ

-- `_context`
abbrev pub context : Sockets → ℕ → Result Context
context k sid = or_error (lookup sid k.contexts) (err (app not_a_participant))

abbrev pub get_submission : ℕ → Store → Option Submission
get_submission i st = find (λ (s : Submission). s.id == i) st.submissions

-- `current.status in (RoundStatus.CLOSED, RoundStatus.VOIDED)`
abbrev pub is_shut : RoundStatus → Bool
is_shut s = elim s [ RoundStatus.closed ↦ true | RoundStatus.voided ↦ true | _ ↦ false ]

-- The checks of `react`, in their order.
unfoldable pub may_react :
    Sockets
    → World
    → ℕ
    → Option (ℕ × ReactionType)
    → Result (Context × ReactionType × Submission × Round)
may_react k w sid request = do
  c ← context k sid
  (submission_id, kind) ← or_error request (err (app invalid_request))
  target ← or_error (get_submission submission_id w.store) (err (app not_a_viewer))
  current ← or_error (get_round target.round_id w.store) (err (app not_a_viewer))
  let k' = keys_of current.id w
  ensure (has c.participant_id k'.viewers) (app not_a_viewer)
  ensure (not (is_shut current.status)) (app reaction_closed)
  ensure (has_key target.participant_id k'.scores) (app not_scored_yet)
  ensure (not (target.participant_id == c.participant_id)) (app self_reaction)
  ok (c, kind, target, current)

unfoldable pub update : RoundKeys → ℕ → ℕ → Update
unfolding count_for
update k round_id submission_id =
    let (likes, questions) = count_for k submission_id in
    record {
      round_id = round_id;
      submission_id = submission_id;
      like = likes;
      question = questions;
    }

abbrev pub put_keys : ℕ → RoundKeys → World → World
put_keys round_id k w = record w { keys = insert round_id k w.keys }

-- The round's keys after the reaction is toggled, and what the viewers are told of it.
unfoldable pub reacted : World → Context × ReactionType × Submission × Round → RoundKeys
unfolding toggle_reaction
reacted w (c, kind, target, current) =
    (toggle_reaction (keys_of current.id w) target.id c.participant_id kind).1

unfoldable pub tell_update :
    Sockets → World → Context × ReactionType × Submission × Round → Result (List (Message Update))
unfolding reacted send_viewers update
tell_update k w (c, kind, target, current) =
    let k' = reacted w (c, kind, target, current) in
    send_viewers k w.store.members k'.viewers reaction_updated (λ _. update k' current.id target.id)
      none

unfoldable pub react :
    Sockets → World → ℕ → Option (ℕ × ReactionType) → Result (List (Message Update) × World)
unfolding may_react reacted tell_update
react k w sid request = do
  p ← may_react k w sid request
  sent ← tell_update k w p
  ok (sent, put_keys p.3.id (reacted w p) w)

-- The checks of `skip`: the participant, the round, and whether the participant is the host.
unfoldable pub may_skip : Sockets → World → ℕ → Result (ℕ × Round × Bool)
may_skip k w sid = do
  c ← context k sid
  ensure (w.store.room.id == c.room_id) (app not_current_round)
  current_id ← or_error w.store.room.current_round_id (err (app not_current_round))
  current ← or_error (get_round current_id w.store) (err (app not_current_round))
  ensure (is_finalized current.status) (app not_current_round)
  me ← or_error (get_member c.participant_id w.store.members) (err (app not_a_participant))
  ensure (has c.participant_id (keys_of current.id w).viewers) (app not_a_viewer)
  ok (c.participant_id, current, w.store.room.host_user_id == me.user_id)

-- `connected and voters >= connected`
abbrev pub is_unanimous : List ℕ → List ℕ → Bool
is_unanimous voters connected = nonempty connected && all (λ i. has i voters) connected

-- The round's keys when the participant's vote is toggled.
unfoldable pub voted : World → ℕ → Round → RoundKeys
unfolding toggle_skip
voted w participant_id current = (toggle_skip (keys_of current.id w) participant_id).1

unfoldable pub tell_skip : Sockets → World → Round → RoundKeys → Result (List (Message SkipStatus))
unfolding connected_viewers send_viewers
tell_skip k w current k' =
    let voting = connected_viewers k w.store.members k'.viewers in
    send_viewers k w.store.members k'.viewers round_skip_status
      (λ _. record {
        round_id = current.id;
        skipped = length (keep (λ i. has i k'.skips) voting);
        total = length voting;
      })
      none

-- Whether the votes end the viewing: the host's does, and those of all who are connected.
unfoldable pub ends_viewing : Sockets → World → RoundKeys → Bool → Bool
unfolding connected_viewers
ends_viewing k w k' is_host =
    is_host || is_unanimous k'.skips (connected_viewers k w.store.members k'.viewers)

-- The answer, once the round has been left; a failure to leave it keeps the vote.
abbrev pub left_round :
    List (Message SkipStatus) → World → Result World → Result (List (Message SkipStatus)) × World
left_round messages w' (err e) = (err (app service_unavailable), w')
left_round messages w' (ok w'') = (ok messages, w'')

-- `skip` after its checks: the vote is toggled and told, and the round may end.
unfoldable pub cast_skip :
    Sockets → World → ℕ → Round → Bool → ℕ → Result (List (Message SkipStatus)) × World
unfolding voted tell_skip ends_viewing advance
cast_skip k w participant_id current is_host now =
    let k' = voted w participant_id current in
    let w' = put_keys current.id k' w in
    elim (tell_skip k w current k') [
      | err e ↦ (err (app service_unavailable), w')
      | ok messages ↦
          if ends_viewing k w k' is_host
          then left_round messages w' (advance w' current.id now)
          else (ok messages, w')
    ]

unfoldable pub skip : Sockets → World → ℕ → ℕ → Result (List (Message SkipStatus)) × World
unfolding may_skip cast_skip
skip k w sid now = elim (may_skip k w sid) [
  | err e ↦ (err e, w)
  | ok (participant_id, current, is_host) ↦ cast_skip k w participant_id current is_host now
]
