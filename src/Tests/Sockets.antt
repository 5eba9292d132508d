-- ===== src/Tests/Sockets.antt =====
-- Concrete runs of the realtime server: two sockets of one user, a round's events, and votes.
use emoselfie_be.Prelude.{
  arith, ℕ, ◌≡◌, refl, true, ◌&&◌, none, some, List, [], ◌∷◌, map, all, ◌==◌, or_else, Bool-cases,
  inl, inr,
}
use emoselfie_be.Domain.Reactions.Toggle.{IsCounted, tally}
use emoselfie_be.Prelude.Dict.{lookup}
use emoselfie_be.Core.Errors.{ok}
use emoselfie_be.Db.{Round, Submission}
use emoselfie_be.Domain.Enums.{
  RoomStatus, RoundStatus, SubmissionStatus, ReactionType, like, question,
}
use emoselfie_be.Domain.Lifecycle.Settling.{IsLast}
use emoselfie_be.Domain.Keys.{RoundKeys, no_keys, failed_payload}
use emoselfie_be.Domain.Lifecycle.{World, keys_of}
use emoselfie_be.Domain.Reactions.{toggle_reaction, counter}
use emoselfie_be.Realtime.{Context, Sockets}
use emoselfie_be.Realtime.Connections.{Hub, Pod, connect, ping, disconnected_member}
use emoselfie_be.Realtime.Steps.{Reach, Step, is_true_to, Reach-current_sid}
use emoselfie_be.Realtime.Replaced.{Later}
use emoselfie_be.Realtime.Superseding.{IsSpared, connect-spares}
use emoselfie_be.Realtime.Emitter.{Message, reaction_updated, is_viewer}
use emoselfie_be.Realtime.Delivery.{Body, send_viewers, announce_round}
use emoselfie_be.Realtime.Recipients.{is_meant, goes_to, send_viewers-private}
use emoselfie_be.Realtime.Tokens.{is_own_token, announce_round-tokens}
use emoselfie_be.Realtime.Actions.{Update, SkipStatus, react, may_skip, skip, put_keys}
use emoselfie_be.Realtime.Reacting.{
  IsPermitted, is_true_count, AreCounted, react-IsPermitted, react-counts,
}
use emoselfie_be.Realtime.Skipping.{IsOutcome, skip-ok}
use emoselfie_be.Tests.{plain_digest, pair, open_round_7, no_keys-IsCounted}
use emoselfie_be.Tests.Rooms.{room_1, store_1, world_1}

abbrev no_sockets : Sockets
no_sockets = record { held = []; contexts = []; presence = []; pods = [] }

-- A waiting room with two participants, and no socket yet.
abbrev quiet_hub : Hub
quiet_hub = record {
  users = 101 ∷ 102 ∷ [];
  rooms = record room_1 { status = RoomStatus.waiting } ∷ [];
  members = map (disconnected_member 0) pair;
  sockets = no_sockets;
  timers = [];
}

abbrev pod_3 : Pod
pod_3 = record { id = 3; grace_sec = 60 }

-- User 101 opens socket 11, and then socket 12, which takes its place.
abbrev first_visit : Hub
unfolding connect
first_visit = (connect quiet_hub 11 pod_3 (some 101) 5 1000).1

visited : Reach quiet_hub first_visit
unfolding connect first_visit
visited = Reach.step Reach.begin (Step.connects 11 pod_3 (some 101) 5 1000 refl)

Reach-current_sid_example : all (is_true_to first_visit.sockets) first_visit.members ≡ true
Reach-current_sid_example = Reach-current_sid quiet_hub first_visit refl refl visited

-- After socket 12 has taken the place of 11: participant 2 connects with 13, and then 12 pings.
abbrev second_visit : Hub
unfolding connect
second_visit = (connect first_visit 12 pod_3 (some 101) 5 2000).1

abbrev busy_hub : Hub
unfolding connect ping
busy_hub = (ping (connect second_visit 13 pod_3 (some 102) 5 2500).1 12 2600).1

went_on : Later 11 (connect first_visit 12 pod_3 (some 101) 5 2000).1 busy_hub
unfolding connect ping
went_on =
    Later.step (Later.step Later.begin (Step.connects 13 pod_3 (some 102) 5 2500 refl) refl)
      (Step.pings 12 2600) refl

connect-spares_example : IsSpared busy_hub 11 60 3000
unfolding connect
connect-spares_example =
    connect-spares quiet_hub first_visit 12 pod_3 (some 101) 5 2000 11 busy_hub 60 3000 refl refl
      visited refl refl went_on

-- Participants 1 and 2 hold the sockets 21 and 22.
abbrev pub two_sockets : Sockets
two_sockets = record {
  held = (101, 21) ∷ (102, 22) ∷ [];
  contexts =
      (21, record { user_id = 101; participant_id = 1; room_id = 1; pod_id = 3 })
      ∷ (22, record { user_id = 102; participant_id = 2; room_id = 1; pod_id = 3 })
      ∷ [];
  presence = [];
  pods = 3 ∷ [];
}

sent_lem :
    (sent : List (Message ℕ)) × (send_viewers two_sockets pair
        (1 ∷ 2 ∷ [])
        reaction_updated
        (λ m. m.id)
        (some (2 ∷ 3 ∷ []))
      ≡ ok sent)
unfolding send_viewers
sent_lem = (_, refl)

send_viewers-private_example :
    all
      (λ x.
        is_viewer x.event
        && goes_to two_sockets (1 ∷ 2 ∷ []) x
        && is_meant two_sockets (some (2 ∷ 3 ∷ [])) x)
      sent_lem.0
    ≡ true
send_viewers-private_example =
    send_viewers-private two_sockets pair (1 ∷ 2 ∷ []) reaction_updated (λ m. m.id)
      (some (2 ∷ 3 ∷ [])) sent_lem.0 sent_lem.1

announced :
    (sent : List (Message Body)) × (announce_round plain_digest (83 ∷ []) two_sockets store_1 true
      ≡ ok sent)
unfolding announce_round
announced = (_, refl)

announce_round-tokens_example :
    all (is_own_token plain_digest (83 ∷ []) two_sockets) announced.0 ≡ true
announce_round-tokens_example =
    announce_round-tokens plain_digest (83 ∷ []) two_sockets store_1 true announced.0 announced.1

-- Submission 9 of participant 2 has failed to get a score, and both may view the round.
abbrev viewing_keys : RoundKeys
viewing_keys = record no_keys {
  submitted = (1, 5000) ∷ (2, 5000) ∷ [];
  scores = (2, failed_payload) ∷ [];
  viewers = 1 ∷ 2 ∷ [];
}

abbrev viewing_world : World
viewing_world = record world_1 {
  keys = (7, viewing_keys) ∷ [];
  store = record store_1 {
    rounds = record open_round_7 { status = RoundStatus.finalized } ∷ [];
    submissions =
        record {
          id = 9;
          round_id = 7;
          participant_id = 2;
          status = SubmissionStatus.failed;
          received_at = some 5000;
          target_score = none;
          top_emotions = none;
          rank = none;
          rank_points = 0;
          like_count = 0;
          question_count = 0;
        }
        ∷ [];
  };
}

reacted_to :
    (sent : List (Message Update)) × (w' : World) × (react two_sockets viewing_world 21
        (some (9, like))
      ≡ ok (sent, w'))
unfolding react
reacted_to = (_, _, refl)

react-IsPermitted_example :
    (p : Context × ReactionType × Submission × Round) × IsPermitted two_sockets viewing_world 21
      (some (9, like))
      p
    × (reacted_to.1
        ≡ put_keys p.3.id
            (toggle_reaction (keys_of p.3.id viewing_world) p.2.id p.0.participant_id p.1).1
            viewing_world)
react-IsPermitted_example =
    react-IsPermitted two_sockets viewing_world reacted_to.1 21 (some (9, like)) reacted_to.0
      reacted_to.2

viewing_world-AreCounted : AreCounted viewing_world
viewing_world-AreCounted i = elim (Bool-cases (i == 7)) [
  | inl y ↦ rw y (counted, tt, tt)
  | inr n ↦ rw n (no_keys-IsCounted, tt, tt)
]
  where
    counted : IsCounted viewing_keys
    counted = (tt, none_counted)
      where
        none_counted :
            (s : ℕ) (kind : ReactionType)
            → or_else (lookup s (counter kind viewing_keys)) 0 ≡ tally s kind []
        none_counted s like = refl
        none_counted s question = refl

react-counts_example : all (is_true_count reacted_to.1) reacted_to.0 ≡ true
react-counts_example =
    react-counts two_sockets viewing_world reacted_to.1 21 (some (9, like)) reacted_to.0
      viewing_world-AreCounted reacted_to.2

viewing-IsLast : IsLast 7 viewing_world.store
viewing-IsLast current e =
    let same : record open_round_7 { status = RoundStatus.finalized } ≡ current = cc in
    rw (← same) (omega arith, (omega arith, tt))

skip-ok_example :
    (messages : List (Message SkipStatus)) × (w'' : World) × (skip two_sockets viewing_world 21
        20000
      ≡ (ok messages, w''))
    × IsOutcome two_sockets viewing_world 1
        (record open_round_7 { status = RoundStatus.finalized })
        true
        20000
        w''
unfolding may_skip
skip-ok_example =
    skip-ok two_sockets viewing_world 21 20000 1
      (record open_round_7 { status = RoundStatus.finalized }) true refl (refl, (refl, tt))
      (omega arith, (omega arith, tt)) viewing-IsLast
