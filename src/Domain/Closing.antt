-- ===== src/Domain/Closing.antt =====
-- app/domain/round/service.py: closing a round, and finishing a game.
use emoselfie_be.Prelude.{
  ℕ, ◌+◌, Bool, Option, none, some, List, [], ◌∷◌, map, all, leb, ◌==◌, if◌then◌else◌, is_some,
  or_else, length, keep,
}
use emoselfie_be.Prelude.Dict.{Dict, lookup, insert}
use emoselfie_be.Core.Errors.{Result, ok, ◌>>=◌, ◌>>◌, ensure, value_error}
use emoselfie_be.Db.{Room, Participant, Round, Submission, find}
use emoselfie_be.Domain.Enums.{RoomStatus, RoundStatus, is_finalized}
use emoselfie_be.Domain.Keys.{RoundKeys}
use emoselfie_be.Domain.Store.{Store, put_round, active_count, is_active_member}
use emoselfie_be.Domain.Reactions.{persist}
use emoselfie_be.Domain.Scoring.Totals.{
  ParticipantTotals, FinalRank, MostLoved, final_ranking, most_loved,
}
use emoselfie_be.Domain.Game.{min_players}

abbrev pub max_consecutive_voided : ℕ
max_consecutive_voided = 3

-- `close_round`, less the result images, which live in another Redis.
unfoldable pub close_round : Store → RoundKeys → Round → ℕ → Dict (ℕ × ℕ) × Round × Store
unfolding persist
close_round st k current now =
    let (totals, st') = persist st k current.id in
    let current' =
      if is_finalized current.status
      then record current { status = RoundStatus.closed; closed_at = some now }
      else current in
    (totals, current', record st' { rounds = put_round current' st'.rounds })

-- `_reaction_totals`: likes and questions of each participant over the rounds of the room.
unfoldable pub reaction_totals : List Submission → Dict (ℕ × ℕ) → Dict (ℕ × ℕ)
reaction_totals [] totals = totals
reaction_totals (s ∷ ss) totals =
    let (l, q) = or_else (lookup s.participant_id totals) (0, 0) in
    reaction_totals ss (insert s.participant_id (l + s.like_count, q + s.question_count) totals)

-- A row of the room's rounds, as the join in `_reaction_totals` selects it.
abbrev pub is_room_row : List Round → Submission → Bool
is_room_row rounds s = is_some (find (λ (r : Round). r.id == s.round_id) rounds)

abbrev pub game_totals_of : Dict (ℕ × ℕ) → Participant → ParticipantTotals
game_totals_of reactions m = record {
  participant_id = m.id;
  joined_at = m.joined_at;
  total_points = m.total_points;
  best_round_score = m.best_round_score;
  like_count = (or_else (lookup m.id reactions) (0, 0)).0;
  question_count = (or_else (lookup m.id reactions) (0, 0)).1;
}

-- The totals of those who are active when the game ends.
unfoldable pub game_totals : Store → List ParticipantTotals
unfolding reaction_totals
game_totals st =
    map (game_totals_of (reaction_totals (keep (is_room_row st.rounds) st.submissions) []))
      (keep is_active_member st.members)

pub data AbortReason : Type 0 where
  engine_unavailable not_enough_players : AbortReason

pub record Finished : Type 0 where
  pub reason : Option AbortReason
  pub ranking : List FinalRank
  pub award : Option MostLoved

abbrev pub finished_room : Room → ℕ → Room
finished_room room now = record room {
  status = RoomStatus.finished;
  current_round_id = none;
  last_active_at = now;
}

-- `__post_init__` of each of the totals
abbrev pub has_range : ParticipantTotals → Bool
has_range t = leb t.best_round_score 1000

unfoldable pub finish_game : Store → Option AbortReason → ℕ → Result (Finished × Store)
unfolding game_totals
finish_game st reason now = do
  ensure (all has_range (game_totals st)) value_error
  ranking ← final_ranking (game_totals st)
  ok (
    record { reason = reason; ranking = ranking; award = most_loved (game_totals st) },
    record st { room = finished_room st.room now },
  )

unfoldable pub next_index : Room → Round → Option ℕ
next_index room current =
    if leb (length room.emotion_sequence) current.index then none else some (current.index + 1)

-- The query for the second active member tells whether there are two.
unfoldable pub abort_reason : Store → Option AbortReason
unfolding active_count
abort_reason st =
    if leb max_consecutive_voided st.room.consecutive_voided
    then some AbortReason.engine_unavailable
    else if leb min_players (active_count st.members)
    then none
    else some AbortReason.not_enough_players
