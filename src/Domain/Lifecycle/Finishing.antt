-- ===== src/Domain/Lifecycle/Finishing.antt =====
-- `finish_game` of app/domain/round/service.py: a game can always be finished.
use emoselfie_be.Prelude.{
  ℕ, ◌≡◌, true, All, all, refl, Option, none, List, [], ◌∷◌, map, arith, leb, keep, Bool-cases, inl,
  inr, keep-Nodup-map,
}
use emoselfie_be.Prelude.Sets.{IsDistinct, IsDistinct-Nodup, Nodup-IsDistinct}
use emoselfie_be.Core.Errors.{Result, ok, err}
use emoselfie_be.Db.{Participant}
use emoselfie_be.Domain.Store.{Store, is_active_member}
use emoselfie_be.Prelude.Dict.{Dict}
use emoselfie_be.Domain.Enums.{RoomStatus}
use emoselfie_be.Domain.Settlement.Total.{HasBest}
use emoselfie_be.Domain.Scoring.Totals.{
  FinalRank, final_ranking, most_loved, totals_ids, ParticipantTotals,
}
use emoselfie_be.Domain.Scoring.Game.{IsRanking, final_ranking-IsRanking}
use emoselfie_be.Domain.Inflight.Reading.{member_ids}
use emoselfie_be.Domain.Closing.{
  AbortReason, Finished, finish_game, game_totals, game_totals_of, reaction_totals, is_room_row,
  finished_room, has_range,
}

ranked-ok :
    (ts : List ParticipantTotals)
    → IsDistinct (totals_ids ts)
    → (rs : List FinalRank) × (final_ranking ts ≡ ok rs)
ranked-ok ts d = by_result (final_ranking ts) (final_ranking-IsRanking ts)
  where
    by_result : (x : Result (List FinalRank)) → IsRanking ts x → (rs : List FinalRank) × (x ≡ ok rs)
    by_result (ok rs) h = (rs, refl)
    by_result (err e) h = absurd (h.1 d)

totals_ids-map :
    (f : Participant → ParticipantTotals) (ms : List Participant)
    → ((m : Participant) → (f m).participant_id ≡ m.id)
    → totals_ids (map f ms) ≡ member_ids ms
totals_ids-map f [] h = refl
totals_ids-map f (m ∷ ms) h = rw (h m, totals_ids-map f ms h) refl

-- The totals of members whose best scores are in range pass their check.
has_range-totals :
    (reactions : Dict (ℕ × ℕ)) (ms : List Participant)
    → All HasBest ms
    → all has_range (map (game_totals_of reactions) (keep is_active_member ms)) ≡ true
has_range-totals reactions [] h = refl
has_range-totals reactions (m ∷ ms) h = elim (Bool-cases (is_active_member m)) [
  | inr n ↦ rw n (has_range-totals reactions ms h.1)
  | inl y ↦
      let here : leb m.best_round_score 1000 ≡ true = let b = h.0 in ground arith in
      rw (y, here) (has_range-totals reactions ms h.1)
]

-- The game is over: the room is finished, and no round is current.
abbrev pub IsFinished : Store → ℕ → Store → Type 0
IsFinished st now st' =
    (st'.room.status ≡ RoomStatus.finished)
    × (st'.room.current_round_id ≡ none)
    × (st'.rounds ≡ st.rounds)
    × (st'.members ≡ st.members)

-- A game of members with different ids and best scores in range can always be finished.
pub finish_game-ok :
    (st : Store) (reason : Option AbortReason) (now : ℕ)
    → IsDistinct (member_ids st.members)
    → All HasBest st.members
    → (f : Finished) × (st' : Store) × (finish_game st reason now ≡ ok (f, st'))
      × IsFinished st now st'
unfolding finish_game game_totals
finish_game-ok st reason now d best =
    let reactions = reaction_totals (keep (is_room_row st.rounds) st.submissions) [] in
    let (rs, ranked) = ranked-ok (game_totals st) (
      rw (totals_ids-map (game_totals_of reactions) (keep is_active_member st.members) (λ m. refl))
        (Nodup-IsDistinct (member_ids (keep is_active_member st.members)) (
          keep-Nodup-map (λ m. m.id) is_active_member st.members
            (IsDistinct-Nodup (member_ids st.members) d)))) in
    let f : Finished = record {
      reason = reason;
      ranking = rs;
      award = most_loved (game_totals st);
    } in
    let st' : Store = record st { room = finished_room st.room now } in
    (f, st', rw (has_range-totals reactions st.members best, ranked) refl, (refl, refl, refl, refl))
