-- ===== src/Domain/Reactions.antt =====
-- app/domain/reaction/service.py: reactions and skip votes, which live in Redis until the round
-- closes.
pub mod Toggle
pub mod Counts
use emoselfie_be.Prelude.{
  ℕ, suc, ◌+◌, ◌-◌, Bool, true, false, not, ◌&&◌, ◌||◌, Option, none, some, List, [], ◌∷◌, ◌++◌,
  map, ◌==◌, if◌then◌else◌, is_some, or_else, length, keep,
}
use emoselfie_be.Prelude.Sets.{has, add, discard}
use emoselfie_be.Prelude.Dict.{Dict, lookup, insert, has_key}
use emoselfie_be.Db.{Submission, Reaction, RoundSkip, find}
use emoselfie_be.Domain.Enums.{ReactionType, like, question}
use emoselfie_be.Domain.Keys.{Marker, RoundKeys}
use emoselfie_be.Domain.Store.{Store}

abbrev pub kind_code : ReactionType → ℕ
kind_code like = 0
kind_code question = 1

abbrev pub same_marker : Marker → Marker → Bool
same_marker a b =
    (a.submission_id == b.submission_id)
    && ((a.actor_id == b.actor_id) && (kind_code a.kind == kind_code b.kind))

abbrev pub has_marker : Marker → List Marker → Bool
has_marker m [] = false
has_marker m (x ∷ xs) = same_marker m x || has_marker m xs

abbrev pub remove_marker : Marker → List Marker → List Marker
remove_marker m [] = []
remove_marker m (x ∷ xs) = if same_marker m x then remove_marker m xs else x ∷ remove_marker m xs

-- `reaction_key(round_id, kind)`
abbrev pub counter : ReactionType → RoundKeys → Dict ℕ
counter like k = k.likes
counter question k = k.questions

abbrev pub put_counter : ReactionType → Dict ℕ → RoundKeys → RoundKeys
put_counter like d k = record k { likes = d }
put_counter question d k = record k { questions = d }

-- The count after `HINCRBY`: a count below 0 is set to 0, as `-` does here.
abbrev pub moved : Bool → ℕ → ℕ
moved adds n = if adds then n + 1 else n - 1

-- `TOGGLE_REACTION`: whether the reaction is now set, and the target's new count.
unfoldable pub toggle_reaction : RoundKeys → ℕ → ℕ → ReactionType → (Bool × ℕ) × RoundKeys
toggle_reaction k submission_id actor_id kind =
    let m : Marker = record { submission_id = submission_id; actor_id = actor_id; kind = kind } in
    let adds = not (has_marker m k.actors) in
    let count = moved adds (or_else (lookup submission_id (counter kind k)) 0) in
    (
      (adds, count),
      put_counter kind (insert submission_id count (counter kind k))
          (record k { actors = if adds then m ∷ k.actors else remove_marker m k.actors }),
    )

-- `TOGGLE_SKIP`: whether the vote is now cast, and the number of votes.
unfoldable pub toggle_skip : RoundKeys → ℕ → (Bool × ℕ) × RoundKeys
toggle_skip k participant_id =
    let adds = not (has participant_id k.skips) in
    let skips = if adds then participant_id ∷ k.skips else discard participant_id k.skips in
    ((adds, length skips), record k { skips = skips })

-- The two loops of `counts`, over the likes and then over the questions.
unfoldable pub like_counts : Dict ℕ → Dict (ℕ × ℕ) → Dict (ℕ × ℕ)
like_counts [] totals = totals
like_counts ((key, value) ∷ raw) totals =
    like_counts raw
      (insert key (value, (elim (lookup key totals) [ none ↦ 0 | some (_, q) ↦ q ])) totals)

unfoldable pub question_counts : Dict ℕ → Dict (ℕ × ℕ) → Dict (ℕ × ℕ)
question_counts [] totals = totals
question_counts ((key, value) ∷ raw) totals =
    question_counts raw
      (insert key ((elim (lookup key totals) [ none ↦ 0 | some (l, _) ↦ l ]), value) totals)

unfoldable pub counts : RoundKeys → Dict (ℕ × ℕ)
unfolding like_counts question_counts
counts k = question_counts k.questions (like_counts k.likes [])

-- Likes and questions of a submission.
unfoldable pub count_for : RoundKeys → ℕ → ℕ × ℕ
unfolding counts
count_for k submission_id = or_else (lookup submission_id (counts k)) (0, 0)

abbrev pub is_row : ℕ → ℕ → Submission → Bool
is_row round_id submission_id s = (s.round_id == round_id) && (s.id == submission_id)

abbrev pub is_reaction : ℕ → Marker → Reaction → Bool
is_reaction round_id m r =
    (r.round_id == round_id)
    && ((r.target_submission_id == m.submission_id)
        && ((r.actor_participant_id == m.actor_id) && (kind_code r.type == kind_code m.kind)))

-- The first loop of `persist`: markers of known submissions become rows, once each.
unfoldable pub persist_actors : ℕ → List Submission → List Marker → List Reaction → List Reaction
persist_actors round_id rows [] stored = stored
persist_actors round_id rows (m ∷ ms) stored = persist_actors round_id rows ms (
    if is_some (find (is_row round_id m.submission_id) rows)
      && not (is_some (find (is_reaction round_id m) stored))
    then stored
      ++ record {
        round_id = round_id;
        actor_participant_id = m.actor_id;
        target_submission_id = m.submission_id;
        type = m.kind;
      }
        ∷ []
    else stored)

-- The second loop: the closing counts reach the rows of the round.
unfoldable pub persist_counts : ℕ → Dict (ℕ × ℕ) → List Submission → List Submission
persist_counts round_id totals [] = []
persist_counts round_id totals (s ∷ ss) =
    (if s.round_id == round_id
      then elim (lookup s.id totals) [
        | none ↦ s
        | some (l, q) ↦ record s { like_count = l; question_count = q }
      ]
      else s)
    ∷ persist_counts round_id totals ss

abbrev pub is_skip : ℕ → ℕ → RoundSkip → Bool
is_skip round_id p s = (s.round_id == round_id) && (s.participant_id == p)

unfoldable pub persist_skips : ℕ → List ℕ → List RoundSkip → List RoundSkip
persist_skips round_id [] stored = stored
persist_skips round_id (p ∷ ps) stored = persist_skips round_id ps (
    if is_some (find (is_skip round_id p) stored)
    then stored
    else stored ++ record { round_id = round_id; participant_id = p } ∷ [])

unfoldable pub persist : Store → RoundKeys → ℕ → Dict (ℕ × ℕ) × Store
unfolding counts persist_actors persist_counts persist_skips
persist st k round_id = (
  counts k,
  record st {
    reactions = persist_actors round_id st.submissions k.actors st.reactions;
    submissions = persist_counts round_id (counts k) st.submissions;
    round_skips = persist_skips round_id k.skips st.round_skips;
  },
)

unfoldable pub drop : RoundKeys → RoundKeys
drop k = record k { actors = []; skips = []; likes = []; questions = [] }
