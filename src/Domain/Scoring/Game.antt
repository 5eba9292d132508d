-- ===== src/Domain/Scoring/Game.antt =====
-- `final_ranking` and `most_loved`: the end of a game.
use mathlib.Core.List.{Perm, Mem, mem-cons_self, mem-cons_of_mem}
use mathlib.Core.List.Perm
use mathlib.Core.List.Pairwise
use emoselfie_be.Prelude.{
  ℕ, ◌+◌, ◌<◌, ◌≤◌, ◌≡◌, refl, sym, ◌∙◌, ap, Bool, true, false, Option, none, some, List, [], ◌∷◌,
  map, arith, leb, ◌==◌, if◌then◌else◌, ◌&&◌, ==_iff, Bool-cases, inl, inr, length, keep, All,
  enumerate, count_from, length-map, length-perm, Mem-keep, ◌⊎◌, ℤ, max, or_else,
}
use emoselfie_be.Prelude.Sets.{set_of, IsDistinct, IsDistinct-of_length, length-set_of}
use emoselfie_be.Prelude.Sort.{
  sort_by, sort_by-perm, sort_by-IsSorted, lex_leb, min_by, lex_leb_trans, lex_leb_total,
  lex_leb_refl, Before,
}
use emoselfie_be.Prelude.Every.{AllPairs, AllPairs-of_Pairwise, All-keep}
use emoselfie_be.Core.Errors.{Result, ok, err, value_error}
use emoselfie_be.Domain.Scoring.{ScoredSubmission}
use emoselfie_be.Domain.Scoring.Totals.{
  ParticipantTotals, totals_check, accumulate, FinalRank, final_key, final_rank, totals_ids,
  final_ranking, most_loved, MostLoved, is_loved, loved_key, award,
}

-- `accumulate` adds the points and raises the best score for the same participant, and refuses
-- another participant, or a score above 100.
pub accumulate_lem :
    (t : ParticipantTotals) (r : ScoredSubmission)
    → accumulate t r ≡ (
        if (t.participant_id == r.participant_id)
          && leb (max t.best_round_score (or_else r.target_score 0)) 1000
        then ok (record t {
          total_points = t.total_points + r.rank_points;
          best_round_score = max t.best_round_score (or_else r.target_score 0);
        })
        else err value_error)
unfolding accumulate totals_check
accumulate_lem t r = ground arith

abbrev pub numbers_of : List FinalRank → List ℕ
numbers_of = map (λ r. r.rank)

numbers-enumerate :
    (n : ℕ) (ts : List ParticipantTotals)
    → numbers_of (enumerate final_rank n ts) ≡ count_from n (length ts)
numbers-enumerate n [] = refl
numbers-enumerate n (t ∷ ts) = ap (◌∷◌ n) (numbers-enumerate (n + 1) ts)

-- More points come first, then the higher best score, then the earlier join, then the smaller id.
abbrev pub IsAhead : ParticipantTotals → ParticipantTotals → Type 0
IsAhead a b =
    (b.total_points < a.total_points)
    ⊎ (a.total_points ≡ b.total_points)
      × ((b.best_round_score < a.best_round_score)
          ⊎ (a.best_round_score ≡ b.best_round_score)
            × ((a.joined_at < b.joined_at)
                ⊎ (a.joined_at ≡ b.joined_at) × (a.participant_id ≤ b.participant_id)))

IsAhead-of_Before : (a b : ParticipantTotals) → Before final_key a b → IsAhead a b
unfolding final_key lex_leb
IsAhead-of_Before a b h = ground arith

-- More likes come first, then fewer questions, then the earlier join, then the smaller id.
abbrev pub IsDearer : ParticipantTotals → ParticipantTotals → Type 0
IsDearer a b =
    (b.like_count < a.like_count)
    ⊎ (a.like_count ≡ b.like_count)
      × ((a.question_count < b.question_count)
          ⊎ (a.question_count ≡ b.question_count)
            × ((a.joined_at < b.joined_at)
                ⊎ (a.joined_at ≡ b.joined_at) × (a.participant_id ≤ b.participant_id)))

IsDearer-of_Before : (a b : ParticipantTotals) → Before loved_key a b → IsDearer a b
unfolding loved_key lex_leb
IsDearer-of_Before a b h = ground arith

-- The final ranking: the order, numbered from 1.
abbrev pub IsRanking : List ParticipantTotals → Result (List FinalRank) → Type 0
IsRanking ts (ok rs) =
    IsDistinct (totals_ids ts)
    × ((us : List ParticipantTotals) × Perm us ts
        × AllPairs IsAhead us
        × (rs ≡ enumerate final_rank 1 us)
        × (numbers_of rs ≡ count_from 1 (length ts)))
IsRanking ts (err e) = (e ≡ value_error) × (¬ IsDistinct (totals_ids ts))

-- The final ranking refuses a list that names a participant twice, and only that. Otherwise it
-- lists every participant once, numbered from 1 without ties or gaps: more points first, then the
-- higher best score, then the earlier join, then the smaller id.
pub final_ranking-IsRanking : (ts : List ParticipantTotals) → IsRanking ts (final_ranking ts)
unfolding final_ranking
final_ranking-IsRanking ts = elim (Bool-cases (length (set_of (totals_ids ts)) == length ts)) [
  | inl same ↦ rw same (
    IsDistinct-of_length (totals_ids ts) ((==_iff _ _).0 same ∙ sym (length-map _ ts)),
    (
      sort_by final_key ts,
      sort_by-perm final_key ts,
      AllPairs-of_Pairwise IsAhead (Pairwise.imp IsAhead-of_Before (sort_by-IsSorted final_key ts)),
      refl,
      numbers-enumerate 1 (sort_by final_key ts)
          ∙ ap (count_from 1) (length-perm (sort_by-perm final_key ts)),
    ),
  )
  | inr other ↦
      rw other
        (refl, λ h. let e = length-set_of (totals_ids ts) h ∙ length-map _ ts in ground arith)
]

-- The least item by the key, which every item of the list is not before.
min_by-least :
    (key : ParticipantTotals → List ℤ) (t : ParticipantTotals) (ts : List ParticipantTotals)
    → All (λ u. lex_leb (key (min_by key t ts)) (key u) ≡ true) (t ∷ ts)
unfolding min_by
min_by-least key t [] = (lex_leb_refl (key t), tt)
min_by-least key t (u ∷ us) =
    by_test (lex_leb (key t) (key u)) refl (min_by-least key t us) (min_by-least key u us)
  where
    Least : ParticipantTotals → List ParticipantTotals → Type 0
    Least m vs = All (λ v. lex_leb (key m) (key v) ≡ true) vs

    by_test :
        (b : Bool)
        → lex_leb (key t) (key u) ≡ b
        → Least (min_by key t us) (t ∷ us)
        → Least (min_by key u us) (u ∷ us)
        → Least (min_by key (if b then t else u) us) (t ∷ u ∷ us)
    by_test true e h k = (h.0, (lex_leb_trans (key (min_by key t us)) (key t) (key u) h.0 e, h.1))
    by_test false e h k = (
      lex_leb_trans (key (min_by key u us)) (key u) (key t) k.0 (lex_leb_total (key t) (key u) e),
      k,
    )

-- The most loved is nobody, if nobody was liked; else a liked participant before whom none of the
-- liked stands, with the likes as they are.
abbrev pub IsAward : List ParticipantTotals → Option MostLoved → Type 0
IsAward ts none = All (λ t. t.like_count ≡ 0) ts
IsAward ts (some a) =
    (t : ParticipantTotals) × Mem t ts
    × (a ≡ award t)
    × (0 < t.like_count)
    × All (λ u. (u.like_count ≡ 0) ⊎ IsDearer t u) ts

none_loved : (ts : List ParticipantTotals) → keep is_loved ts ≡ [] → All (λ t. t.like_count ≡ 0) ts
none_loved [] h = tt
none_loved (t ∷ ts) h = ground (arith, none_loved ts)

others :
    (t : ParticipantTotals) (ts : List ParticipantTotals)
    → All (λ u. lex_leb (loved_key t) (loved_key u) ≡ true) (keep is_loved ts)
    → All (λ u. (u.like_count ≡ 0) ⊎ IsDearer t u) ts
others t [] h = tt
others t (u ∷ us) h = by_test (is_loved u) refl h (others t us)
  where
    by_test :
        (b : Bool)
        → is_loved u ≡ b
        → All
            (λ v. lex_leb (loved_key t) (loved_key v) ≡ true)
            (if b then u ∷ keep is_loved us else keep is_loved us)
        → (All (λ v. lex_leb (loved_key t) (loved_key v) ≡ true) (keep is_loved us)
            → All (λ v. (v.like_count ≡ 0) ⊎ IsDearer t v) us)
        → All (λ v. (v.like_count ≡ 0) ⊎ IsDearer t v) (u ∷ us)
    by_test true e k rest = (inr (IsDearer-of_Before t u k.0), rest k.1)
    by_test false e k rest = (inl (ground arith), rest k)

min_by-mem :
    (key : ParticipantTotals → List ℤ) (t : ParticipantTotals) (ts : List ParticipantTotals)
    → Mem (min_by key t ts) (t ∷ ts)
unfolding min_by
min_by-mem key t [] = mem-cons_self
min_by-mem key t (u ∷ us) =
    by_test (lex_leb (key t) (key u)) (min_by-mem key t us) (min_by-mem key u us)
  where
    by_test :
        (b : Bool)
        → Mem (min_by key t us) (t ∷ us)
        → Mem (min_by key u us) (u ∷ us)
        → Mem (min_by key (if b then t else u) us) (t ∷ u ∷ us)
    by_test true h k = (Perm.mem_iff (Perm.swap t u us)).0 (mem-cons_of_mem u h)
    by_test false h k = mem-cons_of_mem t k

min_by-All :
    (P : ParticipantTotals → Type 0) (key : ParticipantTotals → List ℤ) (t : ParticipantTotals)
    (ts : List ParticipantTotals)
    → All P (t ∷ ts)
    → P (min_by key t ts)
unfolding min_by
min_by-All P key t [] h = h.0
min_by-All P key t (u ∷ us) h =
    min_by-All P key (if lex_leb (key t) (key u) then t else u) us
      (one_of (lex_leb (key t) (key u)), h.1.1)
  where
    one_of : (b : Bool) → P (if b then t else u)
    one_of true = h.0
    one_of false = h.1.0

-- The most loved is somebody as soon as anybody was liked: the one with the most likes, among
-- those the fewest questions, then the earlier join, then the smaller id.
pub most_loved-IsAward : (ts : List ParticipantTotals) → IsAward ts (most_loved ts)
unfolding most_loved
most_loved-IsAward ts = by_loved (keep is_loved ts) refl
  where
    by_loved :
        (ls : List ParticipantTotals)
        → keep is_loved ts ≡ ls
        → IsAward ts (elim ls [ [] ↦ none | t ∷ rest ↦ some (award (min_by loved_key t rest)) ])
    by_loved [] e = none_loved ts e
    by_loved (t ∷ rest) e =
        let m = min_by loved_key t rest in
        let inside = rw (← e) at (min_by-mem loved_key t rest) in
        let liked : All (λ v. is_loved v ≡ true) (t ∷ rest) = rw e at (All-keep is_loved ts) in
        let loved = min_by-All (λ v. is_loved v ≡ true) loved_key t rest liked in
        (
          m,
          Mem-keep is_loved ts inside,
          refl,
          ground arith,
          others m ts (rw e (min_by-least loved_key t rest)),
        )
