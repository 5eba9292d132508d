-- ===== src/Domain/Scoring/Ranking.antt =====
-- `score_round`: the order of the ranks, against an independent description of it.
use mathlib.Core.List.{Perm}
use mathlib.Core.List.Pairwise
use mathlib.Core.Path.{subst}
use emoselfie_be.Prelude.{
  ℕ, ◌≤◌, ◌<◌, ◌≡◌, ◌⊎◌, false, Option, none, some, List, [], ◌∷◌, ◌++◌, map, arith, length, take,
  keep, All, enumerate, or_else, length-enumerate,
}
use emoselfie_be.Prelude.Sort.{sort_by, sort_by-perm, sort_by-IsSorted, Before, lex_leb}
use emoselfie_be.Prelude.Every.{
  AllPairs, AllPairs-of_Pairwise, AllPairs-enumerate, AllPairs-append, All-of_forall, All-map,
  take-append, All-sort_by, All-keep_of, AllPairs-both,
}
use emoselfie_be.Core.Errors.{ok}
use emoselfie_be.Domain.Enums.{is_no_face}
use emoselfie_be.Domain.Scoring.{
  RoundSubmission, ScoredSubmission, RoundOutcome, order_key, id_key, is_ranked, is_unranked,
  ranked_result, unranked_result, ranked_results, unranked_results, compensation_for,
  submission_check, outcome_of, score_round, points_for_rank, final_score,
}
use emoselfie_be.Domain.Scoring.Population.{outcome_of_ok}

abbrev score_of : RoundSubmission → ℕ
score_of s = or_else s.target_score 0

abbrev time_of : RoundSubmission → ℕ
time_of s = or_else s.received_at_ms 0

-- The higher score comes first, then the earlier receive time, then the smaller id.
abbrev pub Precedes : RoundSubmission → RoundSubmission → Type 0
Precedes a b =
    (or_else b.target_score 0 < or_else a.target_score 0)
    ⊎ (or_else a.target_score 0 ≡ or_else b.target_score 0)
      × ((or_else a.received_at_ms 0 < or_else b.received_at_ms 0)
          ⊎ (or_else a.received_at_ms 0 ≡ or_else b.received_at_ms 0)
            × (a.participant_id ≤ b.participant_id))

Precedes-of_Before : (a b : RoundSubmission) → Before order_key a b → Precedes a b
unfolding order_key lex_leb
Precedes-of_Before a b h = ground arith

sorted-Precedes : (ss : List RoundSubmission) → AllPairs Precedes (sort_by order_key ss)
sorted-Precedes ss =
    AllPairs-of_Pairwise Precedes (Pairwise.imp Precedes-of_Before (sort_by-IsSorted order_key ss))

outcome_of_counted :
    (ss : List RoundSubmission)
    → (outcome_of ss).voided ≡ false
    → (outcome_of ss).results
      ≡ ranked_results ss ++ unranked_results (compensation_for (ranked_results ss)) ss
unfolding outcome_of
outcome_of_counted ss h = ground arith

prefix_counted :
    (ss : List RoundSubmission)
    → (outcome_of ss).voided ≡ false
    → let sorted = sort_by order_key (keep is_ranked ss) in
      take (length sorted) (outcome_of ss).results ≡ enumerate ranked_result 1 sorted
unfolding ranked_results
prefix_counted ss h =
    let sorted = sort_by order_key (keep is_ranked ss) in
    rw (outcome_of_counted ss h, ← length-enumerate ranked_result 1 sorted) (take-append _ _)

-- In a round that is not voided the results begin with the scored and the faceless photos, in
-- the order of the higher score, then the earlier receive time, then the smaller id, and the
-- place in that order is the rank, counted from 1.
pub score_round-Precedes :
    (ss : List RoundSubmission) (o : RoundOutcome)
    → score_round ss ≡ ok o
    → o.voided ≡ false
    → (order : List RoundSubmission) × Perm order (keep is_ranked ss)
      × AllPairs Precedes order
      × (take (length order) o.results ≡ enumerate ranked_result 1 order)
score_round-Precedes ss o h counted = (
  sort_by order_key (keep is_ranked ss),
  sort_by-perm order_key (keep is_ranked ss),
  sorted-Precedes (keep is_ranked ss),
  subst
      (λ x.
        x.voided ≡ false
        → take (length (sort_by order_key (keep is_ranked ss))) x.results
          ≡ enumerate ranked_result 1 (sort_by order_key (keep is_ranked ss)))
      (outcome_of_ok ss h) (prefix_counted ss) counted,
)

-- What the model of the constructor accepts.
abbrev pub IsValid : RoundSubmission → Type 0
IsValid s = submission_check s ≡ ok tt

-- An earlier result has the smaller rank, no smaller score, and, if it shows a face, no fewer
-- points; a result with no rank stands behind all that have one.
abbrev pub Outranks : Option ℕ → Option ℕ → ScoredSubmission → ScoredSubmission → Type 0
Outranks (some i) (some j) a b =
    (i < j)
    × (or_else b.target_score 0 ≤ or_else a.target_score 0)
    × (is_no_face a.status ≡ false → b.rank_points ≤ a.rank_points)
Outranks none (some j) a b = ⊥
Outranks _ none a b = Unit

abbrev pub IsOver : ScoredSubmission → ScoredSubmission → Type 0
IsOver a b = Outranks a.rank b.rank a b

final_score-valid : (s : RoundSubmission) → IsValid s → or_else (final_score s) 0 ≡ score_of s
unfolding final_score submission_check
final_score-valid s h = ground arith

points_for_rank_mono :
    (i j : ℕ) → 1 ≤ i → i < j → points_for_rank j ≤ points_for_rank i × (30 ≤ points_for_rank i)
unfolding points_for_rank
points_for_rank_mono i j one lt = (ground arith, ground arith)

ranked-IsOver :
    (i j : ℕ) (a b : RoundSubmission)
    → 1 ≤ i
    → i < j
    → IsValid a × IsValid b × Precedes a b
    → IsOver (ranked_result i a) (ranked_result j b)
unfolding ranked_result
ranked-IsOver i j a b one lt (va, vb, p) = (
  lt,
  rw (final_score-valid a va, final_score-valid b vb) (omega arith),
  λ face. ground (arith, points_for_rank_mono i j one lt),
)

unranked-IsOver :
    (c : ℕ) (r : ScoredSubmission) (s : RoundSubmission) → IsOver r (unranked_result c s)
unfolding unranked_result
unranked-IsOver c r s = by_rank r.rank
  where
    by_rank : (k : Option ℕ) → Outranks k none r (unranked_result c s)
    by_rank none = tt
    by_rank (some i) = tt

module _ (ss : List RoundSubmission) (valid : All IsValid ss) where
  ranked_results-IsOver : AllPairs IsOver (ranked_results ss)
  unfolding ranked_results
  ranked_results-IsOver =
      let sorted = sort_by order_key (keep is_ranked ss) in
      AllPairs-enumerate (λ a b. IsValid a × IsValid b × Precedes a b) IsOver ranked_result 1 1
        sorted (omega arith) ranked-IsOver
        (AllPairs-both IsValid Precedes sorted
          (All-sort_by IsValid order_key (keep is_ranked ss)
            (All-keep_of IsValid is_ranked ss valid))
          (sorted-Precedes (keep is_ranked ss)))

  counted-IsOver : (c : ℕ) → AllPairs IsOver (ranked_results ss ++ unranked_results c ss)
  unfolding unranked_results
  counted-IsOver c =
      let rest = sort_by id_key (keep is_unranked ss) in
      AllPairs-append IsOver (ranked_results ss) (map (unranked_result c) rest)
        ranked_results-IsOver (behind rest)
        (All-of_forall (λ r. All (IsOver r) (map (unranked_result c) rest)) (λ r. over r rest)
          (ranked_results ss))
    where
      over :
          (r : ScoredSubmission) (xs : List RoundSubmission)
          → All (IsOver r) (map (unranked_result c) xs)
      over r xs =
          All-map (λ s. Unit {0}) (IsOver r) (unranked_result c) xs (λ s _. unranked-IsOver c r s)
            (All-of_forall (λ s. Unit {0}) (λ s. tt) xs)

      behind : (xs : List RoundSubmission) → AllPairs IsOver (map (unranked_result c) xs)
      behind [] = tt
      behind (x ∷ xs) = (over (unranked_result c x) xs, behind xs)

-- In a round of valid submissions that is not voided every result stands over those behind it: ranked before unranked,
-- ranks rising, scores never rising, and no photo with a face earns less than a later one.
pub score_round-IsOver :
    (ss : List RoundSubmission) (o : RoundOutcome)
    → All IsValid ss
    → score_round ss ≡ ok o
    → o.voided ≡ false
    → AllPairs IsOver o.results
score_round-IsOver ss o valid h =
    subst (λ x. x.voided ≡ false → AllPairs IsOver x.results) (outcome_of_ok ss h)
      (λ e. rw (outcome_of_counted ss e) (counted-IsOver ss valid _))
