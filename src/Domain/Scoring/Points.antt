-- ===== src/Domain/Scoring/Points.antt =====
-- `score_round`: the points that each participant gets.
use mathlib.Core.Path.{subst}
use emoselfie_be.Prelude.{
  ℕ, ◌*◌, ◌≤◌, ◌≡◌, refl, Bool, true, false, Option, none, some, List, [], ◌∷◌, arith, Bool-cases,
  inl, inr, length, keep, All, is_some, if◌then◌else◌,
}
use emoselfie_be.Prelude.Sort.{sort_by}
use emoselfie_be.Prelude.Every.{
  All-of_forall, All-append, All-sort_by, All-keep, All-map, All-enumerate,
}
use emoselfie_be.Core.Errors.{ok}
use emoselfie_be.Domain.Enums.{SubmissionStatus, submitted, no_face, failed, missed}
use emoselfie_be.Domain.Scoring.{
  RoundSubmission, ScoredSubmission, RoundOutcome, order_key, id_key, is_ranked, is_unranked,
  is_voided_round, voided_result, ranked_result, unranked_result, ranked_results, unranked_results,
  compensation_for, sum_points, outcome_of, score_round, points_for_rank,
}
use emoselfie_be.Domain.Scoring.Rounding.{round_half_up_between}
use emoselfie_be.Domain.Scoring.Population.{outcome_of_ok}

-- What a status earns in a round that counts: a rank and 30 to 100 points for a scored photo, a
-- rank and exactly 30 for no face, 30 to 100 without a rank for an engine failure, and nothing
-- for a miss.
abbrev pub Earns : SubmissionStatus → Option ℕ → ℕ → Type 0
Earns submitted rank p = (is_some rank ≡ true) × (30 ≤ p) × (p ≤ 100)
Earns no_face rank p = (is_some rank ≡ true) × (p ≡ 30)
Earns failed rank p = (rank ≡ none) × (30 ≤ p) × (p ≤ 100)
Earns missed rank p = (rank ≡ none) × (p ≡ 0)

abbrev pub IsFair : Bool → ScoredSubmission → Type 0
IsFair true r = (r.rank ≡ none) × (r.rank_points ≡ 0)
IsFair false r = Earns r.status r.rank r.rank_points

voided_result-IsFair : (s : RoundSubmission) → IsFair true (voided_result s)
unfolding voided_result
voided_result-IsFair s = (refl, refl)

ranked_result-IsFair :
    (i : ℕ) (s : RoundSubmission) → is_ranked s ≡ true → IsFair false (ranked_result i s)
unfolding ranked_result
ranked_result-IsFair i s h = by_status s.status h
  where
    by_status :
        (t : SubmissionStatus)
        → is_ranked (record s { status = t }) ≡ true
        → Earns t (some i) (if elim t [ no_face ↦ true | _ ↦ false ] then 30 else points_for_rank i)
    by_status submitted h = (refl, ground arith, ground arith)
    by_status no_face h = (refl, refl)
    by_status failed h = absurd (ground arith)
    by_status missed h = absurd (ground arith)

unranked_result-IsFair :
    (c : ℕ) (s : RoundSubmission)
    → 30 ≤ c
    → c ≤ 100
    → is_unranked s ≡ true
    → IsFair false (unranked_result c s)
unfolding unranked_result
unranked_result-IsFair c s low high h = by_status s.status h
  where
    by_status :
        (t : SubmissionStatus)
        → is_unranked (record s { status = t }) ≡ true
        → Earns t none (if elim t [ failed ↦ true | _ ↦ false ] then c else 0)
    by_status submitted h = absurd (ground arith)
    by_status no_face h = absurd (ground arith)
    by_status failed h = (refl, low, high)
    by_status missed h = (refl, refl)

abbrev InRange : ScoredSubmission → Type 0
InRange r = (30 ≤ r.rank_points) × (r.rank_points ≤ 100)

ranked_result-InRange : (i : ℕ) (s : RoundSubmission) → InRange (ranked_result i s)
unfolding ranked_result
ranked_result-InRange i s = ground arith

sum_points_bounds :
    (rs : List ScoredSubmission)
    → All InRange rs
    → (30 * length rs ≤ sum_points rs) × (sum_points rs ≤ 100 * length rs)
unfolding sum_points
sum_points_bounds [] h = omega arith
sum_points_bounds (r ∷ rs) h = omega (arith, sum_points_bounds rs h.1)

compensation_for_bounds :
    (rs : List ScoredSubmission)
    → All InRange rs
    → (30 ≤ compensation_for rs) × (compensation_for rs ≤ 100)
unfolding compensation_for
compensation_for_bounds [] h = omega arith
compensation_for_bounds (r ∷ rs) h =
    let (low, high) = sum_points_bounds (r ∷ rs) h in
    round_half_up_between 30 100 (sum_points (r ∷ rs)) (length (r ∷ rs)) (omega arith) low high

module _ (ss : List RoundSubmission) where
  ranked_results-IsFair : All (IsFair false) (ranked_results ss)
  unfolding ranked_results
  ranked_results-IsFair =
      All-enumerate (λ s. is_ranked s ≡ true) (IsFair false) ranked_result 1
        (sort_by order_key (keep is_ranked ss)) ranked_result-IsFair
        (All-sort_by (λ s. is_ranked s ≡ true) order_key (keep is_ranked ss)
          (All-keep is_ranked ss))

  ranked_results-InRange : All InRange (ranked_results ss)
  unfolding ranked_results
  ranked_results-InRange =
      let sorted = sort_by order_key (keep is_ranked ss) in
      All-enumerate (λ s. Unit {0}) InRange ranked_result 1 sorted
        (λ i s _. ranked_result-InRange i s) (All-of_forall (λ s. Unit {0}) (λ s. tt) sorted)

  unranked_results-IsFair : (c : ℕ) → 30 ≤ c → c ≤ 100 → All (IsFair false) (unranked_results c ss)
  unfolding unranked_results
  unranked_results-IsFair c low high =
      All-map (λ s. is_unranked s ≡ true) (IsFair false) (unranked_result c)
        (sort_by id_key (keep is_unranked ss)) (λ s. unranked_result-IsFair c s low high)
        (All-sort_by (λ s. is_unranked s ≡ true) id_key (keep is_unranked ss)
          (All-keep is_unranked ss))

  outcome_of-IsFair : All (IsFair (outcome_of ss).voided) (outcome_of ss).results
  unfolding outcome_of
  outcome_of-IsFair = elim (Bool-cases (is_voided_round ss)) [
    | inl v ↦ rw v (
        All-map (λ s. Unit {0}) (IsFair true) voided_result (sort_by id_key ss)
          (λ s _. voided_result-IsFair s)
          (All-of_forall (λ s. Unit {0}) (λ s. tt) (sort_by id_key ss)))
    | inr n ↦
        let (low, high) = compensation_for_bounds (ranked_results ss) ranked_results-InRange in
        rw n (
          All-append (IsFair false) (ranked_results ss) _ ranked_results-IsFair
            (unranked_results-IsFair (compensation_for (ranked_results ss)) low high))
  ]

-- In a voided round nobody gets points or a rank. In any other, a scored photo earns a rank and
-- 30 to 100 points, a photo with no face a rank and exactly 30, an engine failure 30 to 100 and
-- no rank, and a miss neither.
pub score_round-IsFair :
    (ss : List RoundSubmission) (o : RoundOutcome)
    → score_round ss ≡ ok o
    → All (IsFair o.voided) o.results
score_round-IsFair ss o h =
    subst (λ x. All (IsFair x.voided) x.results) (outcome_of_ok ss h) (outcome_of-IsFair ss)
