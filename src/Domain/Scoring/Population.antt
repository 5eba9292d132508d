-- ===== src/Domain/Scoring/Population.antt =====
-- `score_round`: who stands in the outcome of a round, and what it depends on.
use mathlib.Core.List.{Perm, Nodup, map-append}
use mathlib.Core.List.Perm
use emoselfie_be.Prelude.{
  ℕ, ◌+◌, ◌≡◌, refl, sym, ap, ◌∙◌, List, [], ◌∷◌, ◌++◌, map, arith, ◌==◌, ==_iff, ==_refl,
  Bool-cases, inl, inr, length, keep, enumerate, keep-perm, keep-perm_congr, all-perm,
  nonempty-perm, length-map, keep-Nodup-map, Nodup-map_inj,
}
use emoselfie_be.Prelude.Sets.{
  set_of, IsDistinct, IsDistinct-of_length, IsDistinct-cases, IsDistinct-Nodup, Nodup-IsDistinct,
  length-set_of,
}
use emoselfie_be.Prelude.Sort.{sort_by, sort_by-perm, sort_by-eq_of_perm}
use emoselfie_be.Core.Errors.{Result, ok, err, value_error}
use emoselfie_be.Domain.Enums.{is_failed}
use emoselfie_be.Domain.Scoring.{
  RoundSubmission, ScoredSubmission, RoundOutcome, ids, order_key, id_key, is_ranked, is_unranked,
  is_voided_round, voided_result, ranked_result, unranked_result, ranked_results, unranked_results,
  compensation_for, outcome_of, score_round, in_submitted_statuses,
}

abbrev pub result_ids : List ScoredSubmission → List ℕ
result_ids = map (λ r. r.participant_id)

result_ids-voided : (ss : List RoundSubmission) → result_ids (map voided_result ss) ≡ ids ss
unfolding voided_result
result_ids-voided [] = refl
result_ids-voided (s ∷ ss) = ap (◌∷◌ s.participant_id) (result_ids-voided ss)

result_ids-enumerate :
    (n : ℕ) (ss : List RoundSubmission) → result_ids (enumerate ranked_result n ss) ≡ ids ss
unfolding ranked_result
result_ids-enumerate n [] = refl
result_ids-enumerate n (s ∷ ss) = ap (◌∷◌ s.participant_id) (result_ids-enumerate (n + 1) ss)

result_ids-unranked :
    (c : ℕ) (ss : List RoundSubmission) → result_ids (map (unranked_result c) ss) ≡ ids ss
unfolding unranked_result
result_ids-unranked c [] = refl
result_ids-unranked c (s ∷ ss) = ap (◌∷◌ s.participant_id) (result_ids-unranked c ss)

scored-perm :
    (c : ℕ) (ss : List RoundSubmission)
    → Perm (result_ids (ranked_results ss ++ unranked_results c ss)) (ids ss)
unfolding ranked_results unranked_results
scored-perm c ss =
    rw
      (
        map-append,
        result_ids-enumerate 1 (sort_by order_key (keep is_ranked ss)),
        result_ids-unranked c (sort_by id_key (keep is_unranked ss)),
      )
      (Perm.trans
        (Perm.append (Perm.map (λ s. s.participant_id) (sort_by-perm order_key (keep is_ranked ss)))
          (Perm.map (λ s. s.participant_id) (sort_by-perm id_key (keep is_unranked ss))))
        (rw
          (← map-append (λ (s : RoundSubmission). s.participant_id) (keep is_ranked ss)
            (keep is_unranked ss))
          (Perm.map (λ s. s.participant_id) (keep-perm is_ranked ss))))

-- Every participant who is listed gets exactly one result, and nobody else gets one.
pub outcome_of-perm :
    (ss : List RoundSubmission) → Perm (result_ids (outcome_of ss).results) (ids ss)
unfolding outcome_of
outcome_of-perm ss = elim (Bool-cases (is_voided_round ss)) [
  | inl v ↦
      rw (v, result_ids-voided (sort_by id_key ss))
        (Perm.map (λ s. s.participant_id) (sort_by-perm id_key ss))
  | inr n ↦ rw n (scored-perm (compensation_for (ranked_results ss)) ss)
]

abbrev pub Covers : List RoundSubmission → Result RoundOutcome → Type 0
Covers ss (ok o) = IsDistinct (ids ss) × Perm (result_ids o.results) (ids ss)
Covers ss (err e) = (e ≡ value_error) × (¬ IsDistinct (ids ss))

IsDistinct-length :
    (ss : List RoundSubmission) → IsDistinct (ids ss) → length (set_of (ids ss)) ≡ length ss
IsDistinct-length ss h = length-set_of (ids ss) h ∙ length-map _ ss

-- `score_round` refuses a list that names a participant twice, and only that; otherwise every
-- listed participant gets exactly one result, and nobody else gets one.
pub score_round-Covers : (ss : List RoundSubmission) → Covers ss (score_round ss)
unfolding score_round
score_round-Covers ss = elim (Bool-cases (length (set_of (ids ss)) == length ss)) [
  | inl same ↦ rw same (
    IsDistinct-of_length (ids ss) ((==_iff _ _).0 same ∙ sym (length-map _ ss)),
    outcome_of-perm ss,
  )
  | inr other ↦ rw other (refl, λ h. let e = IsDistinct-length ss h in ground arith)
]

id_key-inj : (a b : RoundSubmission) → id_key a ≡ id_key b → a.participant_id ≡ b.participant_id
id_key-inj a b e = cc

order_key-inj :
    (a b : RoundSubmission) → order_key a ≡ order_key b → a.participant_id ≡ b.participant_id
unfolding order_key
order_key-inj a b e = cc

RoundSubmission-set : IsSet RoundSubmission
RoundSubmission-set = hlevel

module _ {ss ts : List RoundSubmission} (p : Perm ss ts) (distinct : IsDistinct (ids ss)) where
  is_voided_round-perm : is_voided_round ss ≡ is_voided_round ts
  unfolding is_voided_round
  is_voided_round-perm =
      let q = keep-perm_congr (λ s. in_submitted_statuses s.status) p in
      rw (nonempty-perm q, all-perm (λ s. is_failed s.status) q)

  all-Nodup : Nodup (ids ss)
  all-Nodup = IsDistinct-Nodup (ids ss) distinct

  sort_all-perm : sort_by id_key ss ≡ sort_by id_key ts
  sort_all-perm =
      sort_by-eq_of_perm id_key RoundSubmission-set p
        (Nodup-map_inj (λ s. s.participant_id) id_key id_key-inj ss all-Nodup)

  sort_ranked-perm : sort_by order_key (keep is_ranked ss) ≡ sort_by order_key (keep is_ranked ts)
  sort_ranked-perm =
      sort_by-eq_of_perm order_key RoundSubmission-set (keep-perm_congr is_ranked p) (
        keep-Nodup-map order_key is_ranked ss
          (Nodup-map_inj (λ s. s.participant_id) order_key order_key-inj ss all-Nodup))

  sort_unranked-perm : sort_by id_key (keep is_unranked ss) ≡ sort_by id_key (keep is_unranked ts)
  sort_unranked-perm =
      sort_by-eq_of_perm id_key RoundSubmission-set (keep-perm_congr is_unranked p) (
        keep-Nodup-map id_key is_unranked ss
          (Nodup-map_inj (λ s. s.participant_id) id_key id_key-inj ss all-Nodup))

  outcome_of-eq_of_perm : outcome_of ss ≡ outcome_of ts
  unfolding outcome_of ranked_results unranked_results
  outcome_of-eq_of_perm =
      rw (is_voided_round-perm, sort_all-perm, sort_ranked-perm, sort_unranked-perm)

pub score_round_distinct :
    (ss : List RoundSubmission) → IsDistinct (ids ss) → score_round ss ≡ ok (outcome_of ss)
unfolding score_round
score_round_distinct ss d = rw (IsDistinct-length ss d, ==_refl (length ss))

pub score_round_repeated :
    (ss : List RoundSubmission) → ¬ IsDistinct (ids ss) → score_round ss ≡ err value_error
unfolding score_round
score_round_repeated ss d = elim (Bool-cases (length (set_of (ids ss)) == length ss)) [
  | inl same ↦
      absurd (d (IsDistinct-of_length (ids ss) ((==_iff _ _).0 same ∙ sym (length-map _ ss))))
  | inr other ↦ rw other
]

ids-IsDistinct_perm :
    (ss ts : List RoundSubmission) → Perm ss ts → IsDistinct (ids ss) → IsDistinct (ids ts)
ids-IsDistinct_perm ss ts p d =
    Nodup-IsDistinct (ids ts)
      (Perm.nodup (Perm.map (λ s. s.participant_id) p) (IsDistinct-Nodup (ids ss) d))

-- The outcome depends on the submissions alone, and not on the order in which they were read:
-- ranks, points and the order of the results agree for every rearrangement.
pub score_round-perm : (ss ts : List RoundSubmission) → Perm ss ts → score_round ss ≡ score_round ts
score_round-perm ss ts p = elim (IsDistinct-cases (ids ss)) [
  | inl d ↦
      rw (score_round_distinct ss d, score_round_distinct ts (ids-IsDistinct_perm ss ts p d))
        (ap ok (outcome_of-eq_of_perm p d))
  | inr n ↦ rw (
    score_round_repeated ss n,
    score_round_repeated ts (λ d. n (ids-IsDistinct_perm ts ss (Perm.symm p) d)),
  )
]

-- A result of `score_round` is the outcome of its list.
pub outcome_of_ok :
    (ss : List RoundSubmission) {o : RoundOutcome} → score_round ss ≡ ok o → outcome_of ss ≡ o
outcome_of_ok ss h = elim (IsDistinct-cases (ids ss)) [
  | inl d ↦ let e = score_round_distinct ss d in cc
  | inr n ↦ let e = score_round_repeated ss n in cc
]
