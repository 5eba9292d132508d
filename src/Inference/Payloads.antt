-- ===== src/Inference/Payloads.antt =====
-- `_result_payload` on the results that `EmotionResult` accepts.
use mathlib.Core.List.{Perm}
use mathlib.Core.List.Pairwise
use emoselfie_be.Prelude.{
  ℕ, ◌≤◌, ◌≡◌, refl, ap, Bool, true, false, not, ◌&&◌, if◌then◌else◌, Option, none, some, List, [],
  ◌∷◌, ◌++◌, arith, length, take, is_some, zero, suc, Bool-cases, inl, inr, pos, negsuc, neg, All,
  length-perm,
}
use emoselfie_be.Prelude.Every.{AllPairs, AllPairs-of_Pairwise, All-sort_by}
use emoselfie_be.Prelude.Sort.{sort_by, lex_leb, sort_by-perm, sort_by-IsSorted}
use emoselfie_be.Core.Errors.{Result, ok, err, value_error, ensure, >>-eq-ok, ◌>>◌}
use emoselfie_be.Domain.Enums.{EmotionLabel, submitted}
use emoselfie_be.Domain.Keys.{Payload}
use emoselfie_be.Domain.Scoring.{Float, not_finite, decimal, target_score}
use emoselfie_be.Domain.Scoring.Rounding.{target_score-Scores, Scores}
use emoselfie_be.Domain.Inflight.Reading.{IsPayload}
use emoselfie_be.Inference.Results.{
  EmotionResult, Probabilities, result_check, valid_values, sums_to_one, has_all_labels,
  probability_of, same_label, is_probability, ranked_labels, falling, most_places, scaled,
  score_labels, result_payload, scored_payload, no_face_payload,
}

-- A probability gets a score from 0.0 to 100.0.
target_score-ok :
    (v : Float) → is_probability v ≡ true → (t : ℕ) × (target_score v ≡ ok t) × (t ≤ 1000)
unfolding is_probability
target_score-ok not_finite h = absurd cc
target_score-ok (decimal (negsuc n) k) h = absurd cc
target_score-ok (decimal (pos n) k) h =
    by_score (target_score (decimal (pos n) k)) (target_score-Scores (decimal (pos n) k))
  where
    by_score : (r : Result ℕ) → Scores (decimal (pos n) k) r → (t : ℕ) × (r ≡ ok t) × (t ≤ 1000)
    by_score (ok t) s = (t, refl, s.1.2)
    by_score (err e) s = absurd (s.1 (ground arith))

pub score_labels-ok :
    (d : Probabilities)
    → All (λ x. is_probability x.1 ≡ true) d
    → (top : List (EmotionLabel × ℕ)) × (score_labels d ≡ ok top)
unfolding score_labels
score_labels-ok [] h = ([], refl)
score_labels-ok ((l, v) ∷ d) h =
    let (t, e, _) = target_score-ok v h.0 in
    let (top, f) = score_labels-ok d h.1 in ((l, t) ∷ top, rw (e, f))

pub valid-All : (d : Probabilities) → valid_values d ≡ true → All (λ x. is_probability x.1 ≡ true) d
valid-All [] h = tt
valid-All ((l, v) ∷ d) h = let rest = valid-All d in ground arith

All-take {ℓ κ} : {A : Type ℓ} (P : A → Type κ) (n : ℕ) (xs : List A) → All P xs → All P (take n xs)
All-take P zero xs h = tt
All-take P (suc n) [] h = tt
All-take P (suc n) (x ∷ xs) h = (h.0, All-take P n xs h.1)

probability_of-All :
    (e : EmotionLabel) (d : Probabilities)
    → is_some (probability_of e d) ≡ true
    → All (λ x. is_probability x.1 ≡ true) d
    → (v : Float) × (probability_of e d ≡ some v) × (is_probability v ≡ true)
probability_of-All e [] s h = absurd cc
probability_of-All e ((l, v) ∷ d) s h = elim (Bool-cases (same_label e l)) [
  | inl y ↦ rw y (v, refl, h.0)
  | inr n ↦ rw n (probability_of-All e d (rw n at s) h.1)
]

any_label :
    (e : EmotionLabel) (d : Probabilities)
    → has_all_labels d ≡ true
    → is_some (probability_of e d) ≡ true
any_label EmotionLabel.happy d h = ground arith
any_label EmotionLabel.sad d h = ground arith
any_label EmotionLabel.angry d h = ground arith
any_label EmotionLabel.surprise d h = ground arith
any_label EmotionLabel.neutral d h = ground arith
any_label EmotionLabel.disgust d h = ground arith
any_label EmotionLabel.fear d h = ground arith

three_labels : (d : Probabilities) → has_all_labels d ≡ true → 3 ≤ length d
three_labels [] h = absurd cc
three_labels ((a, v) ∷ []) h = absurd (ground arith)
three_labels ((a, v) ∷ (b, w) ∷ []) h = absurd (ground arith)
three_labels (_ ∷ _ ∷ _ ∷ d) h = omega arith

-- No item behind another is the more probable one.
abbrev pub NoHigher : ℕ → EmotionLabel × Float → EmotionLabel × Float → Type 0
NoHigher m x y = scaled m y.1 ≤ scaled m x.1

-- `top` scores three labels of `d`, in falling order, and the other labels are no more probable.
abbrev pub IsTop : Probabilities → List (EmotionLabel × ℕ) → Type 0
IsTop d top =
    (first : Probabilities) × (rest : Probabilities) × Perm (first ++ rest) d
    × AllPairs (NoHigher (most_places d)) (first ++ rest)
    × (length first ≡ 3)
    × (score_labels first ≡ ok top)

abbrev drop {ℓ} : {A : Type ℓ} → ℕ → List A → List A
drop zero xs = xs
drop (suc n) [] = []
drop (suc n) (x ∷ xs) = drop n xs

take-append-drop {ℓ} : {A : Type ℓ} (n : ℕ) (xs : List A) → take n xs ++ drop n xs ≡ xs
take-append-drop zero xs = refl
take-append-drop (suc n) [] = refl
take-append-drop (suc n) (x ∷ xs) = ap (◌∷◌ x) (take-append-drop n xs)

length-take {ℓ} : {A : Type ℓ} (n : ℕ) (xs : List A) → n ≤ length xs → length (take n xs) ≡ n
length-take zero xs h = refl
length-take (suc n) [] h = absurd (omega arith)
length-take (suc n) (x ∷ xs) h = omega (arith, length-take n xs)

lex_leb-neg : (a b : ℕ) → lex_leb (neg a ∷ []) (neg b ∷ []) ≡ true → b ≤ a
unfolding lex_leb
lex_leb-neg a b h = ground arith

falling-NoHigher :
    (m : ℕ) (x y : EmotionLabel × Float)
    → lex_leb (falling m x) (falling m y) ≡ true
    → NoHigher m x y
falling-NoHigher m (l, v) (k, w) h = lex_leb-neg (scaled m v) (scaled m w) h

ranked_labels-IsTop :
    (d : Probabilities)
    → valid_values d ≡ true
    → has_all_labels d ≡ true
    → (top : List (EmotionLabel × ℕ)) × (score_labels (take 3 (ranked_labels d)) ≡ ok top)
      × IsTop d top
unfolding ranked_labels
ranked_labels-IsTop d valid full =
    let key = falling (most_places d) in
    let ranked = sort_by key d in
    let (top, e) = score_labels-ok (take 3 ranked) (
      All-take (λ x. is_probability x.1 ≡ true) 3 ranked
        (All-sort_by (λ x. is_probability x.1 ≡ true) key d (valid-All d valid))) in
    let whole = take-append-drop 3 ranked in
    let long : 3 ≤ length ranked =
      omega (arith, length-perm (sort_by-perm key d), three_labels d full) in
    (
      top,
      e,
      (
        take 3 ranked,
        drop 3 ranked,
        rw whole (sort_by-perm key d),
        rw whole (
            AllPairs-of_Pairwise (NoHigher (most_places d)) (
              Pairwise.imp (λ x y. falling-NoHigher (most_places d) x y) (sort_by-IsSorted key d))),
        length-take 3 ranked long,
        e,
      ),
    )

-- What a round records of a result: a face with its score and its top three, or no face and 0.0.
abbrev pub IsJudged : EmotionLabel → Payload → Option Probabilities → Type 0
IsJudged target p none = p ≡ no_face_payload
IsJudged target p (some d) =
    (v : Float) × (t : ℕ) × (top : List (EmotionLabel × ℕ)) × (probability_of target d ≡ some v)
    × (target_score v ≡ ok t)
    × IsTop d top
    × (p ≡ record { status = submitted; target_score = some t; top_emotions = some top })

scored_payload-ok :
    (d : Probabilities) (target : EmotionLabel)
    → valid_values d ≡ true
    → has_all_labels d ≡ true
    → (p : Payload) × (scored_payload d target ≡ ok p) × IsPayload p × IsJudged target p (some d)
unfolding scored_payload
scored_payload-ok d target valid full =
    let (v, here, good) =
      probability_of-All target d (any_label target d full) (valid-All d valid) in
    let (t, scored, small) = target_score-ok v good in
    let (top, read, best) = ranked_labels-IsTop d valid full in
    (
      record { status = submitted; target_score = some t; top_emotions = some top },
      rw (here, scored, read) refl,
      (refl, (λ s. refl), small),
      (v, t, top, here, scored, best, refl),
    )

-- Every result that `EmotionResult` accepts gives a payload that finalizing can read: without a
-- face the score is 0.0; with one it is the score of the target emotion, and the top emotions are
-- the scores of three labels in falling order, none of the others being more probable.
pub result_payload-ok :
    (r : EmotionResult) (target : EmotionLabel)
    → result_check r ≡ ok tt
    → (p : Payload) × (result_payload r target ≡ ok p)
      × IsPayload p
      × IsJudged target p r.probabilities
unfolding result_check result_payload
result_payload-ok r target h = by_probabilities r.probabilities r.face_detected h
  where
    by_probabilities :
        (o : Option Probabilities) (detected : Bool)
        → ◌≡◌ {A = Result (Unit {0})}
            (elim o [
              | none ↦ ensure (not detected && not (is_some r.face_box)) value_error
              | some d ↦
                  (ensure (valid_values d) value_error
                    >> (ensure detected value_error
                        >> ensure (has_all_labels d && sums_to_one d) value_error))
            ])
            (ok tt)
        → (p : Payload) × (◌≡◌ {A = Result Payload}
            (elim o [
              | none ↦ ok no_face_payload
              | some d ↦ if detected then scored_payload d target else ok no_face_payload
            ])
            (ok p))
          × IsPayload p
          × IsJudged target p o
    by_probabilities none detected e = (no_face_payload, refl, (refl, (λ s. cc), omega arith), refl)
    by_probabilities (some d) true e =
        let (valid, e₁) = >>-eq-ok (valid_values d) value_error _ e in
        scored_payload-ok d target valid (ground arith)
    by_probabilities (some d) false e =
        let (valid, e₁) = >>-eq-ok (valid_values d) value_error _ e in absurd cc
