-- ===== src/Inference/Results.antt =====
-- app/inference/protocol.py: `EmotionResult` and its validation; and what a round and the route for
-- demonstrations make of it (app/domain/round/runner.py, app/api/inference.py). A float stands for
-- its shortest decimal, and sums of floats are exact here.
use emoselfie_be.Prelude.{
  ℕ, ◌+◌, ◌-◌, ◌*◌, ◌^◌, max, Bool, false, not, ◌&&◌, Option, none, some, List, [], ◌∷◌, leb, ◌==◌,
  if◌then◌else◌, is_some, ℤ, pos, negsuc, neg, take, all,
}
use emoselfie_be.Prelude.Sort.{sort_by}
use emoselfie_be.Core.Errors.{Result, ok, err, value_error, ensure, ◌>>=◌, ◌>>◌, or_error}
use emoselfie_be.Domain.Enums.{
  EmotionLabel, happy, sad, angry, surprise, neutral, disgust, fear, submitted, no_face,
}
use emoselfie_be.Domain.Scoring.{Float, not_finite, decimal, target_score}
use emoselfie_be.Domain.Keys.{Payload}

abbrev pub Probabilities : Type 0
Probabilities = List (EmotionLabel × Float)

pub record EmotionResult : Type 0 where
  pub face_detected : Bool
  pub probabilities : Option Probabilities
  -- x, y, width and height
  pub face_box : Option (ℤ × ℤ × ℤ × ℤ)

abbrev pub code_of : EmotionLabel → ℕ
code_of e = elim e [
  | happy ↦ 0
  | sad ↦ 1
  | angry ↦ 2
  | surprise ↦ 3
  | neutral ↦ 4
  | disgust ↦ 5
  | fear ↦ 6
]

abbrev pub same_label : EmotionLabel → EmotionLabel → Bool
same_label a b = code_of a == code_of b

abbrev pub labels : List EmotionLabel
labels = happy ∷ sad ∷ angry ∷ surprise ∷ neutral ∷ disgust ∷ fear ∷ []

-- `d[label]`
abbrev pub probability_of : EmotionLabel → Probabilities → Option Float
probability_of e [] = none
probability_of e ((l, v) ∷ d) = if same_label e l then some v else probability_of e d

-- `Probability`
unfoldable pub is_probability : Float → Bool
is_probability not_finite = false
is_probability (decimal (negsuc _) places) = false
is_probability (decimal (pos n) places) = leb n (10 ^ places)

-- The digits of a float over a power of ten that is at least its own.
abbrev pub scaled : ℕ → Float → ℕ
scaled m v = elim v [ decimal (pos n) places ↦ n * 10 ^ (m - places) | _ ↦ 0 ]

abbrev pub places_of : Float → ℕ
places_of v = elim v [ not_finite ↦ 0 | decimal n places ↦ places ]

abbrev pub most_places : Probabilities → ℕ
most_places [] = 0
most_places ((_, v) ∷ d) = max (places_of v) (most_places d)

abbrev pub scaled_sum : ℕ → Probabilities → ℕ
scaled_sum m [] = 0
scaled_sum m ((_, v) ∷ d) = scaled m v + scaled_sum m d

-- `math.isclose(sum(...), 1.0, abs_tol=1e-6)`: the relative tolerance of 1e-9 is less for sums to 7.
unfoldable pub sums_to_one : Probabilities → Bool
sums_to_one d =
    let one = 10 ^ most_places d in
    let total = scaled_sum (most_places d) d in
    leb (1000000 * total) (1000000 * one + one) && leb (1000000 * one) (1000000 * total + one)

-- The keys of a dict are different, so they are all labels exactly if each label is among them.
abbrev pub has_all_labels : Probabilities → Bool
has_all_labels d = all (λ e. is_some (probability_of e d)) labels

abbrev pub valid_values : Probabilities → Bool
valid_values d = all (λ (_, v). is_probability v) d

-- The constructor of `EmotionResult`: the types of its fields, and `validate_result`.
unfoldable pub result_check : EmotionResult → Result (Unit {0})
unfolding is_probability sums_to_one
result_check r = elim r.probabilities [
  | none ↦ ensure (not r.face_detected && not (is_some r.face_box)) value_error
  | some d ↦
      (ensure (valid_values d) value_error
        >> (ensure r.face_detected value_error
            >> ensure (has_all_labels d && sums_to_one d) value_error))
]

-- `key=lambda item: -item[1]`
abbrev pub falling : ℕ → EmotionLabel × Float → List ℤ
falling m (_, v) = neg (scaled m v) ∷ []

unfoldable pub ranked_labels : Probabilities → Probabilities
unfolding sort_by
ranked_labels d = sort_by (falling (most_places d)) d

unfoldable pub score_labels : Probabilities → Result (List (EmotionLabel × ℕ))
unfolding target_score
score_labels [] = ok []
score_labels ((l, v) ∷ d) = do t ← target_score v; rest ← score_labels d; ok ((l, t) ∷ rest)

abbrev pub no_face_payload : Payload
no_face_payload = record { status = no_face; target_score = some 0; top_emotions = none }

-- `_result_payload`, where there are probabilities.
unfoldable pub scored_payload : Probabilities → EmotionLabel → Result Payload
unfolding target_score ranked_labels score_labels
scored_payload d target = do
  v ← or_error (probability_of target d) (err value_error)
  t ← target_score v
  top ← score_labels (take 3 (ranked_labels d))
  ok (record { status = submitted; target_score = some t; top_emotions = some top })

unfoldable pub result_payload : EmotionResult → EmotionLabel → Result Payload
unfolding scored_payload
result_payload r target = elim r.probabilities [
  | none ↦ ok no_face_payload
  | some d ↦ if r.face_detected then scored_payload d target else ok no_face_payload
]
