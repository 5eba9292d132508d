-- ===== src/Api/Infer.antt =====
-- app/api/inference.py: `infer`, from the engine's answer on. Its rate limit is `enforce_limit`, and its
-- body is read as an upload's is.
pub mod Prediction
use emoselfie_be.Prelude.{
  ℕ, ◌+◌, ◌≤◌, ◌≡◌, refl, ◌∙◌, ap, Bool, true, false, not, ◌&&◌, Option, none, some, List, [], ◌∷◌,
  arith, ltb, leb, if◌then◌else◌, is_some, Bool-cases, inl, inr, All,
}
use emoselfie_be.Core.Errors.{
  Result, ok, err, app, value_error, service_unavailable, ensure, ◌>>=◌, ◌>>◌, or_error,
}
use emoselfie_be.Domain.Enums.{EmotionLabel}
use emoselfie_be.Domain.Scoring.{Float, target_score}
use emoselfie_be.Inference.Results.{
  EmotionResult, Probabilities, result_check, scaled, most_places, score_labels, same_label,
}

pub record EmotionScore : Type 0 where
  pub label : EmotionLabel
  pub score : ℕ

pub record InferenceResponse : Type 0 where
  pub face_detected : Bool
  pub prediction : Option EmotionScore
  pub scores : Option (List (EmotionLabel × ℕ))

-- `max(d, key=d.__getitem__)` of a dict with a first item: the first of the greatest.
abbrev pub most_probable : ℕ → EmotionLabel × Float → Probabilities → EmotionLabel × Float
most_probable m best [] = best
most_probable m best (x ∷ d) =
    most_probable m (if ltb (scaled m best.1) (scaled m x.1) then x else best) d

abbrev pub score_of : EmotionLabel → List (EmotionLabel × ℕ) → Option ℕ
score_of l [] = none
score_of l ((k, t) ∷ d) = if same_label l k then some t else score_of l d

-- The response to probabilities.
unfoldable pub predict : Probabilities → Result InferenceResponse
unfolding score_labels
predict [] = err value_error
predict (x ∷ d) = do
  scores ← score_labels (x ∷ d)
  let (top, _) = most_probable (most_places (x ∷ d)) x d
  t ← or_error (score_of top scores) (err value_error)
  ok (record {
    face_detected = true;
    prediction = some (record { label = top; score = t });
    scores = some scores;
  })

abbrev pub no_prediction : InferenceResponse
no_prediction = record { face_detected = false; prediction = none; scores = none }

unfoldable pub respond : EmotionResult → Result InferenceResponse
unfolding predict
respond r = elim r.probabilities [
  | none ↦ ok no_prediction
  | some d ↦ if r.face_detected then predict d else ok no_prediction
]

-- The engine's answer is a result, or none where it raised an `InferenceError`. It is asked only once the
-- process is initialized.
unfoldable pub infer : Bool → Option (Option EmotionResult) → Result InferenceResponse
unfolding respond
infer initialized none = err (app service_unavailable)
infer false (some answer) = err (app service_unavailable)
infer true (some none) = err (app service_unavailable)
infer true (some (some r)) = respond r
