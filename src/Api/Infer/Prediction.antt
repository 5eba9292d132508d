-- ===== src/Api/Infer/Prediction.antt =====
-- `infer`: the emotion that is predicted from a result that `EmotionResult` accepts.
use emoselfie_be.Prelude.{ℕ, ◌≡◌, Bool, true, false, ◌||◌, Option, none, some, List, [], ◌∷◌, All}
use emoselfie_be.Core.Errors.{ok}
use emoselfie_be.Domain.Enums.{EmotionLabel}
use emoselfie_be.Domain.Scoring.{Float}
use emoselfie_be.Inference.Results.{Probabilities, most_places, score_labels, same_label}
use emoselfie_be.Inference.Payloads.{NoHigher}
use emoselfie_be.Api.Infer.{InferenceResponse, score_of, no_prediction}

abbrev has_label : EmotionLabel → Probabilities → Bool
has_label l [] = false
has_label l (x ∷ d) = same_label l x.0 || has_label l d

-- Every label gets its score, and the prediction is a label that none is more probable than, with
-- its score.
abbrev pub IsPredicted : EmotionLabel × Float → Probabilities → InferenceResponse → Type 0
IsPredicted x d response =
    (top : EmotionLabel × Float) × (t : ℕ) × (scores : List (EmotionLabel × ℕ)) × (score_labels
        (x ∷ d)
      ≡ ok scores)
    × All (NoHigher (most_places (x ∷ d)) top) (x ∷ d)
    × (score_of top.0 scores ≡ some t)
    × (response ≡ record {
      face_detected = true;
      prediction = some (record { label = top.0; score = t });
      scores = some scores;
    })

abbrev pub IsAnswer : Option Probabilities → InferenceResponse → Type 0
IsAnswer none response = response ≡ no_prediction
IsAnswer (some []) response = ⊥
IsAnswer (some (x ∷ d)) response = IsPredicted x d response
