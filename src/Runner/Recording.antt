-- ===== src/Runner/Recording.antt =====
-- `_score` of app/domain/round/runner.py: what is recorded of an upload.
use emoselfie_be.Prelude.{
  ℕ, ◌≡◌, refl, ap, ◌∙◌, Bool, true, false, not, ◌==◌, Option, none, some, if◌then◌else◌, ==_refl,
}
use emoselfie_be.Prelude.Dict.{lookup, insert, lookup-insert}
use emoselfie_be.Db.{Round}
use emoselfie_be.Domain.Keys.{Payload, failed_payload}
use emoselfie_be.Domain.Store.{get_round}
use emoselfie_be.Domain.Inflight.{record_score}
use emoselfie_be.Domain.Lifecycle.{World, keys_of}
use emoselfie_be.Inference.Payloads.{IsJudged, result_payload-ok}
use emoselfie_be.Runner.{
  Verdict, classified, inference_error, timed_out, cancelled, judged, Attempt, with_score,
  score_payload,
}
use emoselfie_be.Runner.Flow.{IsGenuine}

pub keys_of-with_score :
    (w : World) (i p : ℕ) (a : Attempt)
    → keys_of i (with_score w i p a)
      ≡ record_score (keys_of i w) p (score_payload a (get_round i w.store))
unfolding with_score
keys_of-with_score w i p a = rw (lookup-insert i i _ w.keys, ==_refl i) refl

-- The score of an upload: what the engine's result says of the round's emotion, where the image can
-- be read and the engine has one, and else a failure.
abbrev pub IsScore : Round → Bool → Option Verdict → Payload → Type 0
IsScore current true (some (classified r)) p = IsJudged current.target_emotion p r.probabilities
IsScore current _ _ p = p ≡ failed_payload

-- Participant `p` has a score, and nothing else is changed.
abbrev pub IsRecorded : Round → ℕ → ℕ → Attempt → World → World → Type 0
IsRecorded current i p a w w₁ =
    ((payload : Payload) × IsScore current a.readable a.verdict payload
      × ((q : ℕ)
          → lookup q (keys_of i w₁).scores
            ≡ (if q == p then some payload else lookup q (keys_of i w).scores)))
    × ((keys_of i w₁).submitted ≡ (keys_of i w).submitted)
    × ((keys_of i w₁).viewers ≡ (keys_of i w).viewers)
    × ((j : ℕ) → (j == i) ≡ false → keys_of j w₁ ≡ keys_of j w)
    × (w₁.store ≡ w.store)
    × (w₁.timers ≡ w.timers)

score_payload-IsScore :
    (current : Round) (a : Attempt)
    → IsGenuine a.verdict
    → IsScore current a.readable a.verdict (score_payload a (some current))
unfolding score_payload judged
score_payload-IsScore current a genuine = by_parts a.readable a.verdict genuine
  where
    by_parts :
        (b : Bool) (v : Option Verdict)
        → IsGenuine v
        → IsScore current b v (
            if not b
            then failed_payload
            else elim v [ none ↦ failed_payload | some x ↦ judged (some current) x ])
    by_parts false v g = refl
    by_parts true none g = refl
    by_parts true (some (classified r)) g =
        let (p, e, _, good) = result_payload-ok r current.target_emotion g in rw e good
    by_parts true (some inference_error) g = refl
    by_parts true (some timed_out) g = refl
    by_parts true (some cancelled) g = refl

pub with_score-IsRecorded :
    (current : Round) (i p : ℕ) (a : Attempt) (w : World)
    → get_round i w.store ≡ some current
    → IsGenuine a.verdict
    → IsRecorded current i p a w (with_score w i p a)
unfolding with_score record_score
with_score-IsRecorded current i p a w found genuine =
    let here = keys_of-with_score w i p a in
    let payload = score_payload a (some current) in
    (
      (
        payload,
        score_payload-IsScore current a genuine,
        λ q.
            ap (λ k. lookup q k.scores) here
            ∙ ap (λ o. lookup q (insert p (score_payload a o) (keys_of i w).scores)) found
            ∙ lookup-insert q p payload (keys_of i w).scores,
      ),
      ap (λ k. k.submitted) here,
      ap (λ k. k.viewers) here,
      (λ j other. rw (lookup-insert j i _ w.keys, other) refl),
      refl,
      refl,
    )
