-- ===== src/Runner/Flow.antt =====
-- The keys of a round from its opening to its settlement: uploads, scores, the guard, reactions and
-- votes in any order.
use emoselfie_be.Prelude.{
  ℕ, ◌≡◌, refl, not, Bool, true, false, Option, none, some, List, arith, if◌then◌else◌, All,
}
use emoselfie_be.Prelude.Sets.{IsDistinct}
use emoselfie_be.Prelude.Dict.{lookup, has_key, lookup-insert}
use emoselfie_be.Core.Errors.{Result, ok, err}
use emoselfie_be.Db.{Round}
use emoselfie_be.Domain.Enums.{ReactionType, like, question}
use emoselfie_be.Domain.Keys.{Payload, failed_payload, RoundKeys, no_keys}
use emoselfie_be.Domain.Store.{Store}
use emoselfie_be.Domain.Inflight.{accept_submission, record_score, force_pending_failed}
use emoselfie_be.Domain.Inflight.Acceptance.{
  IsCoherent, no_keys-IsCoherent, accept_submission-IsCoherent, accept_submission-Attempt,
  Attempt as Accepts,
}
use emoselfie_be.Domain.Inflight.Guard.{
  record_score-IsCoherent, force_pending_failed-IsCoherent, lookup-force_pending_failed,
}
use emoselfie_be.Domain.Inflight.Reading.{IsPayload, IsPayloadAt, member_ids, or_failed-IsPayload}
use emoselfie_be.Domain.Reactions.{toggle_reaction, toggle_skip}
use emoselfie_be.Domain.Settlement.{Finalized, finalize_round}
use emoselfie_be.Domain.Settlement.Total.{HasBest, finalize_round-ok}
use emoselfie_be.Inference.Results.{result_check}
use emoselfie_be.Inference.Payloads.{result_payload-ok}
use emoselfie_be.Runner.{
  Verdict, classified, inference_error, timed_out, cancelled, Attempt, judged, score_payload,
}

-- A result went through the constructor of `EmotionResult`.
abbrev pub IsGenuine : Option Verdict → Type 0
IsGenuine (some (classified r)) = result_check r ≡ ok tt
IsGenuine _ = Unit

failed-IsPayload : IsPayload failed_payload
failed-IsPayload = (refl, (λ e. cc), omega arith)

judged-IsPayload : (o : Option Round) (v : Verdict) → IsGenuine (some v) → IsPayload (judged o v)
unfolding judged
judged-IsPayload none v g = failed-IsPayload
judged-IsPayload (some c) (classified r) g =
    let (p, e, good, _) = result_payload-ok r c.target_emotion g in rw e good
judged-IsPayload (some c) inference_error g = failed-IsPayload
judged-IsPayload (some c) timed_out g = failed-IsPayload
judged-IsPayload (some c) cancelled g = failed-IsPayload

pub score_payload-IsPayload :
    (a : Attempt) (o : Option Round) → IsGenuine a.verdict → IsPayload (score_payload a o)
unfolding score_payload
score_payload-IsPayload a o g = by_parts a.readable a.verdict g
  where
    by_parts :
        (b : Bool) (v : Option Verdict)
        → IsGenuine v
        → IsPayload (
            if not b
            then failed_payload
            else elim v [ none ↦ failed_payload | some x ↦ judged o x ])
    by_parts false v h = failed-IsPayload
    by_parts true none h = failed-IsPayload
    by_parts true (some x) h = judged-IsPayload o x h

-- The keys are coherent, and every score is one that settling can read.
abbrev pub KeysReady : RoundKeys → Type 0
KeysReady k = IsCoherent k × ((q : ℕ) → IsPayloadAt (lookup q k.scores))

if-IsPayloadAt :
    (b : Bool) (x y : Option Payload)
    → IsPayloadAt x
    → IsPayloadAt y
    → IsPayloadAt (if b then x else y)
if-IsPayloadAt true x y h i = h
if-IsPayloadAt false x y h i = i

pub record_score-KeysReady :
    (k : RoundKeys) (p : ℕ) (payload : Payload)
    → has_key p k.submitted ≡ true
    → IsPayload payload
    → KeysReady k
    → KeysReady (record_score k p payload)
unfolding record_score
record_score-KeysReady k p payload known good (c, h) = (
  unfold record_score in record_score-IsCoherent k p payload c known,
  λ q.
      rw (lookup-insert q p payload k.scores)
        (if-IsPayloadAt _ (some payload) (lookup q k.scores) good (h q)),
)

guard-KeysReady : (k : RoundKeys) → KeysReady k → KeysReady (force_pending_failed k).1
guard-KeysReady k (c, h) = (
  force_pending_failed-IsCoherent k c,
  λ q. rw (lookup-force_pending_failed k q) (
      if-IsPayloadAt _ (some _) (lookup q k.scores) (or_failed-IsPayload (lookup q k.scores) (h q))
        (h q)),
)

toggle_reaction-KeysReady :
    (k : RoundKeys) (submission_id actor_id : ℕ) (kind : ReactionType)
    → KeysReady k
    → KeysReady (toggle_reaction k submission_id actor_id kind).1
unfolding toggle_reaction
toggle_reaction-KeysReady k submission_id actor_id like (c, h) = (
  record {
    submitted_once = c.submitted_once;
    scored_once = c.scored_once;
    viewing_once = c.viewing_once;
    used = c.used;
    audience = c.audience;
    settled = c.settled;
  },
  h,
)
toggle_reaction-KeysReady k submission_id actor_id question (c, h) = (
  record {
    submitted_once = c.submitted_once;
    scored_once = c.scored_once;
    viewing_once = c.viewing_once;
    used = c.used;
    audience = c.audience;
    settled = c.settled;
  },
  h,
)

toggle_skip-KeysReady : (k : RoundKeys) (p : ℕ) → KeysReady k → KeysReady (toggle_skip k p).1
unfolding toggle_skip
toggle_skip-KeysReady k p (c, h) = (
  record {
    submitted_once = c.submitted_once;
    scored_once = c.scored_once;
    viewing_once = c.viewing_once;
    used = c.used;
    audience = c.audience;
    settled = c.settled;
  },
  h,
)

module _ (digest : List ℕ → List ℕ → List ℕ) where
  accept_submission-scores :
      (k : RoundKeys) (r : Round) (p t : ℕ) (token : Option (List ℕ)) (secret : List ℕ)
      → IsCoherent k
      → (accept_submission digest k r p t token secret).1.scores ≡ k.scores
  accept_submission-scores k r p t token secret c =
      by_attempt (accept_submission digest k r p t token secret)
        (accept_submission-Attempt digest k r p t token secret c)
    where
      by_attempt :
          (x : Result (Unit {0}) × RoundKeys)
          → Accepts digest k r p t token secret x
          → x.1.scores ≡ k.scores
      by_attempt (ok _, k') a = rw a.3 refl
      by_attempt (err e, k') a = rw a.0 refl

  -- What may happen to the keys of a round: an upload comes, the score of an accepted one is recorded,
  -- the guard fires, or a viewer reacts or votes.
  pub data Step : RoundKeys → RoundKeys → Type 0 where
    uploads :
        (k : RoundKeys) (r : Round) (p t : ℕ) (token : Option (List ℕ)) (secret : List ℕ)
        → Step k (accept_submission digest k r p t token secret).1
    scores :
        (k : RoundKeys) (o : Option Round) (p : ℕ) (a : Attempt)
        → has_key p k.submitted ≡ true
        → IsGenuine a.verdict
        → Step k (record_score k p (score_payload a o))
    guards : (k : RoundKeys) → Step k (force_pending_failed k).1
    reacts :
        (k : RoundKeys) (submission_id actor_id : ℕ) (kind : ReactionType)
        → Step k (toggle_reaction k submission_id actor_id kind).1
    votes : (k : RoundKeys) (p : ℕ) → Step k (toggle_skip k p).1

  pub data Reach : RoundKeys → Type 0 where
    opens : Reach no_keys
    next : {k k' : RoundKeys} → Reach k → Step k k' → Reach k'

  Step-KeysReady : {k k' : RoundKeys} → Step k k' → KeysReady k → KeysReady k'
  Step-KeysReady (uploads k r p t token secret) (c, h) = (
    accept_submission-IsCoherent digest k r p t token secret c,
    λ q. rw (accept_submission-scores k r p t token secret c) (h q),
  )
  Step-KeysReady (scores k o p a known genuine) h =
      record_score-KeysReady k p (score_payload a o) known (score_payload-IsPayload a o genuine) h
  Step-KeysReady (guards k) h = guard-KeysReady k h
  Step-KeysReady (reacts k submission_id actor_id kind) h =
      toggle_reaction-KeysReady k submission_id actor_id kind h
  Step-KeysReady (votes k p) h = toggle_skip-KeysReady k p h

  pub Reach-KeysReady : {k : RoundKeys} → Reach k → KeysReady k
  Reach-KeysReady opens = (no_keys-IsCoherent, λ q. tt)
  Reach-KeysReady (next r s) = Step-KeysReady s (Reach-KeysReady r)

  -- In whatever order the uploads of a round, the scores or failures of accepted ones, the guard,
  -- reactions and votes come: finalizing the round then raises nothing, in a room whose members
  -- have different ids and best scores up to 100.0. A score is of a result that `EmotionResult`
  -- accepts.
  pub Reach-finalize_round :
      {k : RoundKeys} (st : Store) (current : Round) (now : ℕ)
      → Reach k
      → IsDistinct (member_ids st.members)
      → All HasBest st.members
      → (f : Finalized) × (st' : Store) × (finalize_round st k current now ≡ ok (f, st'))
  Reach-finalize_round {k = k} st current now r once best =
      finalize_round-ok st k current now (record {
        coherent = (Reach-KeysReady r).0;
        payloads = (Reach-KeysReady r).1;
        once = once;
        best = best;
      })
