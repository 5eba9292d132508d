-- ===== src/Domain/Inflight/Guard.antt =====
-- The scoring guard: `pending_inference`, `record_score` and `force_pending_failed`.
use emoselfie_be.Prelude.{
  ℕ, ◌+◌, ◌≡◌, refl, ap, ◌∙◌, true, not, some, List, [], ◌∷◌, arith, if◌then◌else◌, or_else, length,
  keep, pos,
}
use emoselfie_be.Prelude.Sets.{
  has, IsDistinct, has-keep, keep-IsDistinct, length-eq_of_has, length-split, keep_none,
}
use emoselfie_be.Prelude.Dict.{
  Dict, lookup, insert, keys, has_key, lookup-insert, has-keys, insert-IsDistinct,
}
use emoselfie_be.Domain.Keys.{Payload, failed_payload, RoundKeys}
use emoselfie_be.Domain.Inflight.{
  record_score, pending_inference, force_pending_failed, fail_all, stranded, resolved_count,
  submitted_count,
}
use emoselfie_be.Domain.Inflight.Acceptance.{IsCoherent}

-- A score of a participant whose submission was accepted keeps the keys coherent.
pub record_score-IsCoherent :
    (k : RoundKeys) (p : ℕ) (payload : Payload)
    → IsCoherent k
    → has_key p k.submitted ≡ true
    → IsCoherent (record_score k p payload)
unfolding record_score
record_score-IsCoherent k p payload c known = record {
  submitted_once = c.submitted_once;
  scored_once = insert-IsDistinct p payload k.scores c.scored_once;
  viewing_once = c.viewing_once;
  used = c.used;
  audience = c.audience;
  settled = λ q h. ground (arith, lookup-insert q p payload k.scores, c.settled q);
}

module _ (k : RoundKeys) (c : IsCoherent k) where
  scored_members :
      (q : ℕ) → has q (keep (λ p. has p (keys k.scores)) (keys k.submitted)) ≡ has q (keys k.scores)
  scored_members q = ground (
    arith,
    has-keep (λ p. has p (keys k.scores)) q (keys k.submitted),
    has-keys q k.scores,
    has-keys q k.submitted,
    c.settled q,
  )

  resolved-add-stranded : resolved_count k + length (stranded k) ≡ submitted_count k
  resolved-add-stranded =
      let same =
        length-eq_of_has (keep (λ p. has p (keys k.scores)) (keys k.submitted)) (keys k.scores)
          (keep-IsDistinct (λ p. has p (keys k.scores)) (keys k.submitted) c.submitted_once)
          c.scored_once scored_members in
      omega (arith, same, length-split (λ p. has p (keys k.scores)) (keys k.submitted))

  -- In coherent keys the pending count is never negative: it counts the submissions that have no score yet.
  pub pending_inference-stranded : pending_inference k ≡ pos (length (stranded k))
  unfolding pending_inference
  pending_inference-stranded = ground (arith, resolved-add-stranded)

pub lookup-fail_all :
    (q : ℕ) (ps : List ℕ) (d : Dict Payload)
    → lookup q (fail_all ps d) ≡ (if has q ps then some failed_payload else lookup q d)
unfolding fail_all
lookup-fail_all q [] d = refl
lookup-fail_all q (p ∷ ps) d =
    ground
      (arith, lookup-fail_all q ps (insert p failed_payload d), lookup-insert q p failed_payload d)

fail_all-IsDistinct :
    (ps : List ℕ) (d : Dict Payload) → IsDistinct (keys d) → IsDistinct (keys (fail_all ps d))
unfolding fail_all
fail_all-IsDistinct [] d h = h
fail_all-IsDistinct (p ∷ ps) d h =
    fail_all-IsDistinct ps (insert p failed_payload d) (insert-IsDistinct p failed_payload d h)

-- A submission without a score gets the failed one, and every other score stays as it is.
pub lookup-force_pending_failed :
    (k : RoundKeys) (q : ℕ)
    → lookup q (force_pending_failed k).1.scores ≡ (
        if has_key q k.submitted
        then some (or_else (lookup q k.scores) failed_payload)
        else lookup q k.scores)
unfolding force_pending_failed
lookup-force_pending_failed k q = ground (
  arith,
  lookup-fail_all q (stranded k) k.scores,
  has-keep (λ p. not (has p (keys k.scores))) q (keys k.submitted),
  has-keys q k.scores,
  has-keys q k.submitted,
)

module _ (k : RoundKeys) (c : IsCoherent k) where
  pub force_pending_failed-IsCoherent : IsCoherent (force_pending_failed k).1
  unfolding force_pending_failed
  force_pending_failed-IsCoherent = record {
    submitted_once = c.submitted_once;
    scored_once = fail_all-IsDistinct (stranded k) k.scores c.scored_once;
    viewing_once = c.viewing_once;
    used = c.used;
    audience = c.audience;
    settled = λ q h. ground (
      arith,
      lookup-fail_all q (stranded k) k.scores,
      has-keep (λ p. not (has p (keys k.scores))) q (keys k.submitted),
      has-keys q k.submitted,
      c.settled q,
    );
  }

  none_stranded : stranded (force_pending_failed k).1 ≡ []
  unfolding force_pending_failed
  none_stranded =
      keep_none (λ p. not (has p (keys (force_pending_failed k).1.scores))) (keys k.submitted)
        λ q m. ground (
          arith,
          lookup-force_pending_failed k q,
          has-keys q (force_pending_failed k).1.scores,
          has-keys q k.submitted,
        )

  -- In coherent keys nothing is pending after the guard, and the guard
  -- reports how many it failed, which is what was pending before.
  pub force_pending_failed-resolves :
      (pending_inference (force_pending_failed k).1 ≡ pos 0)
      × (pending_inference k ≡ pos (force_pending_failed k).0)
  unfolding force_pending_failed
  force_pending_failed-resolves = (
    pending_inference-stranded (force_pending_failed k).1 force_pending_failed-IsCoherent
        ∙ ap (λ (xs : List ℕ). pos (length xs)) none_stranded,
    pending_inference-stranded k c,
  )
