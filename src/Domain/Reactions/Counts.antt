-- ===== src/Domain/Reactions/Counts.antt =====
-- `counts` and `count_for` of app/domain/reaction/service.py: what clients are told of a submission.
use emoselfie_be.Prelude.{ℕ, ◌≡◌, refl, ◌∙◌, false, none, some, [], ◌∷◌, arith, ==_iff, or_else}
use emoselfie_be.Prelude.Sets.{has, IsDistinct}
use emoselfie_be.Prelude.Dict.{Dict, lookup, keys, lookup-insert}
use emoselfie_be.Domain.Enums.{like, question}
use emoselfie_be.Domain.Keys.{RoundKeys}
use emoselfie_be.Domain.Reactions.{like_counts, question_counts, counts, count_for}
use emoselfie_be.Domain.Reactions.Toggle.{IsCounted, tally}

-- A pair in `totals`, or zeros.
abbrev pub told : ℕ → Dict (ℕ × ℕ) → ℕ × ℕ
told s totals = or_else (lookup s totals) (0, 0)

lookup_missing : (s : ℕ) (raw : Dict ℕ) → has s (keys raw) ≡ false → lookup s raw ≡ none
lookup_missing s [] h = refl
lookup_missing s ((k, v) ∷ raw) h = ground (arith, lookup_missing s raw)

told-like :
    (s : ℕ) (raw : Dict ℕ) (totals : Dict (ℕ × ℕ))
    → IsDistinct (keys raw)
    → told s (like_counts raw totals)
      ≡ (or_else (lookup s raw) (told s totals).0, (told s totals).1)
unfolding like_counts
told-like s [] totals d = refl
told-like s ((k, v) ∷ raw) totals d =
    told-like s raw _ d.1
    ∙ ground (
      arith,
      lookup-insert s k (v, (elim (lookup k totals) [ none ↦ 0 | some (_, q) ↦ q ])) totals,
      lookup_missing s raw,
      ==_iff s k,
    )

told-question :
    (s : ℕ) (raw : Dict ℕ) (totals : Dict (ℕ × ℕ))
    → IsDistinct (keys raw)
    → told s (question_counts raw totals)
      ≡ ((told s totals).0, or_else (lookup s raw) (told s totals).1)
unfolding question_counts
told-question s [] totals d = refl
told-question s ((k, v) ∷ raw) totals d =
    told-question s raw _ d.1
    ∙ ground (
      arith,
      lookup-insert s k ((elim (lookup k totals) [ none ↦ 0 | some (l, _) ↦ l ]), v) totals,
      lookup_missing s raw,
      ==_iff s k,
    )

-- Clients are told as many likes and questions of a submission as actors have given it, where
-- the counters agree with the markers and name no submission twice.
pub count_for-tally :
    (k : RoundKeys) (s : ℕ)
    → IsCounted k
    → IsDistinct (keys k.likes)
    → IsDistinct (keys k.questions)
    → count_for k s ≡ (tally s like k.actors, tally s question k.actors)
unfolding count_for counts
count_for-tally k s h dl dq =
    let l = h.1 s like in
    let q = h.1 s question in
    told-question s k.questions (like_counts k.likes []) dq
    ∙ rw (told-like s k.likes [] dl) (ground arith)
