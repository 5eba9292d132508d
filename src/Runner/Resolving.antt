-- ===== src/Runner/Resolving.antt =====
-- `_score` of app/domain/round/runner.py: a score is recorded and told, and the last one settles its
-- round.
use emoselfie_be.Prelude.{
  ℕ, ◌≡◌, Bool, true, false, not, ◌&&◌, none, some, ltb_ℤ, pos, if◌then◌else◌,
}
use emoselfie_be.Db.{Round}
use emoselfie_be.Domain.Enums.{is_scoring}
use emoselfie_be.Domain.Inflight.{pending_inference}
use emoselfie_be.Domain.Lifecycle.{World, keys_of}
use emoselfie_be.Domain.Lifecycle.Settling.{IsSettled}
use emoselfie_be.Runner.{cancelled, Attempt}

-- Whether the last score of a round that waits for it has been recorded.
abbrev pub is_last : Round → ℕ → World → Bool
is_last current i w =
    is_scoring current.status && not (ltb_ℤ (pos 0) (pending_inference (keys_of i w)))

-- The last score settles the round, and any other is only recorded.
abbrev pub IsResolved : Round → ℕ → World → World → Type 0
IsResolved current i w w' = if is_last current i w then IsSettled i w' else w' ≡ w

-- `classify` was reached, and cancelled.
abbrev pub was_cancelled : Attempt → Bool
was_cancelled a =
    a.readable
    && (elim a.verdict [ none ↦ false | some v ↦ elim v [ cancelled ↦ true | _ ↦ false ] ])
