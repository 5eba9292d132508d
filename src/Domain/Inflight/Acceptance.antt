-- ===== src/Domain/Inflight/Acceptance.antt =====
-- `accept_submission`: one submission for each participant and round, and what a refusal leaves.
use emoselfie_be.Prelude.{ℕ, ◌≡◌, refl, ◌⊎◌, true, false, Option, List, arith, leb}
use emoselfie_be.Prelude.Sets.{has, add, IsDistinct, has-add, add-IsDistinct}
use emoselfie_be.Prelude.Dict.{insert, keys, has_key, lookup-insert, insert-IsDistinct}
use emoselfie_be.Core.Errors.{app, Result, ok, err, deadline_passed, invalid_capture_token}
use emoselfie_be.Core.Security.{verify_capture_token}
use emoselfie_be.Db.{Round}
use emoselfie_be.Domain.Keys.{RoundKeys, no_keys}
use emoselfie_be.Domain.Inflight.{accept_submission}

-- The keys of a round agree: a capture token was used exactly by those whose submission was
-- accepted, they are the audience of the results, and only they have scores.
pub record IsCoherent (k : RoundKeys) : Type 0 where
  pub submitted_once : IsDistinct (keys k.submitted)
  pub scored_once : IsDistinct (keys k.scores)
  pub viewing_once : IsDistinct k.viewers
  pub used : (p : ℕ) → has p k.tokens ≡ has_key p k.submitted
  pub audience : (p : ℕ) → has p k.viewers ≡ has_key p k.submitted
  pub settled : (p : ℕ) → has_key p k.scores ≡ true → has_key p k.submitted ≡ true

pub no_keys-IsCoherent : IsCoherent no_keys
no_keys-IsCoherent = record {
  submitted_once = tt;
  scored_once = tt;
  viewing_once = tt;
  used = λ p. refl;
  audience = λ p. refl;
  settled = λ p h. cc;
}

-- the state after an accepted submission
abbrev accepted : ℕ → ℕ → RoundKeys → RoundKeys
accepted p t k = record k {
  tokens = add p k.tokens;
  submitted = insert p t k.submitted;
  viewers = add p k.viewers;
}

accepted-IsCoherent : (p t : ℕ) (k : RoundKeys) → IsCoherent k → IsCoherent (accepted p t k)
accepted-IsCoherent p t k c = record {
  submitted_once = insert-IsDistinct p t k.submitted c.submitted_once;
  scored_once = c.scored_once;
  viewing_once = add-IsDistinct p k.viewers c.viewing_once;
  used = λ q. ground (arith, has-add q p k.tokens, lookup-insert q p t k.submitted, c.used q);
  audience =
      λ q. ground (arith, has-add q p k.viewers, lookup-insert q p t k.submitted, c.audience q);
  settled = λ q h. ground (arith, lookup-insert q p t k.submitted, c.settled q h);
}

module _ (digest : List ℕ → List ℕ → List ℕ) where
  -- What an attempt comes to, in a coherent state: only a first attempt in time with a valid
  -- token is recorded, and any other leaves every key as it was.
  abbrev pub Attempt :
      RoundKeys → Round → ℕ → ℕ → Option (List ℕ) → List ℕ → Result (Unit {0}) × RoundKeys → Type 0
  Attempt k r p t token secret (ok _, k') =
      (leb r.deadline_at t ≡ false)
      × (verify_capture_token digest token r.id p r.deadline_at secret ≡ true)
      × (has_key p k.submitted ≡ false)
      × (k' ≡ accepted p t k)
  Attempt k r p t token secret (err e, k') =
      (k' ≡ k)
      × ((e ≡ app deadline_passed) × (leb r.deadline_at t ≡ true)
          ⊎ (e ≡ app invalid_capture_token)
            × (leb r.deadline_at t ≡ false)
            × ((verify_capture_token digest token r.id p r.deadline_at secret ≡ false)
                ⊎ (has_key p k.submitted ≡ true)))

  module _ (k : RoundKeys) (r : Round) (p t : ℕ) (token : Option (List ℕ)) (secret : List ℕ)
      (c : IsCoherent k) where
    -- In a coherent state an upload is accepted exactly if it comes before the deadline, with a
    -- valid token, from a participant without a submission; its keys are then recorded. Any other
    -- is refused with its error and changes no key.
    pub accept_submission-Attempt :
        Attempt k r p t token secret (accept_submission digest k r p t token secret)
    unfolding accept_submission
    accept_submission-Attempt = ground (arith, c.used p)

    -- Accepting or refusing an upload keeps coherent keys coherent.
    pub accept_submission-IsCoherent : IsCoherent (accept_submission digest k r p t token secret).1
    accept_submission-IsCoherent =
        by_attempt (accept_submission digest k r p t token secret) accept_submission-Attempt
      where
        by_attempt :
            (x : Result (Unit {0}) × RoundKeys) → Attempt k r p t token secret x → IsCoherent x.1
        by_attempt (ok _, k') a = rw a.3 (accepted-IsCoherent p t k c)
        by_attempt (err e, k') a = rw a.0 c
