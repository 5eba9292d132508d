-- ===== src/Domain/Keys.antt =====
-- The Redis keys of one round (app/core/redis.py: `round_key`, `reaction_key`,
-- `capture_token_key`). Their TTLs are longer than a round lives, and are not modelled.
use emoselfie_be.Prelude.{ℕ, Option, none, List, []}
use emoselfie_be.Prelude.Dict.{Dict}
use emoselfie_be.Domain.Enums.{EmotionLabel, SubmissionStatus, failed, ReactionType}

-- The JSON of a score: `targetScore` and `topEmotions` may be missing.
pub record Payload : Type 0 where
  pub status : SubmissionStatus
  pub target_score : Option ℕ
  pub top_emotions : Option (List (EmotionLabel × ℕ))

-- `{"status": "failed"}`
abbrev pub failed_payload : Payload
failed_payload = record { status = failed; target_score = none; top_emotions = none }

-- `f"{submission_id}:{actor_participant_id}:{reaction_type.value}"`
pub record Marker : Type 0 where
  pub submission_id : ℕ
  pub actor_id : ℕ
  pub kind : ReactionType

pub record RoundKeys : Type 0 where
  pub submitted : Dict ℕ
  pub scores : Dict Payload
  pub viewers : List ℕ
  -- participants whose capture token was used
  pub tokens : List ℕ
  pub actors : List Marker
  pub likes : Dict ℕ
  pub questions : Dict ℕ
  pub skips : List ℕ

abbrev pub no_keys : RoundKeys
no_keys = record {
  submitted = [];
  scores = [];
  viewers = [];
  tokens = [];
  actors = [];
  likes = [];
  questions = [];
  skips = [];
}
