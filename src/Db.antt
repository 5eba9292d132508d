-- ===== src/Db.antt =====
-- app/db/models.py: the rows of the tables, and reading and writing them by id. Times are
-- milliseconds, scores tenths, and user ids (UUIDs), slugs and nicknames are only compared.
use emoselfie_be.Prelude.{ℕ, Bool, Option, none, some, List, [], ◌∷◌, if◌then◌else◌}
use emoselfie_be.Domain.Enums.{
  EmotionLabel, RoomStatus, ParticipantStatus, ConnectionStatus, RoundStatus, SubmissionStatus,
  ReactionType,
}

pub record Room : Type 0 where
  pub id : ℕ
  pub invite_slug : ℕ
  pub host_user_id : ℕ
  pub status : RoomStatus
  pub round_count : ℕ
  pub time_limit_sec : ℕ
  pub emotion_sequence : List EmotionLabel
  pub current_round_id : Option ℕ
  pub consecutive_voided : ℕ
  pub last_active_at : ℕ

pub record Participant : Type 0 where
  pub id : ℕ
  pub room_id : ℕ
  pub user_id : ℕ
  pub nickname : List ℕ
  pub color_tag : ℕ
  pub status : ParticipantStatus
  pub connection_status : ConnectionStatus
  pub disconnected_at : Option ℕ
  pub total_points : ℕ
  pub best_round_score : ℕ
  pub joined_at : ℕ

pub record Round : Type 0 where
  pub id : ℕ
  pub room_id : ℕ
  pub index : ℕ
  pub target_emotion : EmotionLabel
  pub status : RoundStatus
  pub revealed_at : ℕ
  pub deadline_at : ℕ
  pub finalized_at : Option ℕ
  pub viewing_ends_at : Option ℕ
  pub closed_at : Option ℕ

pub record Submission : Type 0 where
  pub id : ℕ
  pub round_id : ℕ
  pub participant_id : ℕ
  pub status : SubmissionStatus
  pub received_at : Option ℕ
  pub target_score : Option ℕ
  pub top_emotions : Option (List (EmotionLabel × ℕ))
  pub rank : Option ℕ
  pub rank_points : ℕ
  pub like_count : ℕ
  pub question_count : ℕ

pub record Reaction : Type 0 where
  pub round_id : ℕ
  pub actor_participant_id : ℕ
  pub target_submission_id : ℕ
  pub type : ReactionType

pub record RoundSkip : Type 0 where
  pub round_id : ℕ
  pub participant_id : ℕ

-- `next(x for x in xs if p(x))`, with none where there is no such item.
abbrev pub find {ℓ} : {A : Type ℓ} → (A → Bool) → List A → Option A
find p [] = none
find p (x ∷ xs) = if p x then some x else find p xs
