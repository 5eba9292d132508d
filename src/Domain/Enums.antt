-- ===== src/Domain/Enums.antt =====
-- app/domain/enums.py: the states of rooms, participants, rounds and submissions.
use emoselfie_be.Prelude.{Bool, true, false}

pub data EmotionLabel : Type 0 where
  happy sad angry surprise neutral disgust fear : EmotionLabel

pub data RoomStatus : Type 0 where
  waiting playing finished closed : RoomStatus

pub data ParticipantStatus : Type 0 where
  active waiting_next_game left : ParticipantStatus

pub data ConnectionStatus : Type 0 where
  connected disconnected : ConnectionStatus

pub data RoundStatus : Type 0 where
  revealed capturing scoring finalized voided closed : RoundStatus

pub data SubmissionStatus : Type 0 where
  submitted no_face failed missed : SubmissionStatus

pub data ReactionType : Type 0 where
  like question : ReactionType

-- The comparisons `status == X` that the services make.
abbrev pub is_waiting : RoomStatus → Bool
is_waiting s = elim s [ RoomStatus.waiting ↦ true | _ ↦ false ]

abbrev pub is_playing : RoomStatus → Bool
is_playing s = elim s [ RoomStatus.playing ↦ true | _ ↦ false ]

abbrev pub is_active : ParticipantStatus → Bool
is_active s = elim s [ ParticipantStatus.active ↦ true | _ ↦ false ]

abbrev pub is_waiting_next_game : ParticipantStatus → Bool
is_waiting_next_game s = elim s [ ParticipantStatus.waiting_next_game ↦ true | _ ↦ false ]

abbrev pub is_left : ParticipantStatus → Bool
is_left s = elim s [ ParticipantStatus.left ↦ true | _ ↦ false ]

abbrev pub is_connected : ConnectionStatus → Bool
is_connected s = elim s [ ConnectionStatus.connected ↦ true | _ ↦ false ]

abbrev pub is_scoring : RoundStatus → Bool
is_scoring s = elim s [ RoundStatus.scoring ↦ true | _ ↦ false ]

abbrev pub is_finalized : RoundStatus → Bool
is_finalized s = elim s [ RoundStatus.finalized ↦ true | _ ↦ false ]

abbrev pub is_voided : RoundStatus → Bool
is_voided s = elim s [ RoundStatus.voided ↦ true | _ ↦ false ]

abbrev pub is_submitted : SubmissionStatus → Bool
is_submitted s = elim s [ SubmissionStatus.submitted ↦ true | _ ↦ false ]

abbrev pub is_no_face : SubmissionStatus → Bool
is_no_face s = elim s [ SubmissionStatus.no_face ↦ true | _ ↦ false ]

abbrev pub is_failed : SubmissionStatus → Bool
is_failed s = elim s [ SubmissionStatus.failed ↦ true | _ ↦ false ]

abbrev pub is_missed : SubmissionStatus → Bool
is_missed s = elim s [ SubmissionStatus.missed ↦ true | _ ↦ false ]
