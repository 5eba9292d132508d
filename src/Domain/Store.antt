-- ===== src/Domain/Store.antt =====
-- The rows of one room in PostgreSQL, on which a transaction that holds the room's row lock works,
-- and `active_participants` and `active_count` of app/domain/game/service.py.
use emoselfie_be.Prelude.{ℕ, Bool, Option, List, [], ◌∷◌, ◌==◌, if◌then◌else◌, ℤ, pos, length, keep}
use emoselfie_be.Prelude.Sort.{sort_by}
use emoselfie_be.Db.{Room, Participant, Round, Submission, Reaction, RoundSkip, find}
use emoselfie_be.Domain.Enums.{is_active}

pub record Store : Type 0 where
  pub room : Room
  pub members : List Participant
  pub rounds : List Round
  pub submissions : List Submission
  pub reactions : List Reaction
  pub round_skips : List RoundSkip
  -- the next value of an identity column
  pub next_id : ℕ

-- `session.get(Round, id)` and the like
abbrev pub get_round : ℕ → Store → Option Round
get_round i st = find (λ r. r.id == i) st.rounds

abbrev pub get_member : ℕ → List Participant → Option Participant
get_member i ms = find (λ m. m.id == i) ms

-- A changed row replaces the one with its id.
abbrev pub put_member : Participant → List Participant → List Participant
put_member m [] = []
put_member m (x ∷ xs) = (if x.id == m.id then m else x) ∷ put_member m xs

abbrev pub put_round : Round → List Round → List Round
put_round r [] = []
put_round r (x ∷ xs) = (if x.id == r.id then r else x) ∷ put_round r xs

abbrev pub put_submission : Submission → List Submission → List Submission
put_submission s [] = []
put_submission s (x ∷ xs) = (if x.id == s.id then s else x) ∷ put_submission s xs

abbrev pub is_active_member : Participant → Bool
is_active_member m = is_active m.status

-- `.order_by(Participant.joined_at, Participant.id)`
abbrev pub joined_key : Participant → List ℤ
joined_key m = pos m.joined_at ∷ pos m.id ∷ []

unfoldable pub active_participants : List Participant → List Participant
unfolding sort_by
active_participants ms = sort_by joined_key (keep is_active_member ms)

unfoldable pub active_count : List Participant → ℕ
active_count ms = length (keep is_active_member ms)
