-- ===== src/Domain/Game/Starting.antt =====
-- `start_game` of app/domain/game/service.py: a game that may start does start.
use emoselfie_be.Prelude.{
  ℕ, zero, suc, ◌+◌, ◌-◌, ◌*◌, All, not, ◌≤◌, ◌<◌, ◌≡◌, refl, ◌∙◌, Bool, true, false, some, List,
  [], ◌∷◌, ◌++◌, arith, leb, length, Bool-cases, inl, inr, ◌⊎◌,
}
use emoselfie_be.Core.Errors.{ok}
use emoselfie_be.Db.{Round, Participant}
use emoselfie_be.Domain.Enums.{EmotionLabel, RoomStatus, RoundStatus, is_waiting_next_game}
use emoselfie_be.Domain.Store.{Store, active_count}
use emoselfie_be.Domain.Game.{
  separate, build_sequence, get_elem?, open_round, opened_round, start_game, require_open,
  min_players, shuffle_attempts, adjacent_hard, started_store, violates, activate, activate_all,
}

pub get_elem?-some {ℓ} :
    {A : Type ℓ} (xs : List A) (i : ℕ) → i < length xs → (a : A) × (get_elem? xs i ≡ some a)
get_elem?-some [] i h = absurd (omega (arith, h))
get_elem?-some (x ∷ xs) zero h = (x, refl)
get_elem?-some (x ∷ xs) (suc i) h = get_elem?-some xs i (omega (arith, h))

-- The round with this index is open, for a countdown of three seconds and the room's limit; it is
-- stored and the room's current one. Else the room is as it was.
abbrev pub IsOpened : Store → ℕ → ℕ → Round → Store → Type 0
IsOpened st index now r st' =
    (r.index ≡ index)
    × (r.room_id ≡ st.room.id)
    × (r.status ≡ RoundStatus.revealed)
    × (r.revealed_at ≡ now)
    × (r.deadline_at ≡ now + (3 + st.room.time_limit_sec) * 1000)
    × (get_elem? st.room.emotion_sequence (index - 1) ≡ some r.target_emotion)
    × (st'.rounds ≡ st.rounds ++ r ∷ [])
    × (st'.room ≡ record (st.room) { current_round_id = some r.id; last_active_at = now })
    × (st'.members ≡ st.members)

-- A round whose index falls inside the stored sequence is opened.
pub open_round-ok :
    (st : Store) (index now : ℕ)
    → 1 ≤ index
    → index ≤ length st.room.emotion_sequence
    → violates st index ≡ false
    → (r : Round) × (st' : Store) × (open_round st index now ≡ ok (r, st'))
      × IsOpened st index now r st'
unfolding open_round
open_round-ok st index now low high free =
    let (emotion, found) = get_elem?-some st.room.emotion_sequence (index - 1) (omega arith) in
    let inside : leb 1 index ≡ true = ground arith in
    let r = opened_round st.next_id index st.room emotion now in
    let st' : Store = record st {
      rounds = st.rounds ++ r ∷ [];
      next_id = st.next_id + 1;
      room = record (st.room) { current_round_id = some st.next_id; last_active_at = now };
    } in
    (
      r,
      st',
      rw (open_round, inside, found, free) refl,
      (refl, refl, refl, refl, refl, found, refl, refl, refl),
    )

-- The game runs: the room is playing with a sequence of its length, everybody who waited takes
-- part, and the first round is the only one, open and current.
abbrev pub IsStarted : Store → ℕ → Round → Store → Type 0
IsStarted st now r st' =
    (st'.room.status ≡ RoomStatus.playing)
    × (st'.room.consecutive_voided ≡ 0)
    × (length st'.room.emotion_sequence ≡ st.room.round_count)
    × All (λ m. not (is_waiting_next_game m.status) ≡ true) st'.members
    × (st'.rounds ≡ r ∷ [])
    × (st'.room.current_round_id ≡ some r.id)
    × (r.index ≡ 1)
    × (r.status ≡ RoundStatus.revealed)
    × (r.deadline_at ≡ now + (3 + st.room.time_limit_sec) * 1000)
    × (get_elem? st'.room.emotion_sequence 0 ≡ some r.target_emotion)

activate_all-active :
    (ms : List Participant)
    → All (λ m. not (is_waiting_next_game m.status) ≡ true) (activate_all ms)
activate_all-active [] = tt
activate_all-active (m ∷ ms) =
    (by_status (Bool-cases (is_waiting_next_game m.status)), activate_all-active ms)
  where
    by_status :
        ((is_waiting_next_game m.status ≡ true) ⊎ (is_waiting_next_game m.status ≡ false))
        → not (is_waiting_next_game (activate m).status) ≡ true
    by_status (inl y) = rw y refl
    by_status (inr n) = rw (n, n) refl

-- What the random generator promises: as many labels as asked for, and a shuffle keeps their number.
module _ (sample : ℕ → List EmotionLabel) (shuffle : ℕ → List EmotionLabel → List EmotionLabel)
    (sampled : (n : ℕ) → n ≤ 7 → length (sample n) ≡ n)
    (shuffled : (n : ℕ) (s : List EmotionLabel) → length (shuffle n s) ≡ length s) where
  length-separate :
      (n : ℕ) (s : List EmotionLabel) → length (separate sample shuffle n s) ≡ length s
  unfolding separate
  length-separate zero s = refl
  length-separate (suc n) s =
      by_test (adjacent_hard s) (length-separate n (shuffle n s) ∙ shuffled n s)
    where
      by_test :
          (b : Bool)
          → length (separate sample shuffle n (shuffle n s)) ≡ length s
          → length (elim b [ true ↦ separate sample shuffle n (shuffle n s) | false ↦ s ])
            ≡ length s
      by_test true h = h
      by_test false h = refl

  -- A waiting room with two active members, one to seven rounds to play and none played starts, if
  -- the generator draws as many labels as asked for and its shuffle loses none. Then the room is
  -- playing, with as many emotions as rounds, and nobody waits for the next game. The first round is
  -- stored as the only one and is current; it asks for the first emotion, and is open until the
  -- countdown of three seconds and the room's time limit are over.
  pub start_game-ok :
      (st : Store) (now : ℕ)
      → st.room.status ≡ RoomStatus.waiting
      → min_players ≤ active_count st.members
      → 1 ≤ st.room.round_count
      → st.room.round_count ≤ 7
      → st.rounds ≡ []
      → (r : Round) × (st' : Store) × (start_game sample shuffle st now ≡ ok (r, st'))
        × IsStarted st now r st'
  unfolding start_game build_sequence require_open
  start_game-ok st now waits players low high empty =
      let s = separate sample shuffle shuffle_attempts (sample st.room.round_count) in
      let long : length s ≡ st.room.round_count =
        length-separate shuffle_attempts (sample st.room.round_count)
        ∙ sampled st.room.round_count high in
      let free : violates (started_store st s) 1 ≡ false = rw empty refl in
      let (r, st', opened, is_open) =
        open_round-ok (started_store st s) 1 now (omega arith) (omega arith) free in
      let (index, _, shown, _, deadline, target, rounds, room, members) = is_open in
      let enough : leb min_players (active_count st.members) ≡ true = ground arith in
      let above : leb 1 st.room.round_count ≡ true = ground arith in
      let below : leb st.room.round_count 7 ≡ true = ground arith in
      (
        r,
        st',
        rw (waits, enough, above, below) opened,
        (
          rw room refl,
          rw room refl,
          rw room long,
          rw members (activate_all-active st.members),
          rounds ∙ rw empty refl,
          rw room refl,
          index,
          shown,
          deadline,
          rw room target,
        ),
      )
