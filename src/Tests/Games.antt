-- ===== src/Tests/Games.antt =====
-- Concrete runs of a game: starting it, and leaving a round.
use emoselfie_be.Prelude.{
  true, false, ℕ, zero, suc, ◌≤◌, ◌≡◌, refl, ap, List, [], ◌∷◌, arith, length, take, none, some,
}
use emoselfie_be.Core.Errors.{ok}
use emoselfie_be.Db.{Round}
use emoselfie_be.Domain.Enums.{EmotionLabel, RoomStatus, RoundStatus}
use emoselfie_be.Domain.Store.{Store, active_count, get_round}
use emoselfie_be.Domain.Game.{full_set, start_game, min_players}
use emoselfie_be.Domain.Game.Starting.{start_game-ok, IsStarted}
use emoselfie_be.Domain.Lifecycle.{World, advance}
use emoselfie_be.Domain.Lifecycle.Advance.{advance-ok, IsLeft, IsLatest}
use emoselfie_be.Inference.{CircuitBreaker, is_open, record_outcome}
use emoselfie_be.Inference.Breaker.{IsBounded, IsOpened, record_outcome_lem}
use emoselfie_be.Tests.{open_round_7}
use emoselfie_be.Tests.Rooms.{room_1, store_1, world_1}

-- A generator that draws the first labels, and leaves their order.
abbrev first_labels : ℕ → List EmotionLabel
first_labels n = take n full_set

abbrev same_order : ℕ → List EmotionLabel → List EmotionLabel
same_order n s = s

length-take : {A : Type 0} (n : ℕ) (xs : List A) → n ≤ length xs → length (take n xs) ≡ n
length-take zero xs h = refl
length-take (suc n) [] h = absurd (omega (arith, h))
length-take (suc n) (x ∷ xs) h = ap suc (length-take n xs (omega (arith, h)))

abbrev waiting_store : Store
waiting_store = record store_1 {
  room = record room_1 {
    status = RoomStatus.waiting;
    emotion_sequence = [];
    current_round_id = none;
  };
  rounds = [];
}

two_active : min_players ≤ active_count waiting_store.members
unfolding active_count
two_active = omega arith

start_game-ok_example :
    (r : Round) × (st' : Store) × (start_game first_labels same_order waiting_store 1000
      ≡ ok (r, st'))
    × IsStarted waiting_store 1000 r st'
start_game-ok_example =
    start_game-ok first_labels same_order (λ n h. length-take n full_set h) (λ n s. refl)
      waiting_store 1000 refl two_active (omega arith) (omega arith) refl

-- The round is settled, and its viewing is over.
abbrev viewed_round : Round
viewed_round = record open_round_7 { status = RoundStatus.finalized }

abbrev viewed_world : World
viewed_world = record world_1 { store = record store_1 { rounds = viewed_round ∷ [] } }

pub viewed-IsLatest :
    (current : Round)
    → get_round 7 viewed_world.store ≡ some current
    → IsLatest viewed_world.store current.index
viewed-IsLatest current e =
    let same : viewed_round ≡ current = cc in rw (← same) (omega arith, (omega arith, tt))

advance-ok_example :
    (w' : World) × (advance viewed_world 7 40000 ≡ ok w')
    × IsLeft viewed_world (some viewed_round) 40000 w'
advance-ok_example =
    advance-ok viewed_world 7 40000 (refl, (refl, tt)) (omega arith, (omega arith, tt))
      viewed-IsLatest

-- One outcome short of opening: fifteen failures in nineteen outcomes.
abbrev strained : CircuitBreaker
strained = record {
  history =
      true ∷ true ∷ true ∷ true ∷ false ∷ false ∷ false ∷ false ∷ false ∷ false ∷ false ∷ false
      ∷ false ∷ false ∷ false ∷ false ∷ false ∷ false ∷ false ∷ [];
  open_until = 0;
  cooldown = 60000;
}

record_outcome_example :
    IsBounded (record_outcome strained false 5000)
    × (is_open strained 5000 ≡ true → record_outcome strained false 5000 ≡ strained)
    × (is_open strained 5000 ≡ false
        → is_open (record_outcome strained false 5000) 5000 ≡ true
        → IsOpened (record_outcome strained false 5000) 60000 5000)
record_outcome_example = record_outcome_lem strained false 5000 (omega arith)
