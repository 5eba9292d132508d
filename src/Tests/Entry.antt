-- ===== src/Tests/Entry.antt =====
-- Concrete runs: a room that is created, a user who comes back, a busy engine, and a closing view.
use emoselfie_be.Prelude.{◌≡◌, refl, true, false, some, none, List, [], ◌∷◌, ℕ}
use emoselfie_be.Core.Cookies.{CookieSecrets, sign_cookie}
use emoselfie_be.Domain.Rooms.{RoomTable, create_room}
use emoselfie_be.Domain.Rooms.Creation.{IsUnique, IsCreated, create_room-IsCreated}
use emoselfie_be.Api.Session.{Request, entered, api_prefix, is_api, is_foreign, middleware}
use emoselfie_be.Api.Session.Persistence.{middleware-persists}
use emoselfie_be.Inference.Queue.{
  Limits, InferenceRunner, start, end_start, enqueue, work, time_out, new_runner,
}
use emoselfie_be.Inference.Capacity.{IsWithin}
use emoselfie_be.Inference.Served.{IsServed, Reach-IsServed}
use emoselfie_be.Inference.Running.{Step, Reach, Reach-IsWithin}
use emoselfie_be.Tests.Rooms.{room_1, store_1, scored_keys, scoring_round, settled}
use mathlib.Core.List.{Mem}
use emoselfie_be.Prelude.{All}
use emoselfie_be.Domain.Settlement.Credit.{is_active_in}
use emoselfie_be.Domain.Views.{finalized_view}
use emoselfie_be.Domain.Views.Replay.{replayed, closing_results, closed_view-replays}
use emoselfie_be.Tests.Uploads.{first_byte, one_user, one_user-IsUser}

abbrev one_room : RoomTable
one_room = record { rooms = room_1 ∷ []; next_id = 2 }

-- The slug 5 is taken, and 6 is free.
create_room-IsCreated_example :
    IsCreated (room_1 ∷ []) 200 (5 ∷ 6 ∷ []) (create_room one_room 200 3 10 1000 (5 ∷ 6 ∷ []))
    × IsUnique (create_room one_room 200 3 10 1000 (5 ∷ 6 ∷ [])).1.rooms
create_room-IsCreated_example = create_room-IsCreated one_room 200 3 10 1000 5 (6 ∷ []) (tt, tt)

abbrev secrets_1 : CookieSecrets
secrets_1 = record { current = 1 ∷ []; previous = none }

abbrev rotated_secrets : CookieSecrets
rotated_secrets = record { current = 2 ∷ []; previous = some (1 ∷ []) }

abbrev cookie_1 : List ℕ
cookie_1 = sign_cookie first_byte (λ _. one_user) (λ _. some 1) (λ _. 4) 1 (1 ∷ [])

abbrev visit : Request
visit = record {
  is_http = true;
  path = api_prefix;
  method = [];
  scheme = [];
  host = none;
  origin = none;
  cookie = none;
}

abbrev visit_again : Request
visit_again = record visit { cookie = some cookie_1 }

visit_entered :
    middleware first_byte (λ _. one_user) (λ _. some 1) (λ _. 4) (λ _. none) secrets_1 1 visit
    ≡ entered 1 false (some cookie_1)
unfolding middleware
visit_entered = refl

middleware-persists_example :
    (middleware first_byte
        (λ _. one_user)
        (λ _. some 1)
        (λ _. 4)
        (λ _. none)
        secrets_1
        7
        visit_again
      ≡ entered 1 true none)
    × (middleware first_byte
          (λ _. one_user)
          (λ _. some 1)
          (λ _. 4)
          (λ _. none)
          rotated_secrets
          7
          visit_again
        ≡ entered 1 true
            (some (sign_cookie first_byte (λ _. one_user) (λ _. some 1) (λ _. 4) 1 (2 ∷ []))))
unfolding is_api is_foreign
middleware-persists_example =
    middleware-persists first_byte (λ _. one_user) (λ _. some 1) (λ _. 4) (λ _. none) secrets_1 1 7
      visit visit_again 1 false cookie_1 (2 ∷ []) one_user-IsUser visit_entered refl refl refl refl

abbrev one_worker : Limits
one_worker = record { concurrency = 1; queue_capacity = 1; max_bytes = 4 }

abbrev started_runner : InferenceRunner
started_runner = (end_start (start (new_runner 60)).1 true).1

-- A caller whose image is taken by the worker, and who does not wait for the answer.
abbrev busy_runner : InferenceRunner
busy_runner = time_out (work one_worker (enqueue one_worker started_runner (9 ∷ []) 1).1 2) 0 3

busy-Reach : Reach one_worker 60 busy_runner
unfolding new_runner start end_start
busy-Reach =
    Reach.next
      (Reach.next
        (Reach.next
          (Reach.next (Reach.next Reach.begins (Step.starts (new_runner 60)))
            (Step.ends_start (start (new_runner 60)).1 true refl))
          (Step.classifies started_runner (9 ∷ []) 1))
        (Step.works (enqueue one_worker started_runner (9 ∷ []) 1).1 2))
      (Step.times_out (work one_worker (enqueue one_worker started_runner (9 ∷ []) 1).1 2) 0 3)

Reach-IsServed_example : IsServed busy_runner
Reach-IsServed_example = Reach-IsServed one_worker 60 busy-Reach

Reach-IsWithin_example : IsWithin one_worker busy_runner
Reach-IsWithin_example = Reach-IsWithin one_worker 60 busy-Reach

closed_view-replays_example :
    All
      (λ e.
        is_active_in e.participant_id store_1.members ≡ true
        → Mem (replayed e) (closing_results settled.1 scoring_round ((3, (2, 1)) ∷ []) 60000))
      (finalized_view scoring_round settled.0).results
closed_view-replays_example =
    closed_view-replays store_1 settled.1 scored_keys scoring_round 20000 settled.0
      ((3, (2, 1)) ∷ []) 60000 tt (refl, (refl, tt)) settled.2
