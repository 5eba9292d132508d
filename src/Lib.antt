-- ===== src/Lib.antt =====
-- The backend of Emoselfie, a game in which players of a room photograph themselves with a given
-- emotion: its rules of scoring, rounds, rooms, reactions and timers, as state passing functions,
-- with the theorems that make them correct.
--
-- The parts, and the files that model them:
--
-- Core/Errors.antt      app/core/errors.py: the codes of `AppError` and their statuses, and `Result`.
-- Core/Security.antt    app/core/security.py: `capture_token` and `verify_capture_token`; Core/Cookies and
--                       Core/Media have its cookies and media tokens, Core/Text what they use of `str`.
-- Core/Ratelimit.antt   app/core/ratelimit.py: the script of the bucket, and `enforce_limit`.
-- Db.antt               app/db/models.py: the rows.
-- Domain/Enums.antt     app/domain/enums.py.
-- Domain/Keys.antt      the Redis keys of a round (app/core/redis.py), as one record `RoundKeys`.
-- Domain/Store.antt     the rows of one room, on which a transaction works that holds the room's lock.
-- Domain/Scoring.antt   app/domain/scoring/service.py. `score_round` is cut into the list
--                       comprehensions that it builds; Scoring/Totals has the totals of a game. The
--                       other files of Scoring/ hold its theorems.
-- Domain/Inflight.antt  app/domain/round/service.py from `read_submissions` to
--                       `force_pending_failed`: the state of an open round in Redis.
-- Domain/Settlement.antt  `finalize_round` of the same file; its loop is `settle_all`.
-- Domain/Views.antt     `finalized_view`, `closed_view` and `settled_results` of it.
-- Domain/Closing.antt   `close_round`, `finish_game`, `next_index` and `abort_reason` of it.
-- Domain/Scheduler.antt app/domain/scheduler/service.py, and the lease of app/core/redis.py.
-- Domain/Reactions.antt app/domain/reaction/service.py: the Lua scripts and the closing snapshot.
-- Domain/Game.antt      app/domain/game/emotions.py and app/domain/game/service.py.
-- Domain/Lifecycle.antt app/domain/round/runner.py: what the jobs of the scheduler do to a `World`,
--                       which is a store, the keys of its rounds, and the timers; and grace and
--                       release of app/domain/participant/service.py.
-- Domain/Rooms.antt     `create_room` of app/domain/room/service.py, on the tables of rooms and users,
--                       and `active_room` and `ensure_user` of app/domain/user/service.py.
-- Domain/Lobby.antt     `join_room` of app/domain/room/service.py, and `normalize_nickname` of
--                       app/domain/user/service.py.
-- Api/Rooms.antt        app/api/rooms.py: the transactions of its routes, and the timers that follow them.
-- Api/Session.antt      app/api/middleware.py, `current_user` and `returning_user` of app/api/deps.py, and
--                       app/api/session.py: the user of a request, and the cookie that is set.
-- Api/Submissions.antt  app/api/submissions.py: the transaction of `submit`.
-- Realtime.antt         app/realtime/server.py: the sockets in Redis. Realtime/Connections has `connect`,
--                       `disconnect` and `ping`, and `reconcile_connections` of the runner, on the rows
--                       of all rooms (`Hub`); Realtime/Emitter is app/realtime/emitter.py,
--                       Realtime/Delivery whom the server sends what, with the views of the lobby and
--                       of a round, and Realtime/Actions `react` and `skip`.
-- Api/Media.antt        app/api/media.py: `serve`.
-- Api/Infer.antt        app/api/inference.py: `infer`, on the engine's answer.
-- Media.antt            app/media/multipart.py; its children have the theorems.
-- Inference.antt        `CircuitBreaker` of app/inference/runner.py, and Inference/Queue its
--                       `InferenceRunner`, each part between two `await`s as one step. Inference/Faces has `largest_face` of
--                       app/inference/pipeline.py, and Inference/Results `EmotionResult` of
--                       app/inference/protocol.py with `_result_payload` of the runner of rounds.
-- Runner.antt           app/domain/round/runner.py: `dispatch`, `_score`, `_announce_score` and
--                       `send_backlog`, on the world, the sockets and the engine's verdict.
-- Prelude.antt and its children hold what these share: lists over the native numbers, sets,
-- dictionaries, and Python's stable `sorted` by keys of integers. Tests.antt and its children
-- apply the theorems to concrete rooms.
--
-- How they interact: `handle` takes a job that `claim_due` gave. At the deadline `close_entry` stops
-- uploads; `finalize` reads the keys of the round, calls `score_round` and settles the rows; `advance`
-- closes the round with the snapshot of its reactions, and opens the next one or finishes the game.
-- A vote of `skip` calls the same `advance`. `dispatch` follows an accepted upload, and `score` records
-- what the engine makes of it, in a task of its own; the last score settles a round that waits. The handlers of sockets and the sweep of a starting Pod are
-- steps on one `Hub`, in any order (Realtime/Steps).
--
-- Representation. A time is a number of milliseconds, a score a number of tenths (100.0 is 1000), a
-- text a list of character codes, and a UUID or slug a number. Most transactions
-- hold the row lock of a room, which serialises them, so each is one function; `submit` takes no lock, and
-- its transaction is taken as one step all the same, with its failure after Redis accepted an upload
-- as an argument. An error is a value, and what Redis keeps of a call that
-- raises is in its result. Python integers that may be negative are integers. A float is its shortest
-- decimal, as `str` gives it. The script of the rate limits counts tokens in floating point
-- numbers, which are exact fractions here, and the probabilities of a result are summed exactly.
--
-- Bounds. `decimal_digits` runs on one step of fuel for each unit of the number and one more, which
-- is more than it has digits. `separate` runs on the twenty attempts that the source allows, and
-- `first_free` on the twelve colours, and
-- `create_room` on the first five slugs of a list. All other loops are recursion on a list.
--
-- Parameters. The keyed digest (HMAC-SHA256 in Base64), Base64 itself, Python's `UUID`, the cached
-- images, the bytes of a timer's JSON, `urlsplit`, drawn slugs and UUIDs, the random
-- generator, and Unicode's normal form and character classes are arguments of what uses them.
--
-- Not modelled: the rest of the HTTP routes, the events of the runner other than cards, the scoring
-- of images by neural networks, image caching, expiry of Redis keys, database sessions,
-- migrations and configuration.
pub mod Api
pub mod Prelude
pub mod Core
pub mod Db
pub mod Domain
pub mod Inference
pub mod Realtime
pub mod Runner
pub mod Media
pub mod Tests
