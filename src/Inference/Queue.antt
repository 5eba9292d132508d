-- ===== src/Inference/Queue.antt =====
-- app/inference/runner.py: `InferenceRunner`, the queue in front of the engine. What runs between
-- two `await`s is one step; a worker is one of `concurrency` places in `running`. The `None`s that
-- end the workers after the queue is drained are no jobs and are left out.
use emoselfie_be.Prelude.{
  ℕ, ◌+◌, Bool, true, false, not, ◌&&◌, ◌||◌, Option, none, some, List, [], ◌∷◌, ◌++◌, ltb, leb,
  if◌then◌else◌, is_some, length,
}
use emoselfie_be.Prelude.Sets.{discard}
use emoselfie_be.Prelude.Dict.{Dict, lookup, insert}
use emoselfie_be.Inference.{CircuitBreaker, is_open, record_outcome}
use emoselfie_be.Inference.Results.{EmotionResult}

-- The exceptions of the runner, and `InferenceError` itself.
pub data Fault : Type 0 where
  timeout overloaded unavailable circuit_open engine_failed : Fault

-- What the future of a job holds once it is done.
pub data Answer : Type 0 where
  answered : EmotionResult → Answer
  raised : Fault → Answer
  cancelled : Answer

-- `_Job`, and whether the caller of `classify` still waits for it.
pub record InferenceJob : Type 0 where
  pub image : Option (List ℕ)
  pub result : Option Answer
  pub started : Bool
  pub awaited : Bool

pub record Limits : Type 0 where
  pub concurrency : ℕ
  pub queue_capacity : ℕ
  pub max_bytes : ℕ

pub record InferenceRunner : Type 0 where
  pub ready : Bool
  pub starting : Bool
  pub closing : Bool
  -- the oldest job first
  pub queue : List ℕ
  pub jobs : Dict InferenceJob
  -- the jobs in the executor, as many as `active_count`
  pub running : List ℕ
  pub breaker : CircuitBreaker
  pub next_job : ℕ

abbrev pub is_ready : InferenceRunner → Bool
is_ready r = r.ready && not r.closing

abbrev pub put_job : ℕ → InferenceJob → InferenceRunner → InferenceRunner
put_job i j r = record r { jobs = insert i j r.jobs }

abbrev pub new_job : List ℕ → InferenceJob
new_job image = record { image = some image; result = none; started = false; awaited = true }

-- The fault that `classify` raises before it queues a job.
unfoldable pub refusal : Limits → InferenceRunner → List ℕ → ℕ → Option Fault
unfolding is_open
refusal l r image now =
    if not (is_ready r)
    then some unavailable
    else if ltb l.max_bytes (length image)
    then some overloaded
    else if is_open r.breaker now
    then some circuit_open
    else if leb l.queue_capacity (length r.queue)
    then some overloaded
    else none

-- `classify` up to its wait.
unfoldable pub enqueue : Limits → InferenceRunner → List ℕ → ℕ → Option Fault × InferenceRunner
unfolding refusal
enqueue l r image now = elim (refusal l r image now) [
  | some fault ↦ (some fault, r)
  | none ↦ (
    none,
    record r {
      queue = r.queue ++ r.next_job ∷ [];
      jobs = insert r.next_job (new_job image) r.jobs;
      next_job = r.next_job + 1;
    },
  )
]

-- The job after its caller is gone: its bytes are let go, and a future that is done stays so.
abbrev pub left_job : InferenceJob → InferenceJob
left_job j = record j {
  image = none;
  result = if is_some j.result then j.result else some cancelled;
  awaited = false;
}

-- `wait_for` runs into its timeout: only an engine that was at it is blamed.
unfoldable pub time_out : InferenceRunner → ℕ → ℕ → InferenceRunner
unfolding record_outcome
time_out r i now = elim (lookup i r.jobs) [
  | none ↦ r
  | some j ↦ if not j.awaited then r else record (put_job i (left_job j) r) {
    breaker = if j.started then record_outcome r.breaker false now else r.breaker;
  }
]

-- The caller is cancelled while it waits.
unfoldable pub give_up : InferenceRunner → ℕ → InferenceRunner
give_up r i = elim (lookup i r.jobs) [
  | none ↦ r
  | some j ↦ if not j.awaited then r else put_job i (left_job j) r
]

-- What the breaker learns of an answer: nothing where the engine was not asked.
unfoldable pub judge : CircuitBreaker → Answer → ℕ → CircuitBreaker
unfolding record_outcome
judge b (answered e) now = record_outcome b true now
judge b (raised unavailable) now = b
judge b (raised circuit_open) now = b
judge b (raised _) now = record_outcome b false now
judge b cancelled now = b

-- The caller goes on with the answer.
unfoldable pub settle : InferenceRunner → ℕ → ℕ → Option Answer × InferenceRunner
unfolding judge
settle r i now = elim (lookup i r.jobs) [
  | none ↦ (none, r)
  | some j ↦ if not j.awaited then (none, r) else elim j.result [
    | none ↦ (none, r)
    | some a ↦ (some a, record (put_job i (left_job j) r) { breaker = judge r.breaker a now })
  ]
]

-- A worker has taken the job from the queue.
unfoldable pub begin : InferenceRunner → ℕ → InferenceJob → ℕ → InferenceRunner
unfolding is_open
begin r i j now =
    if is_some j.result || not (is_some j.image)
    then r
    else if is_open r.breaker now
    then put_job i (record j { image = none; result = some (raised circuit_open) }) r
    else record (put_job i (record j { image = none; started = true }) r) {
      running = i ∷ r.running;
    }

-- A round of the loop of `_worker`, if a worker is free and a job is queued.
unfoldable pub work : Limits → InferenceRunner → ℕ → InferenceRunner
unfolding begin
work l r now = if leb l.concurrency (length r.running) then r else elim r.queue [
  | [] ↦ r
  | i ∷ rest ↦ elim (lookup i r.jobs) [
    | none ↦ record r { queue = rest }
    | some j ↦ begin (record r { queue = rest }) i j now
  ]
]

-- `_invoke` gives none where the engine fails, or its result is no valid one.
abbrev pub outcome_of : Option EmotionResult → Answer
outcome_of none = raised engine_failed
outcome_of (some e) = answered e

-- The executor is done with a job. The answer of a job whose caller is gone is dropped.
unfoldable pub finish : InferenceRunner → ℕ → Option EmotionResult → InferenceRunner
finish r i e =
    let r' = record r { running = discard i r.running } in
    elim (lookup i r.jobs) [
      | none ↦ r'
      | some j ↦
          if is_some j.result then r' else put_job i (record j { result = some (outcome_of e) }) r'
    ]

-- `start` up to the warmup.
unfoldable pub start : InferenceRunner → Option Fault × InferenceRunner
start r =
    if r.closing
    then (some unavailable, r)
    else if r.ready
    then (none, r)
    else if r.starting
    then (some unavailable, r)
    else (none, record r { starting = true })

-- `aclose`, before its task runs.
unfoldable pub aclose : InferenceRunner → InferenceRunner
aclose r = if r.closing then r else record r { ready = false; closing = true }

-- `start` after the warmup, which went well or not; what it raised is raised again.
unfoldable pub end_start : InferenceRunner → Bool → Option Fault × InferenceRunner
unfolding aclose
end_start r warmed =
    if not warmed
    then (some engine_failed, record (aclose r) { starting = false })
    else if r.closing
    then (some unavailable, record (aclose r) { starting = false })
    else (none, record r { ready = true; starting = false })

abbrev pub shut_job : InferenceJob → InferenceJob
shut_job j = record j {
  image = none;
  result = if is_some j.result then j.result else some (raised unavailable);
}

abbrev pub shut_all : List ℕ → Dict InferenceJob → Dict InferenceJob
shut_all [] jobs = jobs
shut_all (i ∷ is) jobs =
    shut_all is (elim (lookup i jobs) [ none ↦ jobs | some j ↦ insert i (shut_job j) jobs ])

-- The loop of `_shutdown` over the queue.
unfoldable pub drain : InferenceRunner → InferenceRunner
drain r = if r.closing then record r { queue = []; jobs = shut_all r.queue r.jobs } else r

-- `__init__`
unfoldable pub new_runner : ℕ → InferenceRunner
new_runner cooldown = record {
  ready = false;
  starting = false;
  closing = false;
  queue = [];
  jobs = [];
  running = [];
  breaker = record { history = []; open_until = 0; cooldown = cooldown };
  next_job = 0;
}
