-- ===== src/Inference/Capacity.antt =====
-- `InferenceRunner`: its bounds, and what its callers do to them.
use emoselfie_be.Prelude.{
  ℕ, ◌+◌, ◌≤◌, ◌<◌, ◌≡◌, refl, Bool, true, false, not, ◌||◌, Option, none, some, List, [], ◌∷◌,
  ◌++◌, arith, ◌==◌, if◌then◌else◌, is_some, length, length-append, Bool-cases, inl, inr,
}
use emoselfie_be.Prelude.Sets.{has}
use emoselfie_be.Prelude.Dict.{Dict, lookup, insert, lookup-insert}
use emoselfie_be.Inference.{CircuitBreaker, record_outcome}
use emoselfie_be.Inference.Breaker.{IsBounded, record_outcome_lem}
use emoselfie_be.Inference.Queue.{
  Fault, Answer, answered, raised, cancelled, InferenceJob, Limits, InferenceRunner, put_job,
  left_job, new_job, refusal, enqueue, time_out, give_up, judge, settle,
}

-- A job that holds the bytes of its image waits in the queue, and its caller waits for it.
abbrev pub JobFits : Option InferenceJob → Bool → Bool → Type 0
JobFits none queued running = Unit
JobFits (some j) queued running =
    is_some j.image ≡ true
    → (queued ≡ true) × (running ≡ false) × (j.awaited ≡ true) × (is_some j.result ≡ false)

abbrev pub AllFit : Dict InferenceJob → List ℕ → List ℕ → Type 0
AllFit jobs queue running = (i : ℕ) → JobFits (lookup i jobs) (has i queue) (has i running)

pub record IsWithin (l : Limits) (r : InferenceRunner) : Type 0 where
  pub queued : length r.queue ≤ l.queue_capacity
  pub working : length r.running ≤ l.concurrency
  pub outcomes : IsBounded r.breaker
  pub fits : AllFit r.jobs r.queue r.running
  pub known : (i : ℕ) → (has i r.queue || has i r.running) ≡ true → i < r.next_job

pub put-AllFit :
    (i : ℕ) (j : InferenceJob) (jobs : Dict InferenceJob) (queue running : List ℕ)
    → is_some j.image ≡ false
    → AllFit jobs queue running
    → AllFit (insert i j jobs) queue running
put-AllFit i j jobs queue running empty h q = rw (lookup-insert q i j jobs) (by_key (q == i))
  where
    by_key :
        (b : Bool) → JobFits (if b then some j else lookup q jobs) (has q queue) (has q running)
    by_key true = λ full. absurd (let e = full in cc)
    by_key false = h q

pub left-IsWithin :
    (l : Limits) (r : InferenceRunner) (i : ℕ) (j : InferenceJob) (b : CircuitBreaker)
    → is_some j.image ≡ false
    → IsBounded b
    → IsWithin l r
    → IsWithin l (record (put_job i j r) { breaker = b })
left-IsWithin l r i j b empty bounded w = record {
  queued = w.queued;
  working = w.working;
  outcomes = bounded;
  fits = put-AllFit i j r.jobs r.queue r.running empty w.fits;
  known = w.known;
}

record-IsBounded :
    (b : CircuitBreaker) (s : Bool) (now : ℕ) → IsBounded b → IsBounded (record_outcome b s now)
record-IsBounded b s now h = (record_outcome_lem b s now h).0

judge-IsBounded :
    (b : CircuitBreaker) (a : Answer) (now : ℕ) → IsBounded b → IsBounded (judge b a now)
unfolding judge
judge-IsBounded b (answered e) now h = record-IsBounded b true now h
judge-IsBounded b (raised Fault.unavailable) now h = h
judge-IsBounded b (raised Fault.circuit_open) now h = h
judge-IsBounded b (raised Fault.timeout) now h = record-IsBounded b false now h
judge-IsBounded b (raised Fault.overloaded) now h = record-IsBounded b false now h
judge-IsBounded b (raised Fault.engine_failed) now h = record-IsBounded b false now h
judge-IsBounded b cancelled now h = h

pub or_false : (b : Bool) → (b || false) ≡ b
or_false true = refl
or_false false = refl

-- Leaving the queue is no loss for a job that holds no bytes, nor is a place in the executor.
pub moved-JobFits :
    (o : Option InferenceJob) (queued running queued' running' : Bool)
    → (queued ≡ true → running ≡ false → (queued' ≡ true) × (running' ≡ false))
    → JobFits o queued running
    → JobFits o queued' running'
moved-JobFits none q w q' w' move h = tt
moved-JobFits (some j) q w q' w' move h =
    λ full. let (a, b, c, d) = h full in let (a', b') = move a b in (a', b', c, d)

pub has-snoc : (q i : ℕ) (xs : List ℕ) → has q (xs ++ i ∷ []) ≡ (has q xs || (q == i))
has-snoc q i [] = ground arith
has-snoc q i (x ∷ xs) = ground (arith, has-snoc q i xs)

module _ (l : Limits) where
  same-IsWithin :
      (r : InferenceRunner) (b : CircuitBreaker)
      → IsBounded b
      → IsWithin l r
      → IsWithin l (record r { breaker = b })
  same-IsWithin r b bounded w = record {
    queued = w.queued;
    working = w.working;
    outcomes = bounded;
    fits = w.fits;
    known = w.known;
  }

  pub time_out-IsWithin :
      (r : InferenceRunner) (i now : ℕ) → IsWithin l r → IsWithin l (time_out r i now)
  unfolding time_out
  time_out-IsWithin r i now w = by_job (lookup i r.jobs)
    where
      by_started :
          (j : InferenceJob) (b : Bool)
          → IsBounded (if b then record_outcome r.breaker false now else r.breaker)
      by_started j true = record-IsBounded r.breaker false now w.outcomes
      by_started j false = w.outcomes

      by_job :
          (o : Option InferenceJob)
          → IsWithin l (elim o [
            | none ↦ r
            | some j ↦ if not j.awaited then r else record (put_job i (left_job j) r) {
              breaker = if j.started then record_outcome r.breaker false now else r.breaker;
            }
          ])
      by_job none = w
      by_job (some j) = elim (Bool-cases (not j.awaited)) [
        | inl y ↦ rw y w
        | inr n ↦ rw n (left-IsWithin l r i (left_job j) _ refl (by_started j j.started) w)
      ]

  pub give_up-IsWithin : (r : InferenceRunner) (i : ℕ) → IsWithin l r → IsWithin l (give_up r i)
  unfolding give_up
  give_up-IsWithin r i w = by_job (lookup i r.jobs)
    where
      by_job :
          (o : Option InferenceJob)
          → IsWithin l
              (elim o [ none ↦ r | some j ↦ if not j.awaited then r else put_job i (left_job j) r ])
      by_job none = w
      by_job (some j) = elim (Bool-cases (not j.awaited)) [
        | inl y ↦ rw y w
        | inr n ↦ rw n (left-IsWithin l r i (left_job j) r.breaker refl w.outcomes w)
      ]

  pub settle-IsWithin :
      (r : InferenceRunner) (i now : ℕ) → IsWithin l r → IsWithin l (settle r i now).1
  unfolding settle
  settle-IsWithin r i now w = by_job (lookup i r.jobs)
    where
      by_answer :
          (j : InferenceJob) (o : Option Answer)
          → IsWithin l
              (elim o as (λ _. Option Answer × InferenceRunner) [
                | none ↦ (none, r)
                | some a ↦
                    (some a, record (put_job i (left_job j) r) { breaker = judge r.breaker a now })
              ]).1
      by_answer j none = w
      by_answer j (some a) =
          left-IsWithin l r i (left_job j) (judge r.breaker a now) refl
            (judge-IsBounded r.breaker a now w.outcomes) w

      by_job :
          (o : Option InferenceJob)
          → IsWithin l
              (elim o as (λ _. Option Answer × InferenceRunner) [
                | none ↦ (none, r)
                | some j ↦ if not j.awaited then (none, r) else elim j.result [
                  | none ↦ (none, r)
                  | some a ↦ (
                    some a,
                    record (put_job i (left_job j) r) { breaker = judge r.breaker a now },
                  )
                ]
              ]).1
      by_job none = w
      by_job (some j) = elim (Bool-cases (not j.awaited)) [
        | inl y ↦ rw y w
        | inr n ↦ rw n (by_answer j j.result)
      ]

  refusal-room :
      (r : InferenceRunner) (image : List ℕ) (now : ℕ)
      → refusal l r image now ≡ none
      → length r.queue < l.queue_capacity
  unfolding refusal
  refusal-room r image now h = ground arith

  queue_up-IsWithin :
      (r : InferenceRunner) (image : List ℕ)
      → length r.queue < l.queue_capacity
      → IsWithin l r
      → IsWithin l (record r {
        queue = r.queue ++ r.next_job ∷ [];
        jobs = insert r.next_job (new_job image) r.jobs;
        next_job = r.next_job + 1;
      })
  queue_up-IsWithin r image h w = record {
    queued = rw (length-append r.queue (r.next_job ∷ [])) (omega arith);
    working = w.working;
    outcomes = w.outcomes;
    fits = λ q.
        rw (lookup-insert q r.next_job (new_job image) r.jobs, has-snoc q r.next_job r.queue)
          (by_key q (q == r.next_job) refl);
    known = λ q e. ground (arith, has-snoc q r.next_job r.queue, w.known q);
  }
    where
      by_key :
          (q : ℕ) (b : Bool)
          → (q == r.next_job) ≡ b
          → JobFits
              (if b then some (new_job image) else lookup q r.jobs)
              (has q r.queue || b)
              (has q r.running)
      by_key q true e = λ _. (ground arith, ground (arith, w.known q), refl, refl)
      by_key q false e = rw (or_false (has q r.queue)) (w.fits q)

  pub enqueue-IsWithin :
      (r : InferenceRunner) (image : List ℕ) (now : ℕ)
      → IsWithin l r
      → IsWithin l (enqueue l r image now).1
  unfolding enqueue
  enqueue-IsWithin r image now w = by_refusal (refusal l r image now) refl
    where
      by_refusal :
          (o : Option Fault)
          → refusal l r image now ≡ o
          → IsWithin l
              (elim o as (λ _. Option Fault × InferenceRunner) [
                | some fault ↦ (some fault, r)
                | none ↦ (
                  none,
                  record r {
                    queue = r.queue ++ r.next_job ∷ [];
                    jobs = insert r.next_job (new_job image) r.jobs;
                    next_job = r.next_job + 1;
                  },
                )
              ]).1
      by_refusal none e = queue_up-IsWithin r image (refusal-room r image now e) w
      by_refusal (some fault) e = w
