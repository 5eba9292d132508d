-- ===== src/Inference/Served.antt =====
-- `InferenceRunner`: no caller waits for a job that nobody has.
use emoselfie_be.Prelude.{
  ℕ, ◌+◌, ◌≡◌, refl, Bool, true, false, not, ◌&&◌, ◌||◌, Option, none, some, List, [], ◌∷◌, ◌++◌,
  arith, leb, ◌==◌, ==_iff, ==_refl, if◌then◌else◌, is_some, length, Bool-cases, inl, inr,
}
use emoselfie_be.Prelude.Sets.{has, discard, has-discard}
use emoselfie_be.Prelude.Dict.{lookup, insert, lookup-insert}
use emoselfie_be.Inference.{is_open, record_outcome}
use emoselfie_be.Inference.Results.{EmotionResult}
use emoselfie_be.Inference.Queue.{
  Fault, Answer, raised, InferenceJob, Limits, InferenceRunner, put_job, left_job, new_job, refusal,
  enqueue, time_out, give_up, judge, settle, begin, work, finish, outcome_of, start, end_start,
  aclose, shut_all, drain, new_runner, unavailable, engine_failed,
}
use emoselfie_be.Inference.Capacity.{has-snoc}
use emoselfie_be.Inference.Running.{lookup-shut_all, Step, Reach}

-- A job without an answer is in the executor, or waits in the queue with its bytes.
abbrev pub JobServed : Option InferenceJob → Bool → Bool → Type 0
JobServed none queued running = Unit
JobServed (some j) queued running =
    is_some j.result ≡ false → (running || (queued && is_some j.image)) ≡ true

abbrev pub IsServed : InferenceRunner → Type 0
IsServed r = (i : ℕ) → JobServed (lookup i r.jobs) (has i r.queue) (has i r.running)

moved-JobServed :
    (o : Option InferenceJob) (queued running queued' running' : Bool)
    → (queued ≡ true → queued' ≡ true)
    → (running ≡ true → running' ≡ true)
    → JobServed o queued running
    → JobServed o queued' running'
moved-JobServed none a b a' b' f g h = tt
moved-JobServed (some j) a b a' b' f g h = λ undone. let k = h undone in ground arith

put_job-IsServed :
    (i : ℕ) (j : InferenceJob) (r : InferenceRunner)
    → is_some j.result ≡ true
    → IsServed r
    → IsServed (put_job i j r)
put_job-IsServed i j r done s q = rw (lookup-insert q i j r.jobs) (by_key (q == i))
  where
    by_key :
        (b : Bool)
        → JobServed (if b then some j else lookup q r.jobs) (has q r.queue) (has q r.running)
    by_key true = λ undone. absurd (let e = undone in cc)
    by_key false = s q

left_job-done : (j : InferenceJob) → is_some (left_job j).result ≡ true
left_job-done j = ground arith

time_out-IsServed : (r : InferenceRunner) (i now : ℕ) → IsServed r → IsServed (time_out r i now)
unfolding time_out
time_out-IsServed r i now s = by_job (lookup i r.jobs)
  where
    by_job :
        (o : Option InferenceJob)
        → IsServed (elim o [
          | none ↦ r
          | some j ↦ if not j.awaited then r else record (put_job i (left_job j) r) {
            breaker = if j.started then record_outcome r.breaker false now else r.breaker;
          }
        ])
    by_job none = s
    by_job (some j) = elim (Bool-cases (not j.awaited)) [
      | inl y ↦ rw y s
      | inr n ↦ rw n (put_job-IsServed i (left_job j) r (left_job-done j) s)
    ]

give_up-IsServed : (r : InferenceRunner) (i : ℕ) → IsServed r → IsServed (give_up r i)
unfolding give_up
give_up-IsServed r i s = by_job (lookup i r.jobs)
  where
    by_job :
        (o : Option InferenceJob)
        → IsServed
            (elim o [ none ↦ r | some j ↦ if not j.awaited then r else put_job i (left_job j) r ])
    by_job none = s
    by_job (some j) = elim (Bool-cases (not j.awaited)) [
      | inl y ↦ rw y s
      | inr n ↦ rw n (put_job-IsServed i (left_job j) r (left_job-done j) s)
    ]

settle-IsServed : (r : InferenceRunner) (i now : ℕ) → IsServed r → IsServed (settle r i now).1
unfolding settle
settle-IsServed r i now s = by_job (lookup i r.jobs)
  where
    by_answer :
        (j : InferenceJob) (o : Option Answer)
        → IsServed
            (elim o as (λ _. Option Answer × InferenceRunner) [
              | none ↦ (none, r)
              | some a ↦
                  (some a, record (put_job i (left_job j) r) { breaker = judge r.breaker a now })
            ]).1
    by_answer j none = s
    by_answer j (some a) = put_job-IsServed i (left_job j) r (left_job-done j) s

    by_job :
        (o : Option InferenceJob)
        → IsServed
            (elim o as (λ _. Option Answer × InferenceRunner) [
              | none ↦ (none, r)
              | some j ↦ if not j.awaited then (none, r) else elim j.result [
                | none ↦ (none, r)
                | some a ↦
                    (some a, record (put_job i (left_job j) r) { breaker = judge r.breaker a now })
              ]
            ]).1
    by_job none = s
    by_job (some j) = elim (Bool-cases (not j.awaited)) [
      | inl y ↦ rw y s
      | inr n ↦ rw n (by_answer j j.result)
    ]

-- The runner after a job is queued.
queued-IsServed :
    (r : InferenceRunner) (image : List ℕ)
    → IsServed r
    → IsServed (record r {
      queue = r.queue ++ r.next_job ∷ [];
      jobs = insert r.next_job (new_job image) r.jobs;
      next_job = r.next_job + 1;
    })
queued-IsServed r image s q =
    rw (lookup-insert q r.next_job (new_job image) r.jobs, has-snoc q r.next_job r.queue)
      (by_key (q == r.next_job))
  where
    by_key :
        (b : Bool)
        → JobServed
            (if b then some (new_job image) else lookup q r.jobs)
            (has q r.queue || b)
            (has q r.running)
    by_key true = λ undone. ground arith
    by_key false =
        moved-JobServed (lookup q r.jobs) (has q r.queue) (has q r.running) (has q r.queue || false)
          (has q r.running) (λ a. ground arith) (λ a. a) (s q)

enqueue-IsServed :
    (l : Limits) (r : InferenceRunner) (image : List ℕ) (now : ℕ)
    → IsServed r
    → IsServed (enqueue l r image now).1
unfolding enqueue
enqueue-IsServed l r image now s = by_refusal (refusal l r image now)
  where
    by_refusal :
        (o : Option Fault)
        → IsServed
            (elim o as (λ _. Option Fault × InferenceRunner) [
              | some fault ↦ (some fault, r)
              | none ↦ (
                none,
                record r {
                  queue = r.queue ++ r.next_job ∷ [];
                  jobs = insert r.next_job (new_job image) r.jobs;
                  next_job = r.next_job + 1;
                },
              )
            ]).1
    by_refusal none = queued-IsServed r image s
    by_refusal (some fault) = s

-- Taking the head off the queue concerns its own job only.
taken-IsServed :
    (r : InferenceRunner) (i : ℕ) (rest : List ℕ)
    → r.queue ≡ i ∷ rest
    → JobServed (lookup i r.jobs) (has i rest) (has i r.running)
    → IsServed r
    → IsServed (record r { queue = rest })
taken-IsServed r i rest e mine s q = by_key (q == i) refl
  where
    by_key : (b : Bool) → (q == i) ≡ b → JobServed (lookup q r.jobs) (has q rest) (has q r.running)
    by_key true f = rw ((==_iff q i).0 f) mine
    by_key false f =
        moved-JobServed (lookup q r.jobs) (has q r.queue) (has q r.running) (has q rest)
          (has q r.running) (λ a. let c = rw e at a in ground arith) (λ a. a) (s q)

-- The head of the queue with a new state, in the executor or answered.
replaced-IsServed :
    (r : InferenceRunner) (i : ℕ) (rest running : List ℕ) (j : InferenceJob)
    → r.queue ≡ i ∷ rest
    → JobServed (some j) (has i rest) (has i running)
    → ((q : ℕ) → (q == i) ≡ false → has q running ≡ has q r.running)
    → IsServed r
    → IsServed (record (put_job i j (record r { queue = rest })) { running = running })
replaced-IsServed r i rest running j e mine same s q =
    rw (lookup-insert q i j r.jobs) (by_key (q == i) refl)
  where
    by_key :
        (b : Bool)
        → (q == i) ≡ b
        → JobServed (if b then some j else lookup q r.jobs) (has q rest) (has q running)
    by_key true f = rw ((==_iff q i).0 f) mine
    by_key false f =
        moved-JobServed (lookup q r.jobs) (has q r.queue) (has q r.running) (has q rest)
          (has q running) (λ a. let c = rw e at a in ground arith)
          (λ a. let k = same q f in ground arith) (s q)

begin-IsServed :
    (r : InferenceRunner) (i : ℕ) (rest : List ℕ) (j : InferenceJob) (now : ℕ)
    → r.queue ≡ i ∷ rest
    → lookup i r.jobs ≡ some j
    → IsServed r
    → IsServed (begin (record r { queue = rest }) i j now)
unfolding begin
begin-IsServed r i rest j now e found s =
    elim (Bool-cases (is_some j.result || not (is_some j.image))) [
      | inl y ↦ rw y (taken-IsServed r i rest e (rw found (skipped y)) s)
      | inr n ↦ rw n (by_open (is_open r.breaker now))
    ]
  where
    skipped :
        (is_some j.result || not (is_some j.image)) ≡ true
        → JobServed (some j) (has i rest) (has i r.running)
    skipped y = λ undone. let k = (rw found at (s i)) undone in ground arith

    by_open :
        (b : Bool)
        → IsServed (
            if b
            then put_job i
                (record j { image = none; result = some (raised Fault.circuit_open) })
                (record r { queue = rest })
            else record (put_job i
                (record j { image = none; started = true })
                (record r { queue = rest })) { running = i ∷ r.running })
    by_open true =
        replaced-IsServed r i rest r.running _ e (λ undone. absurd (let k = undone in cc))
          (λ q f. refl) s
    by_open false =
        replaced-IsServed r i rest (i ∷ r.running) _ e (λ undone. rw (==_refl i) refl)
          (λ q f. rw f refl) s

work-IsServed : (l : Limits) (r : InferenceRunner) (now : ℕ) → IsServed r → IsServed (work l r now)
unfolding work
work-IsServed l r now s = elim (Bool-cases (leb l.concurrency (length r.running))) [
  | inl y ↦ rw y s
  | inr n ↦ rw n (by_queue r.queue refl)
]
  where
    by_job :
        (i : ℕ) (rest : List ℕ) (o : Option InferenceJob)
        → r.queue ≡ i ∷ rest
        → lookup i r.jobs ≡ o
        → IsServed (elim o [
          | none ↦ record r { queue = rest }
          | some j ↦ begin (record r { queue = rest }) i j now
        ])
    by_job i rest none e found = taken-IsServed r i rest e (rw found tt) s
    by_job i rest (some j) e found = begin-IsServed r i rest j now e found s

    by_queue :
        (q : List ℕ)
        → r.queue ≡ q
        → IsServed (elim q [
          | [] ↦ r
          | i ∷ rest ↦ elim (lookup i r.jobs) [
            | none ↦ record r { queue = rest }
            | some j ↦ begin (record r { queue = rest }) i j now
          ]
        ])
    by_queue [] e = s
    by_queue (i ∷ rest) e = by_job i rest (lookup i r.jobs) e refl

finish-IsServed :
    (r : InferenceRunner) (i : ℕ) (e : Option EmotionResult) → IsServed r → IsServed (finish r i e)
unfolding finish
finish-IsServed r i e s = by_job (lookup i r.jobs) refl
  where
    freed :
        ((queued running : Bool) → JobServed (lookup i r.jobs) queued running)
        → IsServed (record r { running = discard i r.running })
    freed any q = by_key (q == i) refl
      where
        by_key :
            (b : Bool)
            → (q == i) ≡ b
            → JobServed (lookup q r.jobs) (has q r.queue) (has q (discard i r.running))
        by_key true f = rw ((==_iff q i).0 f) (any _ _)
        by_key false f =
            moved-JobServed (lookup q r.jobs) (has q r.queue) (has q r.running) (has q r.queue)
              (has q (discard i r.running)) (λ a. a)
              (λ a. ground (arith, has-discard q i r.running)) (s q)

    answered_now :
        (j : InferenceJob)
        → IsServed (
            put_job i
              (record j { result = some (outcome_of e) })
              (record r { running = discard i r.running }))
    answered_now j q =
        rw (lookup-insert q i (record j { result = some (outcome_of e) }) r.jobs)
          (by_key (q == i) refl)
      where
        by_key :
            (b : Bool)
            → (q == i) ≡ b
            → JobServed
                (if b then some (record j { result = some (outcome_of e) }) else lookup q r.jobs)
                (has q r.queue)
                (has q (discard i r.running))
        by_key true f = λ undone. absurd (let k = undone in cc)
        by_key false f =
            moved-JobServed (lookup q r.jobs) (has q r.queue) (has q r.running) (has q r.queue)
              (has q (discard i r.running)) (λ a. a)
              (λ a. ground (arith, has-discard q i r.running)) (s q)

    by_job :
        (o : Option InferenceJob)
        → lookup i r.jobs ≡ o
        → IsServed (elim o [
          | none ↦ record r { running = discard i r.running }
          | some j ↦
              if is_some j.result
              then record r { running = discard i r.running }
              else put_job i
                  (record j { result = some (outcome_of e) })
                  (record r { running = discard i r.running })
        ])
    by_job none found = freed (λ a b. rw found tt)
    by_job (some j) found = elim (Bool-cases (is_some j.result)) [
      | inl y ↦ rw y (freed (λ a b. rw found (λ undone. absurd (let k = undone in cc))))
      | inr n ↦ rw n (answered_now j)
    ]

start-IsServed : (r : InferenceRunner) → IsServed r → IsServed (start r).1
unfolding start
start-IsServed r s = by_flags r.closing r.ready r.starting
  where
    by_flags :
        (a b c : Bool)
        → IsServed
            (if◌then◌else◌ {A = Option Fault × InferenceRunner} a
              (some unavailable, r)
              (if b
                then (none, r)
                else if c
                then (some unavailable, r)
                else (none, record r { starting = true }))).1
    by_flags true b c = s
    by_flags false true c = s
    by_flags false false true = s
    by_flags false false false = s

aclose-IsServed : (r : InferenceRunner) → IsServed r → IsServed (aclose r)
unfolding aclose
aclose-IsServed r s = by_closing r.closing
  where
    by_closing : (b : Bool) → IsServed (if b then r else record r { ready = false; closing = true })
    by_closing true = s
    by_closing false = s

end_start-IsServed :
    (r : InferenceRunner) (warmed : Bool) → IsServed r → IsServed (end_start r warmed).1
unfolding end_start
end_start-IsServed r warmed s = by_flags warmed r.closing
  where
    by_flags :
        (a b : Bool)
        → IsServed
            (if◌then◌else◌ {A = Option Fault × InferenceRunner}
              (not a)
              (some engine_failed, record (aclose r) { starting = false })
              (if b
                then (some unavailable, record (aclose r) { starting = false })
                else (none, record r { ready = true; starting = false }))).1
    by_flags false b = aclose-IsServed r s
    by_flags true true = aclose-IsServed r s
    by_flags true false = s

drain-IsServed : (r : InferenceRunner) → IsServed r → IsServed (drain r)
unfolding drain
drain-IsServed r s = by_closing r.closing
  where
    by_closing :
        (b : Bool)
        → IsServed (if b then record r { queue = []; jobs = shut_all r.queue r.jobs } else r)
    by_closing true = λ q.
        lookup-shut_all (λ o. JobServed o false (has q r.running)) tt
          (λ j. λ undone. absurd (ground arith)) r.queue r.jobs q
          (λ out.
            moved-JobServed (lookup q r.jobs) (has q r.queue) (has q r.running) false
              (has q r.running) (λ a. ground arith) (λ a. a) (s q))
    by_closing false = s

Step-IsServed : {l : Limits} {r r' : InferenceRunner} → Step l r r' → IsServed r → IsServed r'
Step-IsServed (Step.starts r) s = start-IsServed r s
Step-IsServed (Step.ends_start r warmed e) s = end_start-IsServed r warmed s
Step-IsServed {l = l} (Step.classifies r image now) s = enqueue-IsServed l r image now s
Step-IsServed (Step.times_out r i now) s = time_out-IsServed r i now s
Step-IsServed (Step.gives_up r i) s = give_up-IsServed r i s
Step-IsServed (Step.settles r i now) s = settle-IsServed r i now s
Step-IsServed {l = l} (Step.works r now) s = work-IsServed l r now s
Step-IsServed (Step.finishes r i e busy) s = finish-IsServed r i e s
Step-IsServed (Step.closes r) s = aclose-IsServed r s
Step-IsServed (Step.drains r) s = drain-IsServed r s

-- No caller waits for a job that nobody has: whatever has happened to the runner, a job without
-- an answer is in the executor, or waits in the queue with the bytes of its image.
pub Reach-IsServed :
    (l : Limits) (cooldown : ℕ) {r : InferenceRunner} → Reach l cooldown r → IsServed r
unfolding new_runner
Reach-IsServed l cooldown Reach.begins = λ q. tt
Reach-IsServed l cooldown (Reach.next reach step) =
    Step-IsServed step (Reach-IsServed l cooldown reach)
