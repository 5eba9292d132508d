-- ===== src/Inference/Workers.antt =====
-- `InferenceRunner`: its bounds, and what its workers do to them.
use emoselfie_be.Prelude.{
  ℕ, ◌≤◌, ◌<◌, ◌≡◌, refl, ap, Bool, true, false, not, ◌||◌, Option, none, some, List, [], ◌∷◌,
  arith, leb, ◌==◌, ==_iff, if◌then◌else◌, is_some, length, Bool-cases, inl, inr,
}
use emoselfie_be.Prelude.Sets.{has, discard, has-discard}
use emoselfie_be.Prelude.Dict.{lookup, lookup-insert}
use emoselfie_be.Inference.{is_open}
use emoselfie_be.Inference.Results.{EmotionResult}
use emoselfie_be.Inference.Queue.{
  Fault, raised, InferenceJob, Limits, InferenceRunner, put_job, begin, work, finish, outcome_of,
}
use emoselfie_be.Inference.Capacity.{JobFits, IsWithin, left-IsWithin, moved-JobFits}

module _ (l : Limits) where
  -- What a worker leaves of the job that it took from the head of the queue.
  taken-IsWithin :
      (r : InferenceRunner) (i : ℕ) (rest : List ℕ) (j : InferenceJob)
      → r.queue ≡ i ∷ rest
      → is_some j.image ≡ false
      → IsWithin l r
      → IsWithin l (put_job i j (record r { queue = rest }))
  taken-IsWithin r i rest j e empty w = record {
    queued = let k = w.queued in let s = ap length e in omega arith;
    working = w.working;
    outcomes = w.outcomes;
    fits = λ q. rw (lookup-insert q i j r.jobs) (by_key q (q == i) refl);
    known = λ q h. w.known q (rw e (ground arith));
  }
    where
      by_key :
          (q : ℕ) (b : Bool)
          → (q == i) ≡ b
          → JobFits (if b then some j else lookup q r.jobs) (has q rest) (has q r.running)
      by_key q true f = λ full. absurd (let g = full in cc)
      by_key q false f =
          moved-JobFits (lookup q r.jobs) (has q r.queue) (has q r.running) (has q rest)
            (has q r.running) (λ a b. ((let c = rw e at a in ground arith), b)) (w.fits q)

  run-IsWithin :
      (r : InferenceRunner) (i : ℕ) (rest : List ℕ) (j : InferenceJob)
      → r.queue ≡ i ∷ rest
      → is_some j.image ≡ false
      → length r.running < l.concurrency
      → IsWithin l r
      → IsWithin l (record (put_job i j (record r { queue = rest })) { running = i ∷ r.running })
  run-IsWithin r i rest j e empty free w =
      let t = taken-IsWithin r i rest j e empty w in
      record {
        queued = t.queued;
        working = omega arith;
        outcomes = w.outcomes;
        fits = λ q. rw (lookup-insert q i j r.jobs) (by_key q (q == i) refl);
        known = λ q h. w.known q (rw e (ground arith));
      }
    where
      by_key :
          (q : ℕ) (b : Bool)
          → (q == i) ≡ b
          → JobFits (if b then some j else lookup q r.jobs) (has q rest) (b || has q r.running)
      by_key q true f = λ full. absurd (let g = full in cc)
      by_key q false f =
          moved-JobFits (lookup q r.jobs) (has q r.queue) (has q r.running) (has q rest)
            (has q r.running) (λ a b. ((let c = rw e at a in ground arith), b)) (w.fits q)

  -- A job without bytes is passed over.
  skip-IsWithin :
      (r : InferenceRunner) (i : ℕ) (rest : List ℕ)
      → r.queue ≡ i ∷ rest
      → ((queued running : Bool) → JobFits (lookup i r.jobs) queued running)
      → IsWithin l r
      → IsWithin l (record r { queue = rest })
  skip-IsWithin r i rest e any w = record {
    queued = let k = w.queued in let s = ap length e in omega arith;
    working = w.working;
    outcomes = w.outcomes;
    fits = λ q. by_key q (q == i) refl;
    known = λ q h. w.known q (rw e (ground arith));
  }
    where
      by_key :
          (q : ℕ) (b : Bool)
          → (q == i) ≡ b
          → JobFits (lookup q r.jobs) (has q rest) (has q r.running)
      by_key q true f = rw ((==_iff q i).0 f) (any (has i rest) (has i r.running))
      by_key q false f =
          moved-JobFits (lookup q r.jobs) (has q r.queue) (has q r.running) (has q rest)
            (has q r.running) (λ a b. ((let c = rw e at a in ground arith), b)) (w.fits q)

  empty-JobFits :
      (o : Option InferenceJob) (j : InferenceJob)
      → o ≡ some j
      → is_some j.image ≡ false
      → (queued running : Bool) → JobFits o queued running
  empty-JobFits none j e empty q w = tt
  empty-JobFits (some k) j e empty q w =
      λ full. absurd (let same : is_some k.image ≡ is_some j.image = cc in cc)

  no_bytes :
      (j : InferenceJob) (queued running : Bool)
      → JobFits (some j) queued running
      → (is_some j.result || not (is_some j.image)) ≡ true
      → is_some j.image ≡ false
  no_bytes j queued running fits h = elim (Bool-cases (is_some j.image)) [
    | inl y ↦ absurd (let (_, _, _, undone) = fits y in ground arith)
    | inr n ↦ n
  ]

  begin-IsWithin :
      (r : InferenceRunner) (i : ℕ) (rest : List ℕ) (j : InferenceJob) (now : ℕ)
      → r.queue ≡ i ∷ rest
      → lookup i r.jobs ≡ some j
      → length r.running < l.concurrency
      → IsWithin l r
      → IsWithin l (begin (record r { queue = rest }) i j now)
  unfolding begin
  begin-IsWithin r i rest j now e found free w =
      elim (Bool-cases (is_some j.result || not (is_some j.image))) [
        | inl y ↦
            let fits = rw found at (w.fits i) in
            rw y (
              skip-IsWithin r i rest e
                (empty-JobFits (lookup i r.jobs) j found (no_bytes j _ _ fits y)) w)
        | inr n ↦ rw n (by_open (is_open r.breaker now))
      ]
    where
      by_open :
          (b : Bool)
          → IsWithin l (
              if b
              then put_job i
                  (record j { image = none; result = some (raised Fault.circuit_open) })
                  (record r { queue = rest })
              else record (put_job i
                  (record j { image = none; started = true })
                  (record r { queue = rest })) { running = i ∷ r.running })
      by_open true = taken-IsWithin r i rest _ e refl w
      by_open false = run-IsWithin r i rest _ e refl free w

  pub work-IsWithin : (r : InferenceRunner) (now : ℕ) → IsWithin l r → IsWithin l (work l r now)
  unfolding work
  work-IsWithin r now w = elim (Bool-cases (leb l.concurrency (length r.running))) [
    | inl y ↦ rw y w
    | inr n ↦ rw n (by_queue r.queue refl (ground arith))
  ]
    where
      by_job :
          (i : ℕ) (rest : List ℕ) (o : Option InferenceJob)
          → r.queue ≡ i ∷ rest
          → lookup i r.jobs ≡ o
          → length r.running < l.concurrency
          → IsWithin l (elim o [
            | none ↦ record r { queue = rest }
            | some j ↦ begin (record r { queue = rest }) i j now
          ])
      by_job i rest none e found free = skip-IsWithin r i rest e (λ a b. rw found tt) w
      by_job i rest (some j) e found free = begin-IsWithin r i rest j now e found free w

      by_queue :
          (q : List ℕ)
          → r.queue ≡ q
          → length r.running < l.concurrency
          → IsWithin l (elim q [
            | [] ↦ r
            | i ∷ rest ↦ elim (lookup i r.jobs) [
              | none ↦ record r { queue = rest }
              | some j ↦ begin (record r { queue = rest }) i j now
            ]
          ])
      by_queue [] e free = w
      by_queue (i ∷ rest) e free = by_job i rest (lookup i r.jobs) e refl free

  discard-length : (i : ℕ) (xs : List ℕ) → length (discard i xs) ≤ length xs
  discard-length i [] = omega arith
  discard-length i (x ∷ xs) = ground (arith, discard-length i xs)

  -- The executor lets go of a job.
  freed-IsWithin :
      (r : InferenceRunner) (i : ℕ)
      → has i r.running ≡ true
      → IsWithin l r
      → IsWithin l (record r { running = discard i r.running })
  freed-IsWithin r i busy w = record {
    queued = w.queued;
    working = let k = w.working in let d = discard-length i r.running in omega arith;
    outcomes = w.outcomes;
    fits = λ q.
        moved-JobFits (lookup q r.jobs) (has q r.queue) (has q r.running) (has q r.queue)
          (has q (discard i r.running)) (λ a b. (a, ground (arith, has-discard q i r.running)))
          (w.fits q);
    known = λ q h. w.known q (ground (arith, has-discard q i r.running));
  }

  busy-empty :
      (j : InferenceJob) (queued running : Bool)
      → running ≡ true
      → JobFits (some j) queued running
      → is_some j.image ≡ false
  busy-empty j queued running busy fits = elim (Bool-cases (is_some j.image)) [
    | inl y ↦ absurd (let (_, idle, _, _) = fits y in ground arith)
    | inr n ↦ n
  ]

  pub finish-IsWithin :
      (r : InferenceRunner) (i : ℕ) (e : Option EmotionResult)
      → has i r.running ≡ true
      → IsWithin l r
      → IsWithin l (finish r i e)
  unfolding finish
  finish-IsWithin r i e busy w = by_job (lookup i r.jobs) refl
    where
      freed : IsWithin l (record r { running = discard i r.running })
      freed = freed-IsWithin r i busy w

      by_job :
          (o : Option InferenceJob)
          → lookup i r.jobs ≡ o
          → IsWithin l (elim o [
            | none ↦ record r { running = discard i r.running }
            | some j ↦
                if is_some j.result
                then record r { running = discard i r.running }
                else put_job i
                    (record j { result = some (outcome_of e) })
                    (record r { running = discard i r.running })
          ])
      by_job none found = freed
      by_job (some j) found = elim (Bool-cases (is_some j.result)) [
        | inl y ↦ rw y freed
        | inr n ↦
            let fits = rw found at (w.fits i) in
            rw n (
              left-IsWithin l (record r { running = discard i r.running }) i
                (record j { result = some (outcome_of e) }) r.breaker (busy-empty j _ _ busy fits)
                w.outcomes freed)
      ]
