-- ===== src/Inference/Running.antt =====
-- `InferenceRunner`: callers, workers, the executor and the shutdown in any order.
use emoselfie_be.Prelude.{
  ℕ, ◌≡◌, refl, Bool, true, false, not, Option, none, some, List, [], ◌∷◌, arith, ◌==◌, ==_iff,
  if◌then◌else◌, is_some, Bool-cases, inl, inr,
}
use emoselfie_be.Prelude.Sets.{has}
use emoselfie_be.Prelude.Dict.{Dict, lookup, insert, lookup-insert}
use emoselfie_be.Inference.Results.{EmotionResult}
use emoselfie_be.Inference.Queue.{
  InferenceJob, Limits, InferenceRunner, enqueue, time_out, give_up, settle, work, finish, start,
  end_start, aclose, shut_job, shut_all, drain, new_runner, Fault, unavailable, engine_failed,
}
use emoselfie_be.Inference.Capacity.{
  JobFits, IsWithin, time_out-IsWithin, give_up-IsWithin, settle-IsWithin, enqueue-IsWithin,
}
use emoselfie_be.Inference.Workers.{work-IsWithin, finish-IsWithin}

abbrev IsEmpty : Option InferenceJob → Type 0
IsEmpty none = Unit
IsEmpty (some j) = is_some j.image ≡ false

empty-fits :
    (o : Option InferenceJob) (queued running : Bool) → IsEmpty o → JobFits o queued running
empty-fits none q w h = tt
empty-fits (some j) q w h = λ full. absurd cc

-- What shutting a job brings about holds after the loop of `_shutdown` for every queued job, and
-- for any other job where it held before.
module _ (V : Option InferenceJob → Type 0) (absent : V none)
    (shut : (j : InferenceJob) → V (some (shut_job j))) where
  pub lookup-shut_all :
      (is : List ℕ) (jobs : Dict InferenceJob) (q : ℕ)
      → (has q is ≡ false → V (lookup q jobs))
      → V (lookup q (shut_all is jobs))
  lookup-shut_all [] jobs q h = h refl
  lookup-shut_all (i ∷ is) jobs q h = lookup-shut_all is _ q (by_job (lookup i jobs) refl)
    where
      apart : (q == i) ≡ false → has q is ≡ false → V (lookup q jobs)
      apart n out = h (rw (n, out) refl)

      by_key :
          (b : Bool) (j : InferenceJob)
          → (q == i) ≡ b
          → has q is ≡ false
          → V (if b then some (shut_job j) else lookup q jobs)
      by_key true j e out = shut j
      by_key false j e out = apart e out

      by_job :
          (o : Option InferenceJob)
          → lookup i jobs ≡ o
          → has q is ≡ false
          → V (lookup q (elim o [ none ↦ jobs | some j ↦ insert i (shut_job j) jobs ]))
      by_job none e out = elim (Bool-cases (q == i)) [
        | inl y ↦ let same : lookup q jobs ≡ none = rw ((==_iff q i).0 y) e in rw same absent
        | inr n ↦ apart n out
      ]
      by_job (some j) e out = rw (lookup-insert q i (shut_job j) jobs) (by_key (q == i) j refl out)

module _ (l : Limits) where
  -- The flags of the runner are no part of its bounds.
  flagged-IsWithin :
      (r : InferenceRunner) (ready starting closing : Bool)
      → IsWithin l r
      → IsWithin l (record r { ready = ready; starting = starting; closing = closing })
  flagged-IsWithin r a b c w = record {
    queued = w.queued;
    working = w.working;
    outcomes = w.outcomes;
    fits = w.fits;
    known = w.known;
  }

  start-IsWithin : (r : InferenceRunner) → IsWithin l r → IsWithin l (start r).1
  unfolding start
  start-IsWithin r w = by_flags r.closing r.ready r.starting
    where
      by_flags :
          (a b c : Bool)
          → IsWithin l
              (if◌then◌else◌ {A = Option Fault × InferenceRunner} a
                (some unavailable, r)
                (if b
                  then (none, r)
                  else if c
                  then (some unavailable, r)
                  else (none, record r { starting = true }))).1
      by_flags true b c = w
      by_flags false true c = w
      by_flags false false true = w
      by_flags false false false = flagged-IsWithin r r.ready true r.closing w

  aclose-IsWithin : (r : InferenceRunner) → IsWithin l r → IsWithin l (aclose r)
  unfolding aclose
  aclose-IsWithin r w = by_closing r.closing
    where
      by_closing :
          (b : Bool) → IsWithin l (if b then r else record r { ready = false; closing = true })
      by_closing true = w
      by_closing false = flagged-IsWithin r false r.starting true w

  end_start-IsWithin :
      (r : InferenceRunner) (warmed : Bool) → IsWithin l r → IsWithin l (end_start r warmed).1
  unfolding end_start
  end_start-IsWithin r warmed w = by_flags warmed r.closing
    where
      closed : IsWithin l (record (aclose r) { starting = false })
      closed =
          flagged-IsWithin (aclose r) (aclose r).ready false (aclose r).closing
            (aclose-IsWithin r w)

      by_flags :
          (a b : Bool)
          → IsWithin l
              (if◌then◌else◌ {A = Option Fault × InferenceRunner}
                (not a)
                (some engine_failed, record (aclose r) { starting = false })
                (if b
                  then (some unavailable, record (aclose r) { starting = false })
                  else (none, record r { ready = true; starting = false }))).1
      by_flags false b = closed
      by_flags true true = closed
      by_flags true false = flagged-IsWithin r true false r.closing w

  drain-IsWithin : (r : InferenceRunner) → IsWithin l r → IsWithin l (drain r)
  unfolding drain
  drain-IsWithin r w = by_closing r.closing
    where
      outside :
          (q : ℕ) (o : Option InferenceJob)
          → JobFits o (has q r.queue) (has q r.running)
          → has q r.queue ≡ false
          → IsEmpty o
      outside q none fits out = tt
      outside q (some j) fits out = elim (Bool-cases (is_some j.image)) [
        | inl y ↦ absurd (let (inside, _, _, _) = fits y in cc)
        | inr n ↦ n
      ]

      by_closing :
          (b : Bool)
          → IsWithin l (if b then record r { queue = []; jobs = shut_all r.queue r.jobs } else r)
      by_closing true = record {
        queued = omega arith;
        working = w.working;
        outcomes = w.outcomes;
        fits = λ q. empty-fits (lookup q (shut_all r.queue r.jobs)) false (has q r.running) (
            lookup-shut_all IsEmpty tt (λ j. refl) r.queue r.jobs q
              (outside q (lookup q r.jobs) (w.fits q)));
        known = λ q h. w.known q (ground arith);
      }
      by_closing false = w

  -- What may happen to the runner next.
  pub data Step : InferenceRunner → InferenceRunner → Type 0 where
    starts : (r : InferenceRunner) → Step r (start r).1
    ends_start :
        (r : InferenceRunner) (warmed : Bool) → r.starting ≡ true → Step r (end_start r warmed).1
    classifies : (r : InferenceRunner) (image : List ℕ) (now : ℕ) → Step r (enqueue l r image now).1
    times_out : (r : InferenceRunner) (i now : ℕ) → Step r (time_out r i now)
    gives_up : (r : InferenceRunner) (i : ℕ) → Step r (give_up r i)
    settles : (r : InferenceRunner) (i now : ℕ) → Step r (settle r i now).1
    works : (r : InferenceRunner) (now : ℕ) → Step r (work l r now)
    finishes :
        (r : InferenceRunner) (i : ℕ) (e : Option EmotionResult)
        → has i r.running ≡ true
        → Step r (finish r i e)
    closes : (r : InferenceRunner) → Step r (aclose r)
    drains : (r : InferenceRunner) → Step r (drain r)

  Step-IsWithin : {r r' : InferenceRunner} → Step r r' → IsWithin l r → IsWithin l r'
  Step-IsWithin (starts r) w = start-IsWithin r w
  Step-IsWithin (ends_start r warmed e) w = end_start-IsWithin r warmed w
  Step-IsWithin (classifies r image now) w = enqueue-IsWithin l r image now w
  Step-IsWithin (times_out r i now) w = time_out-IsWithin l r i now w
  Step-IsWithin (gives_up r i) w = give_up-IsWithin l r i w
  Step-IsWithin (settles r i now) w = settle-IsWithin l r i now w
  Step-IsWithin (works r now) w = work-IsWithin l r now w
  Step-IsWithin (finishes r i e busy) w = finish-IsWithin l r i e busy w
  Step-IsWithin (closes r) w = aclose-IsWithin r w
  Step-IsWithin (drains r) w = drain-IsWithin r w

  pub data Reach (cooldown : ℕ) : InferenceRunner → Type 0 where
    begins : Reach cooldown (new_runner cooldown)
    next : {r r' : InferenceRunner} → Reach cooldown r → Step r r' → Reach cooldown r'

  -- However callers, workers, timeouts and the shutdown follow one another: the queue and the
  -- executor stay within their limits, the breaker keeps at most twenty outcomes, and the bytes
  -- of an image are held only for a job that is in the queue, not begun and not answered, while
  -- its caller waits.
  pub Reach-IsWithin : (cooldown : ℕ) {r : InferenceRunner} → Reach cooldown r → IsWithin l r
  unfolding new_runner
  Reach-IsWithin cooldown begins = record {
    queued = omega arith;
    working = omega arith;
    outcomes = omega arith;
    fits = λ q. tt;
    known = λ q h. absurd cc;
  }
  Reach-IsWithin cooldown (next reach step) = Step-IsWithin step (Reach-IsWithin cooldown reach)
