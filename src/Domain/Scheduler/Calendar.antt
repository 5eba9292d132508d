-- ===== src/Domain/Scheduler/Calendar.antt =====
-- app/domain/scheduler/service.py: `TimerStore` beside an abstract calendar, which gives each job one time or none.
use emoselfie_be.Prelude.{
  ℕ, ◌≤◌, ◌≡◌, refl, sym, ◌∙◌, Bool, true, false, Option, none, some, List, [], ◌∷◌, map, arith,
  leb, length, keep, All, ℤ, if◌then◌else◌, Bool-cases, inl, inr, is_some,
}
use emoselfie_be.Prelude.Sort.{sort_by}
use emoselfie_be.Prelude.Every.{AllPairs, All-keep_of, All-sort_by}
use emoselfie_be.Domain.Scheduler.{
  Job, same_job, Timers, remove_job, due_at, schedule, cancel, is_due, remove_all, due, due_key,
  claim_due,
}
use emoselfie_be.Domain.Scheduler.Claim.{
  is_among, due_at-remove_job, due_at-schedule, claim_due_lem, All-take, same_job_sym,
}

-- The time at which each job is due, if it is scheduled.
abbrev pub Calendar : Type 0
Calendar = Job → Option ℕ

pub data Op : Type 0 where
  schedules : Job → ℕ → Op
  cancels : Job → Op
  claims : (now limit : ℕ) → Op

-- What a call returns.
pub data Answer : Type 0 where
  nothing : Answer
  was_there : Bool → Answer
  taken : List Job → Answer

abbrev pub is_past : ℕ → Option ℕ → Bool
is_past now none = false
is_past now (some t) = leb t now

-- What a calendar may do: a claim takes some jobs, no more than its limit, whose times have come.
pub data Turn (cal : Calendar) : Op → Answer → Calendar → Type 0 where
  scheduled :
      (j : Job) (t : ℕ)
      → Turn cal (Op.schedules j t) Answer.nothing (λ i. if same_job j i then some t else cal i)
  cancelled :
      (j : Job)
      → Turn cal
          (Op.cancels j)
          (Answer.was_there (is_some (cal j)))
          (λ i. if same_job j i then none else cal i)
  claimed :
      (now limit : ℕ) (js : List Job)
      → length js ≤ limit
      → All (λ j. is_past now (cal j) ≡ true) js
      → Turn cal
          (Op.claims now limit)
          (Answer.taken js)
          (λ i. if is_among i js then none else cal i)

pub data Turns : Calendar → List Op → List Answer → Calendar → Type 0 where
  stop : {cal : Calendar} → Turns cal [] [] cal
  turn :
      {cal cal' cal'' : Calendar} {op : Op} {a : Answer} {ops : List Op} {as_told : List Answer}
      → Turn cal op a cal'
      → Turns cal' ops as_told cal''
      → Turns cal (op ∷ ops) (a ∷ as_told) cal''

-- Each job stands once in the timers.
IsKeyed : Timers → Type 0
IsKeyed = AllPairs (λ a b. same_job a.0 b.0 ≡ false)

-- The timers say of each job what the calendar says.
unfoldable pub Agree : Timers → Calendar → Type 0
unfolding due_at
Agree ts cal = (j : Job) → due_at ts j ≡ cal j

module _ (member_bytes : Job → List ℤ) where
  -- The operations of `TimerStore`, one after the other.
  unfoldable pub perform : Timers → Op → Answer × Timers
  unfolding schedule cancel claim_due
  perform ts (Op.schedules j t) = (Answer.nothing, schedule ts j t)
  perform ts (Op.cancels j) = (Answer.was_there (cancel ts j).0, (cancel ts j).1)
  perform ts (Op.claims now limit) = (
    Answer.taken (claim_due member_bytes ts now limit).0,
    (claim_due member_bytes ts now limit).1,
  )

  unfoldable pub perform_all : Timers → List Op → List Answer × Timers
  unfolding perform
  perform_all ts [] = ([], ts)
  perform_all ts (op ∷ ops) =
      let (a, ts') = perform ts op in let (rest, last) = perform_all ts' ops in (a ∷ rest, last)

All-remove_job : (P : Job × ℕ → Type 0) (j : Job) (ts : Timers) → All P ts → All P (remove_job j ts)
All-remove_job P j [] a = tt
All-remove_job P j ((i, t) ∷ ts) a = elim (Bool-cases (same_job j i)) [
  | inl y ↦ rw y (All-remove_job P j ts a.1)
  | inr n ↦ rw n (a.0, All-remove_job P j ts a.1)
]

remove_job-IsKeyed : (j : Job) (ts : Timers) → IsKeyed ts → IsKeyed (remove_job j ts)
unfolding IsKeyed
remove_job-IsKeyed j [] k = tt
remove_job-IsKeyed j ((i, t) ∷ ts) k = elim (Bool-cases (same_job j i)) [
  | inl y ↦ rw y (remove_job-IsKeyed j ts k.1)
  | inr n ↦
      rw n (All-remove_job (λ b. same_job i b.0 ≡ false) j ts k.0, remove_job-IsKeyed j ts k.1)
]

remove_all-IsKeyed : (cs : List (Job × ℕ)) (ts : Timers) → IsKeyed ts → IsKeyed (remove_all cs ts)
remove_all-IsKeyed [] ts k = k
remove_all-IsKeyed ((j, _) ∷ cs) ts k =
    remove_all-IsKeyed cs (remove_job j ts) (remove_job-IsKeyed j ts k)

removed-apart : (j : Job) (ts : Timers) → All (λ b. same_job j b.0 ≡ false) (remove_job j ts)
removed-apart j [] = tt
removed-apart j ((i, t) ∷ ts) = elim (Bool-cases (same_job j i)) [
  | inl y ↦ rw y (removed-apart j ts)
  | inr n ↦ rw n (n, removed-apart j ts)
]

-- An entry gives the time of its job.
entries-due : (ts : Timers) → IsKeyed ts → All (λ e. due_at ts e.0 ≡ some e.1) ts
unfolding IsKeyed due_at
entries-due [] k = tt
entries-due ((j, t) ∷ ts) k = (rw (same_job_refl j) refl, later ts k.0 (entries-due ts k.1))
  where
    same_job_refl : (i : Job) → same_job i i ≡ true
    same_job_refl i = ground arith

    later :
        (es : Timers)
        → All (λ b. same_job j b.0 ≡ false) es
        → All (λ e. due_at ts e.0 ≡ some e.1) es
        → All (λ e. (if same_job e.0 j then some t else due_at ts e.0) ≡ some e.1) es
    later [] n a = tt
    later (e ∷ es) n a = (rw (same_job_sym e.0 j, n.0) a.0, later es n.1 a.1)

module _ (member_bytes : Job → List ℤ) where
  due-entries :
      (ts : Timers) (now limit : ℕ)
      → IsKeyed ts
      → All (λ e. due_at ts e.0 ≡ some e.1) (due member_bytes ts now limit)
  unfolding due
  due-entries ts now limit k =
      All-take (λ e. due_at ts e.0 ≡ some e.1) limit
        (sort_by (due_key member_bytes) (keep (is_due now) ts))
        (All-sort_by (λ e. due_at ts e.0 ≡ some e.1) (due_key member_bytes) (keep (is_due now) ts)
          (All-keep_of (λ e. due_at ts e.0 ≡ some e.1) (is_due now) ts (entries-due ts k)))

  past-jobs :
      (ts : Timers) (cal : Calendar) (now : ℕ) (es : List (Job × ℕ))
      → Agree ts cal
      → All (λ e. due_at ts e.0 ≡ some e.1) es
      → All (λ e. leb e.1 now ≡ true) es
      → All (λ j. is_past now (cal j) ≡ true) (map (λ e. e.0) es)
  unfolding Agree
  past-jobs ts cal now [] g a b = tt
  past-jobs ts cal now (e ∷ es) g a b =
      (rw (sym (g e.0) ∙ a.0) b.0, past-jobs ts cal now es g a.1 b.1)

  perform-Turn :
      (ts : Timers) (cal : Calendar) (op : Op)
      → IsKeyed ts
      → Agree ts cal
      → (cal' : Calendar) × Turn cal op (perform member_bytes ts op).0 cal'
        × Agree (perform member_bytes ts op).1 cal'
        × IsKeyed (perform member_bytes ts op).1
  unfolding perform cancel schedule Agree IsKeyed claim_due
  perform-Turn ts cal (Op.schedules j t) k g = (
    (λ i. if same_job j i then some t else cal i),
    Turn.scheduled j t,
    (λ i. due_at-schedule ts j i t ∙ rw (g i) refl),
    (removed-apart j ts, remove_job-IsKeyed j ts k),
  )
  perform-Turn ts cal (Op.cancels j) k g = (
    (λ i. if same_job j i then none else cal i),
    rw (g j) (Turn.cancelled j),
    (λ i. due_at-remove_job ts j i ∙ rw (g i) refl),
    remove_job-IsKeyed j ts k,
  )
  perform-Turn ts cal (Op.claims now limit) k g =
      let (few, past, same, times) = claim_due_lem member_bytes ts now limit in
      let js = (claim_due member_bytes ts now limit).0 in
      (
        (λ i. if is_among i js then none else cal i),
        Turn.claimed now limit js few (
            past-jobs ts cal now (due member_bytes ts now limit) g (due-entries ts now limit k)
              past),
        (λ i. times i ∙ rw (g i) refl),
        remove_all-IsKeyed (due member_bytes ts now limit) ts k,
      )

  perform_all-Turns :
      (ts : Timers) (cal : Calendar) (ops : List Op)
      → IsKeyed ts
      → Agree ts cal
      → (cal' : Calendar) × Turns cal ops (perform_all member_bytes ts ops).0 cal'
        × Agree (perform_all member_bytes ts ops).1 cal'
  unfolding perform_all
  perform_all-Turns ts cal [] k g = (cal, Turns.stop, g)
  perform_all-Turns ts cal (op ∷ ops) k g =
      let (cal₁, here, g₁, k₁) = perform-Turn ts cal op k g in
      let (cal₂, rest, g₂) = perform_all-Turns (perform member_bytes ts op).1 cal₁ ops k₁ g₁ in
      (cal₂, Turns.turn here rest, g₂)

  -- Whatever is scheduled, cancelled and claimed, in any order, the sorted set of timers answers as a
  -- calendar does that was empty at first, and gives each job the time that the calendar gives it.
  pub perform_all-refines :
      (ops : List Op)
      → (cal : Calendar) × Turns (λ _. none) ops (perform_all member_bytes [] ops).0 cal
        × Agree (perform_all member_bytes [] ops).1 cal
  unfolding IsKeyed Agree due_at
  perform_all-refines ops = perform_all-Turns [] (λ _. none) ops tt (λ j. refl)
