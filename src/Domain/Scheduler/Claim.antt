-- ===== src/Domain/Scheduler/Claim.antt =====
-- `TimerStore` of app/domain/scheduler/service.py: what scheduling, cancelling and claiming do to
-- the time at which each job is due.
use emoselfie_be.Prelude.{
  ℕ, ◌≤◌, ◌≡◌, refl, ◌∙◌, Bool, true, false, ◌||◌, Option, none, some, List, [], ◌∷◌, map, arith,
  leb, length, take, keep, All, ℤ, length-map, if◌then◌else◌, Bool-cases, inl, inr, zero, suc,
}
use emoselfie_be.Prelude.Sort.{sort_by}
use emoselfie_be.Prelude.Every.{All-keep, All-sort_by}
use emoselfie_be.Domain.Scheduler.{
  Job, same_job, Timers, remove_job, due_at, schedule, is_due, remove_all, due, due_key, claim_due,
}

-- A job of the list.
abbrev pub is_among : Job → List Job → Bool
is_among j [] = false
is_among j (i ∷ is) = same_job i j || is_among j is

pub same_job_sym : (a b : Job) → same_job a b ≡ same_job b a
same_job_sym a b = ground arith

same_job_join : (i j k : Job) → same_job i k ≡ true → same_job i j ≡ same_job j k
same_job_join i j k h = ground arith

same_job_apart : (i j k : Job) → same_job i k ≡ false → same_job j k ≡ true → same_job i j ≡ false
same_job_apart i j k h e = ground arith

both_gone :
    (b c : Bool) (d e : Option ℕ) (t : ℕ)
    → b ≡ c
    → d ≡ (if b then none else e)
    → d ≡ (if b then none else if c then some t else e)
both_gone b c d e t h k = ground arith

one_gone :
    (b c : Bool) (d e : Option ℕ) (t : ℕ)
    → (c ≡ true → b ≡ false)
    → d ≡ (if b then none else e)
    → (if c then some t else d) ≡ (if b then none else if c then some t else e)
one_gone b c d e t h k = elim (Bool-cases c) [ inl y ↦ rw (y, h y) refl | inr n ↦ rw (n, k) refl ]

pub due_at-remove_job :
    (ts : Timers) (i j : Job)
    → due_at (remove_job i ts) j ≡ (if same_job i j then none else due_at ts j)
unfolding due_at
due_at-remove_job [] i j = elim (Bool-cases (same_job i j)) [
  | inl y ↦ rw y refl
  | inr n ↦ rw n refl
]
due_at-remove_job ((k, t) ∷ ts) i j = elim (Bool-cases (same_job i k)) [
  | inl y ↦ rw y (
      both_gone (same_job i j) (same_job j k) (due_at (remove_job i ts) j) (due_at ts j) t
        (same_job_join i j k y) (due_at-remove_job ts i j))
  | inr n ↦ rw n (
      one_gone (same_job i j) (same_job j k) (due_at (remove_job i ts) j) (due_at ts j) t
        (same_job_apart i j k n) (due_at-remove_job ts i j))
]

-- Scheduling a job sets its time and moves no other job.
pub due_at-schedule :
    (ts : Timers) (i j : Job) (t : ℕ)
    → due_at (schedule ts i t) j ≡ (if same_job i j then some t else due_at ts j)
unfolding due_at schedule
due_at-schedule ts i j t = elim (Bool-cases (same_job i j)) [
  | inl y ↦ rw (same_job_sym j i, y) refl
  | inr n ↦ rw (same_job_sym j i, n, due_at-remove_job ts i j, n) refl
]

due_at-remove_all :
    (claimed : List (Job × ℕ)) (ts : Timers) (j : Job)
    → due_at (remove_all claimed ts) j
      ≡ (if is_among j (map (λ e. e.0) claimed) then none else due_at ts j)
due_at-remove_all [] ts j = refl
due_at-remove_all ((i, t) ∷ claimed) ts j =
    due_at-remove_all claimed (remove_job i ts) j
    ∙ (rw (due_at-remove_job ts i j)
        (by_tests (same_job i j) (is_among j (map (λ e. e.0) claimed)) (due_at ts j)))
  where
    by_tests :
        (b c : Bool) (d : Option ℕ)
        → (if c then none else if b then none else d) ≡ (if b || c then none else d)
    by_tests true true d = refl
    by_tests true false d = refl
    by_tests false true d = refl
    by_tests false false d = refl

length-take_le {ℓ} : {A : Type ℓ} (n : ℕ) (xs : List A) → length (take n xs) ≤ n
length-take_le zero xs = omega arith
length-take_le (suc n) [] = omega arith
length-take_le (suc n) (x ∷ xs) = omega (arith, length-take_le n xs)

pub All-take {ℓ κ} :
    {A : Type ℓ} (P : A → Type κ) (n : ℕ) (xs : List A) → All P xs → All P (take n xs)
All-take P zero xs h = tt
All-take P (suc n) [] h = tt
All-take P (suc n) (x ∷ xs) h = (h.0, All-take P n xs h.1)

module _ (member_bytes : Job → List ℤ) where
  due-IsDue :
      (ts : Timers) (now limit : ℕ) → All (λ e. is_due now e ≡ true) (due member_bytes ts now limit)
  unfolding due
  due-IsDue ts now limit =
      All-take (λ e. is_due now e ≡ true) limit
        (sort_by (due_key member_bytes) (keep (is_due now) ts))
        (All-sort_by (λ e. is_due now e ≡ true) (due_key member_bytes) (keep (is_due now) ts)
          (All-keep (is_due now) ts))

  -- A claim takes at most as many jobs as its limit, each one with a time that has come. The
  -- claimed jobs are no longer scheduled, and every other job keeps its time.
  pub claim_due_lem :
      (ts : Timers) (now limit : ℕ)
      → (length (claim_due member_bytes ts now limit).0 ≤ limit)
        × All (λ e. leb e.1 now ≡ true) (due member_bytes ts now limit)
        × ((claim_due member_bytes ts now limit).0 ≡ map (λ e. e.0) (due member_bytes ts now limit))
        × ((j : Job)
            → due_at (claim_due member_bytes ts now limit).1 j
              ≡ (if is_among j (claim_due member_bytes ts now limit).0 then none else due_at ts j))
  unfolding claim_due due
  claim_due_lem ts now limit = (
    rw (length-map (λ (e : Job × ℕ). e.0) (due member_bytes ts now limit)) (length-take_le limit _),
    due-IsDue ts now limit,
    refl,
    λ j. due_at-remove_all (due member_bytes ts now limit) ts j,
  )
