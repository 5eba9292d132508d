-- ===== src/Domain/Scheduler.antt =====
-- app/domain/scheduler/service.py: the distributed timers. The sorted set `sched:timers` is a list
-- of jobs with the time at which each is due. Redis orders members of one score by their bytes,
-- which `json.dumps` makes: those bytes are a parameter.
pub mod Claim
pub mod Calendar
use emoselfie_be.Prelude.{
  ℕ, ◌+◌, Bool, true, false, not, ◌&&◌, Option, none, some, List, [], ◌∷◌, ◌++◌, map, ltb, leb,
  ◌==◌, if◌then◌else◌, is_some, ℤ, pos, take, keep,
}
use emoselfie_be.Prelude.Sort.{sort_by}
use emoselfie_be.Core.Errors.{Result, ok, ◌>>=◌, ◌>>◌, ensure, value_error}

pub data JobKind : Type 0 where
  round_deadline round_scoring_guard round_viewing_end : JobKind
  participant_left host_delegate room_expire : JobKind

abbrev pub code : JobKind → ℕ
code round_deadline = 0
code round_scoring_guard = 1
code round_viewing_end = 2
code participant_left = 3
code host_delegate = 4
code room_expire = 5

pub record Job : Type 0 where
  pub kind : JobKind
  pub target_id : ℕ

-- Equality of `member`, and of `lock_id`.
abbrev pub same_job : Job → Job → Bool
same_job a b = (code a.kind == code b.kind) && (a.target_id == b.target_id)

abbrev pub Timers : Type 0
Timers = List (Job × ℕ)

-- `zrem`, which tells whether the member was there.
abbrev pub remove_job : Job → Timers → Timers
remove_job j [] = []
remove_job j ((i, t) ∷ ts) = if same_job j i then remove_job j ts else (i, t) ∷ remove_job j ts

unfoldable pub due_at : Timers → Job → Option ℕ
due_at [] j = none
due_at ((i, t) ∷ ts) j = if same_job j i then some t else due_at ts j

-- `zadd` moves a member that is there.
unfoldable pub schedule : Timers → Job → ℕ → Timers
schedule ts j fire_at_ms = (j, fire_at_ms) ∷ remove_job j ts

unfoldable pub cancel : Timers → Job → Bool × Timers
unfolding due_at
cancel ts j = (is_some (due_at ts j), remove_job j ts)

abbrev pub claim_batch : ℕ
claim_batch = 10

abbrev pub is_due : ℕ → Job × ℕ → Bool
is_due now (_, t) = leb t now

-- the loop of `CLAIM_DUE`: every member that is found is removed
abbrev pub remove_all : List (Job × ℕ) → Timers → Timers
remove_all [] ts = ts
remove_all ((j, _) ∷ claimed) ts = remove_all claimed (remove_job j ts)

module _ (member_bytes : Job → List ℤ) where
  abbrev pub due_key : Job × ℕ → List ℤ
  due_key (j, t) = pos t ∷ member_bytes j

  -- `ZRANGEBYSCORE ... LIMIT 0 limit`
  unfoldable pub due : Timers → ℕ → ℕ → List (Job × ℕ)
  unfolding sort_by
  due ts now limit = take limit (sort_by due_key (keep (is_due now) ts))

  unfoldable pub claim_due : Timers → ℕ → ℕ → List Job × Timers
  unfolding due
  claim_due ts now limit = (map (λ e. e.0) (due ts now limit), remove_all (due ts now limit) ts)

-- `sched:lock:{lock_id}` of app/core/redis.py, with the token that holds it and its expiry.
pub record Lock : Type 0 where
  pub job : Job
  pub token : ℕ
  pub expires_at : ℕ

abbrev pub is_held : Job → ℕ → Lock → Bool
is_held j now l = same_job j l.job && ltb now l.expires_at

abbrev pub holds : Job → ℕ → List Lock → Bool
holds j now [] = false
holds j now (l ∷ ls) = if is_held j now l then true else holds j now ls

-- `RedisLease.acquire`: `SET key token NX PX ttl`.
unfoldable pub acquire : List Lock → Job → ℕ → ℕ → ℕ → Result (Option (List Lock))
acquire ls j token now ttl_ms = do
  ensure (ltb 0 ttl_ms) value_error
  ok (
      if holds j now ls
      then none
      else some (record { job = j; token = token; expires_at = now + ttl_ms } ∷ ls))

-- `RELEASE_SCRIPT`: only the holder of the token deletes the lock, and learns that it did.
unfoldable pub release : List Lock → Job → ℕ → ℕ → Bool × List Lock
release [] j token now = (false, [])
release (l ∷ ls) j token now =
    let (deleted, rest) = release ls j token now in
    if is_held j now l && (l.token == token) then (true, ls) else (deleted, l ∷ rest)

abbrev pub job_lock_ttl_ms : ℕ
job_lock_ttl_ms = 30000

-- The loop of `run_once` over the claimed jobs. The handler says whether it returned or raised;
-- lease tokens are counted up, since each is fresh.
module _ {S : Type 0} (handler : Job → S → Bool × S) where
  unfoldable pub run_claimed : List Job → ℕ → ℕ → List Lock → S → Result (ℕ × List Lock × S)
  unfolding acquire release
  run_claimed [] now token ls s = ok (0, ls, s)
  run_claimed (j ∷ js) now token ls s = acquire ls j token now job_lock_ttl_ms >>= λ lease.
      elim lease [
        | none ↦ run_claimed js now (token + 1) ls s
        | some ls' ↦
            let (done, s') = handler j s in
            (run_claimed js now (token + 1) (if done then ls' else (release ls' j token now).1) s'
              >>= λ r. ok (if done then r.0 + 1 else r.0, r.1, r.2))
      ]
