-- ===== src/Domain/Lifecycle/Settling.antt =====
-- app/domain/round/runner.py: `finalize` and `close_submissions`, which settle a round or leave it to
-- the guard.
use emoselfie_be.Prelude.{
  ℕ, All, ◌+◌, ◌*◌, ◌≤◌, ◌≡◌, refl, ap, Bool, true, false, Option, none, some, List, [], ◌∷◌, arith,
  ◌==◌, ==_refl, if◌then◌else◌, Bool-cases, inl, inr, pos, eqb_ℤ,
}
use emoselfie_be.Prelude.Sets.{IsDistinct}
use emoselfie_be.Core.Errors.{ok}
use emoselfie_be.Db.{Round, find}
use emoselfie_be.Domain.Enums.{RoundStatus, is_scoring, is_playing}
use emoselfie_be.Domain.Store.{Store, get_round, put_round, active_participants}
use emoselfie_be.Domain.Scheduler.{round_scoring_guard, due_at, same_job}
use emoselfie_be.Domain.Scheduler.Claim.{due_at-schedule}
use emoselfie_be.Domain.Scoring.{RoundOutcome}
use emoselfie_be.Domain.Inflight.{
  close_submissions, in_open_statuses, pending_inference, scoring_guard_sec,
}
use emoselfie_be.Domain.Inflight.Reading.{member_ids, read_submissions-IsReading}
use emoselfie_be.Domain.Settlement.{finalized_status}
use emoselfie_be.Domain.Settlement.Total.{
  IsReady, HasBest, finalize_round-HasBest, finalize_round-credits, active-IsDistinct,
}
use emoselfie_be.Domain.Settlement.Members.{finalize_round-ids}
use emoselfie_be.Domain.Lifecycle.{
  World, load, finalize, after_finalize, close_entry, keys_of, job, disarm, arm,
}
use emoselfie_be.Domain.Lifecycle.Progress.{
  stage, stage_at, stage_of, find-id, stage_at-put, stage-leb,
}
use emoselfie_be.Domain.Lifecycle.Monotone.{advance-IsForward}
use emoselfie_be.Domain.Lifecycle.Advance.{advance-ok, IsLatest, IsLatest-put}

-- The round's results are settled, or it is already closed.
abbrev pub IsSettled : ℕ → World → Type 0
IsSettled i w = 3 ≤ stage_at i w.store.rounds

find-put :
    (c : Round) (i : ℕ) (rs : List Round) (old : Round)
    → find (λ (r : Round). r.id == i) rs ≡ some old
    → c.id ≡ i
    → find (λ (r : Round). r.id == i) (put_round c rs) ≡ some c
find-put c i [] old f e = absurd cc
find-put c i (x ∷ xs) old f e = elim (Bool-cases (x.id == i)) [
  | inl y ↦ let same : (x.id == c.id) ≡ true = ground arith in rw same (simp (e, ==_refl i))
  | inr n ↦
      let apart : (x.id == c.id) ≡ false = ground arith in
      rw (apart, n) (find-put c i xs old (rw n at f) e)
]

-- No round of the room is later than the one with this id.
abbrev pub IsLast : ℕ → Store → Type 0
IsLast i st = (current : Round) → get_round i st ≡ some current → IsLatest st current.index

after_finalize-settles :
    (w : World) (i now : ℕ) (o : Option ℕ)
    → IsDistinct (member_ids w.store.members)
    → All HasBest w.store.members
    → IsLast i w.store
    → IsSettled i w
    → (w' : World) × (after_finalize w i now o ≡ ok w') × IsSettled i w'
unfolding after_finalize
after_finalize-settles w i now none d best latest h =
    let (w', e, _) = advance-ok (disarm (job round_scoring_guard i) w) i now d best latest in
    let forward = advance-IsForward (disarm (job round_scoring_guard i) w) w' i now e i in
    (w', e, omega arith)
after_finalize-settles w i now (some t) d best latest h = (_, refl, h)

settled-stage :
    (o : RoundOutcome) (current : Round) (now i : ℕ) (rs : List Round)
    → find (λ (r : Round). r.id == i) rs ≡ some current
    → 3 ≤ stage_at i (put_round (finalized_status o current now) rs)
unfolding finalized_status
settled-stage o current now i rs f =
    let same = find-id i rs current f in
    let old : stage_at i rs ≡ stage current.status = ap stage_of f in
    rw
      (
        stage_at-put i (finalized_status o current now) rs,
        finalized_status,
        same,
        ==_refl i,
        old,
        stage-leb current.status,
      )
      (by_void o.voided)
  where
    by_void : (b : Bool) → 3 ≤ stage (if b then RoundStatus.voided else RoundStatus.finalized)
    by_void true = omega arith
    by_void false = omega arith

pub load-of_found :
    (w : World) (i : ℕ) (current : Round)
    → get_round i w.store ≡ some current
    → is_playing w.store.room.status ≡ true
    → load w i ≡ some current
unfolding load
load-of_found w i current found playing = rw (load, found, playing) refl

IsLast-after :
    (st st' : Store) (i : ℕ) (current : Round) (now : ℕ) (o : RoundOutcome)
    → get_round i st ≡ some current
    → IsLatest st current.index
    → st'.rounds ≡ put_round (finalized_status o current now) st.rounds
    → st'.room.emotion_sequence ≡ st.room.emotion_sequence
    → IsLast i st'
unfolding finalized_status
IsLast-after st st' i current now o found (long, before) rounds seq c now_found =
    let put = rw rounds at now_found in
    let done = finalized_status o current now in
    let e : done ≡ c =
      let p = find-put done i st.rounds current found (find-id i st.rounds current found) in cc in
    rw (← e, seq, rounds) (long, IsLatest-put done current.index st.rounds (omega arith) before)

pub finalize-settles :
    (w : World) (current : Round) (i now : ℕ)
    → get_round i w.store ≡ some current
    → is_playing w.store.room.status ≡ true
    → is_scoring current.status ≡ true
    → IsReady w.store (keys_of i w)
    → IsLatest w.store current.index
    → (w' : World) × (finalize w i now ≡ ok w') × IsSettled i w'
unfolding finalize
finalize-settles w current i now found playing scores ready latest =
    let (f, st', done, best, seq) =
      finalize_round-HasBest w.store (keys_of i w) current now ready in
    let (_, rounds, _) = finalize_round-credits w.store st' (keys_of i w) current now f done in
    let last : IsLast i st' =
      IsLast-after w.store st' i current now f.outcome found latest rounds seq in
    let once = finalize_round-ids w.store st' (keys_of i w) current now f done in
    let settled : IsSettled i (record w { store = st' }) =
      rw rounds (settled-stage f.outcome current now i w.store.rounds found) in
    let (w', e, h) =
      after_finalize-settles (record w { store = st' }) i now f.viewing_ends_at_ms
        (rw once ready.once) best last settled in
    (w', rw (finalize, load-of_found w i current found playing, scores, done) e, h)

-- After its deadline, a round is settled, or waits for scores with the guard armed.
abbrev pub IsAwaited : ℕ → ℕ → World → World → Type 0
IsAwaited i now w w' =
    if eqb_ℤ (pending_inference (keys_of i w)) (pos 0)
    then IsSettled i w'
    else (stage_at i w'.store.rounds ≡ 2)
      × (due_at w'.timers (job round_scoring_guard i) ≡ some (now + scoring_guard_sec * 1000))

same_job_refl : (i : ℕ) → same_job (job round_scoring_guard i) (job round_scoring_guard i) ≡ true
same_job_refl i = rw (same_job, ==_refl i) refl

scoring_entry : World → Round → World
scoring_entry w current = record w {
  store = record (w.store) {
    rounds = put_round (record current { status = RoundStatus.scoring }) w.store.rounds;
  };
}

scoring-stage :
    (current : Round) (i : ℕ) (rs : List Round)
    → find (λ (r : Round). r.id == i) rs ≡ some current
    → stage_at i (put_round (record current { status = RoundStatus.scoring }) rs) ≡ 2
scoring-stage current i rs f =
    let old : stage_at i rs ≡ stage current.status = ap stage_of f in
    rw
      (
        stage_at-put i (record current { status = RoundStatus.scoring }) rs,
        find-id i rs current f,
        ==_refl i,
        old,
        stage-leb current.status,
      )
      refl

-- Closing an open round of a playing room, with ready keys, at most seven
-- emotions and no later round, raises nothing. Where no upload
-- lacks its score it settles the round at once; else the round waits in `scoring`, with the guard
-- armed eight seconds from now.
pub close_entry-settles :
    (w : World) (current : Round) (i now : ℕ)
    → get_round i w.store ≡ some current
    → is_playing w.store.room.status ≡ true
    → in_open_statuses current.status ≡ true
    → IsReady w.store (keys_of i w)
    → IsLatest w.store current.index
    → (w' : World) × (close_entry w i now ≡ ok w') × IsAwaited i now w w'
unfolding close_entry close_submissions scoring_entry
close_entry-settles w current i now found playing opened ready latest =
    let loaded = load-of_found w i current found playing in
    let (ss, read, _) =
      read_submissions-IsReading (keys_of i w) (active_participants w.store.members) ready.coherent
        ready.payloads (active-IsDistinct w.store.members ready.once) in
    let w₁ = scoring_entry w current in
    let found₁ : get_round i w₁.store ≡ some (record current { status = RoundStatus.scoring }) =
      find-put (record current { status = RoundStatus.scoring }) i w.store.rounds current found
        (find-id i w.store.rounds current found) in
    let ready₁ : IsReady w₁.store (keys_of i w₁) = record {
      coherent = ready.coherent;
      payloads = ready.payloads;
      once = ready.once;
      best = ready.best;
    } in
    let latest₁ : IsLatest w₁.store current.index = (
      latest.0,
      IsLatest-put (record current { status = RoundStatus.scoring }) current.index w.store.rounds
          (omega arith) latest.1,
    ) in
    elim (Bool-cases (eqb_ℤ (pending_inference (keys_of i w)) (pos 0))) [
      | inl y ↦
          let (w', done, settled) =
            finalize-settles w₁ (record current { status = RoundStatus.scoring }) i now found₁
              playing refl ready₁ latest₁ in
          (w', rw (close_entry, loaded, opened, read, y) done, rw y settled)
      | inr n ↦
          let w' = arm (job round_scoring_guard i) (now + scoring_guard_sec * 1000) w₁ in
          (
            w',
            rw (close_entry, loaded, opened, read, n) refl,
            rw n (
              scoring-stage current i w.store.rounds found,
              rw
                  (
                    due_at-schedule w.timers (job round_scoring_guard i) (job round_scoring_guard i)
                        (now + scoring_guard_sec * 1000),
                    same_job_refl i,
                  )
                  refl,
            ),
          )
    ]
