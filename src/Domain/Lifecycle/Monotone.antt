-- ===== src/Domain/Lifecycle/Monotone.antt =====
-- app/domain/round/runner.py: every job moves the rounds forward.
use emoselfie_be.Prelude.{
  ℕ, ◌+◌, ◌*◌, ◌≡◌, refl, ◌∙◌, ap, Bool, true, false, not, ◌&&◌, ◌||◌, Option, none, some, List,
  arith, ◌==◌, if◌then◌else◌, Bool-cases, inl, inr, pos, eqb_ℤ,
}
use emoselfie_be.Prelude.Dict.{insert}
use emoselfie_be.Core.Errors.{Result, ok, ◌>>=◌, >>=-eq-ok}
use emoselfie_be.Db.{Round, Participant, find}
use emoselfie_be.Domain.Enums.{RoundStatus, is_scoring, is_finalized, is_playing, is_left}
use emoselfie_be.Domain.Keys.{RoundKeys}
use emoselfie_be.Domain.Store.{Store, get_round, put_round, active_participants, get_member}
use emoselfie_be.Domain.Scheduler.{
  Job, JobKind, cancel, round_deadline, round_scoring_guard, round_viewing_end, participant_left,
  host_delegate, room_expire,
}
use emoselfie_be.Domain.Inflight.{
  close_submissions, in_open_statuses, read_submissions, pending_inference, scoring_guard_sec,
}
use emoselfie_be.Domain.Reactions.{persist, drop}
use emoselfie_be.Domain.Settlement.{finalize_round, finalized_status}
use emoselfie_be.Domain.Scoring.{RoundOutcome}
use emoselfie_be.Domain.Settlement.Total.{finalize_round-credits}
use emoselfie_be.Domain.Closing.{AbortReason, close_round, finish_game}
use emoselfie_be.Domain.Lifecycle.{
  World, load, may_advance, follow, advance, after_finalize, finalize, close_entry, force_finalize,
  release, active_shortfall, expire_participant, handle, keys_of, job, arm, is_over, grace_expired,
}
use emoselfie_be.Domain.Lifecycle.Progress.{
  IsForward, find-id, put-IsForward, trans, follow-IsForward, finish_game-rounds,
}

abbrev pub rounds_of : World → List Round
rounds_of w = w.store.rounds

ok_inj : {a b : World} → ◌≡◌ {A = Result World} (ok a) (ok b) → a ≡ b
ok_inj h = cc

stay :
    {w w' : World} → ◌≡◌ {A = Result World} (ok w) (ok w') → IsForward (rounds_of w) (rounds_of w')
stay h = rw (ok_inj h) (λ i. omega arith)

load-found :
    (w : World) (i : ℕ) (r : Round)
    → load w i ≡ some r
    → find (λ (x : Round). x.id == r.id) w.store.rounds ≡ some r
unfolding load
load-found w i r h = by_round (get_round i w.store) refl h
  where
    by_round :
        (o : Option Round)
        → get_round i w.store ≡ o
        → (elim o [
          | none ↦ none
          | some c ↦ if is_playing w.store.room.status then some c else none
        ])
          ≡ some r
        → find (λ (x : Round). x.id == r.id) w.store.rounds ≡ some r
    by_round none e k = absurd cc
    by_round (some c) e k = elim (Bool-cases (is_playing w.store.room.status)) [
      | inl y ↦
          let found : get_round i w.store ≡ some r = e ∙ (rw y at k) in
          ap (λ j. find (λ (x : Round). x.id == j) w.store.rounds)
            (find-id i w.store.rounds r found)
          ∙ found
      | inr n ↦ absurd (let b = rw n at k in cc)
    ]

close_round-IsForward :
    (st : Store) (k : RoundKeys) (current : Round) (now : ℕ)
    → find (λ (x : Round). x.id == current.id) st.rounds ≡ some current
    → IsForward st.rounds (close_round st k current now).2.rounds
unfolding close_round persist
close_round-IsForward st k current now f = elim (Bool-cases (is_finalized current.status)) [
  | inl y ↦ rw y (
      put-IsForward (record current { status = RoundStatus.closed; closed_at = some now }) current
        st.rounds f (ground arith))
  | inr n ↦ rw n (put-IsForward current current st.rounds f (omega arith))
]

pub advance-IsForward :
    (w w' : World) (i now : ℕ) → advance w i now ≡ ok w' → IsForward (rounds_of w) (rounds_of w')
unfolding advance
advance-IsForward w w' i now h = by_load (load w i) refl h
  where
    by_load :
        (o : Option Round)
        → load w i ≡ o
        → ◌≡◌ {A = Result World}
            (elim o [
              | none ↦ ok w
              | some current ↦
                  if may_advance current.status
                  then (let (_, current', st) = close_round w.store (keys_of i w) current now in
                      follow st current' now w.timers >>= λ r. ok (record {
                        store = r.0;
                        keys = insert i (drop (keys_of i w)) w.keys;
                        timers = (cancel r.1 (job round_viewing_end i)).1;
                      }))
                  else ok w
            ])
            (ok w')
        → IsForward (rounds_of w) (rounds_of w')
    by_load none e k = stay k
    by_load (some current) e k = elim (Bool-cases (may_advance current.status)) [
      | inr n ↦ stay (rw n at k)
      | inl y ↦
          let closing = close_round w.store (keys_of i w) current now in
          let ((st, ts), followed, e₁) =
            >>=-eq-ok (follow closing.2 closing.1 now w.timers) _ (rw y at k) in
          rw (← ok_inj e₁) (
            trans w.store.rounds closing.2.rounds st.rounds
              (close_round-IsForward w.store (keys_of i w) current now (load-found w i current e))
              (follow-IsForward closing.2 st closing.1 now w.timers ts followed))
    ]

after_finalize-IsForward :
    (w w' : World) (i now : ℕ) (o : Option ℕ)
    → after_finalize w i now o ≡ ok w'
    → IsForward (rounds_of w) (rounds_of w')
unfolding after_finalize
after_finalize-IsForward w w' i now none h = advance-IsForward _ w' i now h
after_finalize-IsForward w w' i now (some t) h = rw (← ok_inj h) (λ j. omega arith)

settled-IsForward :
    (o : RoundOutcome) (current : Round) (rs : List Round) (now : ℕ)
    → find (λ (x : Round). x.id == current.id) rs ≡ some current
    → is_scoring current.status ≡ true
    → IsForward rs (put_round (finalized_status o current now) rs)
unfolding finalized_status
settled-IsForward o current rs now f h = elim (Bool-cases o.voided) [
  | inl y ↦ put-IsForward (finalized_status o current now) current rs f (rw y (ground arith))
  | inr n ↦ put-IsForward (finalized_status o current now) current rs f (rw n (ground arith))
]

pub finalize-IsForward :
    (w w' : World) (i now : ℕ) → finalize w i now ≡ ok w' → IsForward (rounds_of w) (rounds_of w')
unfolding finalize
finalize-IsForward w w' i now h = by_load (load w i) refl h
  where
    by_load :
        (o : Option Round)
        → load w i ≡ o
        → ◌≡◌ {A = Result World}
            (elim o [
              | none ↦ ok w
              | some current ↦
                  if is_scoring current.status
                  then (finalize_round w.store (keys_of i w) current now >>= λ r.
                      after_finalize (record w { store = r.1 }) i now r.0.viewing_ends_at_ms)
                  else ok w
            ])
            (ok w')
        → IsForward (rounds_of w) (rounds_of w')
    by_load none e k = stay k
    by_load (some current) e k = elim (Bool-cases (is_scoring current.status)) [
      | inr n ↦ stay (rw n at k)
      | inl y ↦
          let ((f, st), done, e₁) =
            >>=-eq-ok (finalize_round w.store (keys_of i w) current now) _ (rw y at k) in
          let rounds = (finalize_round-credits w.store st (keys_of i w) current now f done).1 in
          trans w.store.rounds st.rounds w'.store.rounds
            (rw rounds
              (settled-IsForward f.outcome current w.store.rounds now (load-found w i current e) y))
            (after_finalize-IsForward (record w { store = st }) w' i now f.viewing_ends_at_ms e₁)
    ]

close_submissions-IsForward :
    (current : Round) (rs : List Round)
    → find (λ (x : Round). x.id == current.id) rs ≡ some current
    → IsForward rs (put_round (close_submissions current).1 rs)
unfolding close_submissions
close_submissions-IsForward current rs f = elim (Bool-cases (in_open_statuses current.status)) [
  | inl y ↦
      rw y (
        put-IsForward (record current { status = RoundStatus.scoring }) current rs f (ground arith))
  | inr n ↦ rw n (put-IsForward current current rs f (omega arith))
]

pub close_entry-IsForward :
    (w w' : World) (i now : ℕ)
    → close_entry w i now ≡ ok w'
    → IsForward (rounds_of w) (rounds_of w')
unfolding close_entry
close_entry-IsForward w w' i now h = by_load (load w i) refl h
  where
    closed_entry : Round → World
    closed_entry current = record w {
      store = record (w.store) { rounds = put_round (close_submissions current).1 w.store.rounds };
    }

    by_pending :
        (b : Bool) (w₁ : World)
        → IsForward (rounds_of w) (rounds_of w₁)
        → ◌≡◌ {A = Result World}
            (if b
              then finalize w₁ i now
              else ok (arm (job round_scoring_guard i) (now + scoring_guard_sec * 1000) w₁))
            (ok w')
        → IsForward (rounds_of w) (rounds_of w')
    by_pending true w₁ f k =
        trans (rounds_of w) (rounds_of w₁) (rounds_of w') f (finalize-IsForward w₁ w' i now k)
    by_pending false w₁ f k = rw (← ok_inj k) f

    by_load :
        (o : Option Round)
        → load w i ≡ o
        → ◌≡◌ {A = Result World}
            (elim o [
              | none ↦ ok w
              | some current ↦
                  let (won, current') = close_submissions current in
                  if won
                  then (let w₁ = record w {
                    store = record (w.store) { rounds = put_round current' w.store.rounds };
                  } in
                      read_submissions (keys_of i w) (active_participants w.store.members) >>= λ _.
                      if eqb_ℤ (pending_inference (keys_of i w)) (pos 0)
                      then finalize w₁ i now
                      else ok (arm (job round_scoring_guard i) (now + scoring_guard_sec * 1000) w₁))
                  else ok w
            ])
            (ok w')
        → IsForward (rounds_of w) (rounds_of w')
    by_load none e k = stay k
    by_load (some current) e k = elim (Bool-cases (close_submissions current).0) [
      | inr n ↦ stay (rw n at k)
      | inl y ↦
          let (_, _, e₁) =
            >>=-eq-ok (read_submissions (keys_of i w) (active_participants w.store.members)) _
              (rw y at k) in
          by_pending (eqb_ℤ (pending_inference (keys_of i w)) (pos 0)) (closed_entry current)
            (close_submissions-IsForward current w.store.rounds (load-found w i current e)) e₁
    ]

release-rounds : (st : Store) (m : Participant) (now : ℕ) → (release st m now).1.rounds ≡ st.rounds
unfolding release
release-rounds st m now = elim (Bool-cases (is_left m.status)) [
  | inl y ↦ rw y refl
  | inr n ↦ rw n refl
]

expire_participant-rounds :
    (w w' : World) (p grace_sec now : ℕ)
    → expire_participant w p grace_sec now ≡ ok w'
    → rounds_of w' ≡ rounds_of w
unfolding expire_participant
expire_participant-rounds w w' p grace_sec now h = by_member (get_member p w.store.members) h
  where
    by_leave :
        (st : Store) (b : Bool)
        → st.rounds ≡ rounds_of w
        → ◌≡◌ {A = Result World}
            (if b
              then (finish_game st (some AbortReason.not_enough_players) now >>= λ r.
                  ok (record w { store = r.1 }))
              else ok (record w { store = st }))
            (ok w')
        → rounds_of w' ≡ rounds_of w
    by_leave st true s k =
        let ((f, st₁), done, e₁) =
          >>=-eq-ok (finish_game st (some AbortReason.not_enough_players) now) _ k in
        rw (← ok_inj e₁)
          (finish_game-rounds st st₁ (some AbortReason.not_enough_players) now f done ∙ s)
    by_leave st false s k = rw (← ok_inj k) s

    by_member :
        (o : Option Participant)
        → ◌≡◌ {A = Result World}
            (elim o [
              | none ↦ ok w
              | some m ↦
                  if is_over w.store.room.status || not (grace_expired m grace_sec now)
                  then ok w
                  else (let (removed, st) = release w.store m now in
                      if removed && active_shortfall st
                      then (finish_game st (some AbortReason.not_enough_players) now >>= λ r.
                          ok (record w { store = r.1 }))
                      else ok (record w { store = st }))
            ])
            (ok w')
        → rounds_of w' ≡ rounds_of w
    by_member none k = rw (ok_inj k) refl
    by_member (some m) k =
        elim (Bool-cases (is_over w.store.room.status || not (grace_expired m grace_sec now))) [
          | inl y ↦ rw (ok_inj (rw y at k)) refl
          | inr n ↦ by_leave (release w.store m now).1 _ (release-rounds w.store m now) (rw n at k)
        ]

-- Whatever job is handled without an error, no round is lost, and none goes back to an earlier one
-- of the stages open, scoring, settled and closed.
pub handle-IsForward :
    (w w' : World) (j : Job) (grace_sec now : ℕ)
    → handle w j grace_sec now ≡ ok w'
    → IsForward (rounds_of w) (rounds_of w')
unfolding handle force_finalize
handle-IsForward w w' j grace_sec now h = by_kind j.kind h
  where
    by_kind :
        (k : JobKind)
        → ◌≡◌ {A = Result World}
            (elim k [
              | round_deadline ↦ close_entry w j.target_id now
              | round_scoring_guard ↦ force_finalize w j.target_id now
              | round_viewing_end ↦ advance w j.target_id now
              | participant_left ↦ expire_participant w j.target_id grace_sec now
              | _ ↦ ok w
            ])
            (ok w')
        → IsForward (rounds_of w) (rounds_of w')
    by_kind round_deadline k = close_entry-IsForward w w' j.target_id now k
    by_kind round_scoring_guard k = finalize-IsForward _ w' j.target_id now k
    by_kind round_viewing_end k = advance-IsForward w w' j.target_id now k
    by_kind participant_left k =
        rw (expire_participant-rounds w w' j.target_id grace_sec now k) (λ i. omega arith)
    by_kind host_delegate k = stay k
    by_kind room_expire k = stay k
