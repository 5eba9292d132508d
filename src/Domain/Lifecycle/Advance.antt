-- ===== src/Domain/Lifecycle/Advance.antt =====
-- `advance` of app/domain/round/runner.py: a settled round is always left.
use mathlib.Core.Path.{subst}
use emoselfie_be.Prelude.{
  ap, ◌∙◌, ==_refl, ℕ, ◌+◌, ◌≤◌, ◌≡◌, ◌==◌, ◌&&◌, ◌||◌, not, Bool, true, false, All, refl, Option,
  none, some, List, [], ◌∷◌, arith, leb, if◌then◌else◌, length, Bool-cases, inl, inr,
}
use emoselfie_be.Prelude.Sets.{IsDistinct}
use emoselfie_be.Core.Errors.{ok, ◌>>=◌}
use emoselfie_be.Db.{Round, Room}
use emoselfie_be.Domain.Store.{Store, active_count, get_round, put_round}
use emoselfie_be.Domain.Scheduler.{Timers, JobKind, schedule, cancel, due_at}
use emoselfie_be.Domain.Scheduler.Claim.{due_at-schedule, due_at-remove_job}
use emoselfie_be.Domain.Reactions.{persist, drop}
use emoselfie_be.Prelude.Dict.{insert}
use emoselfie_be.Domain.Enums.{RoundStatus, is_playing, is_finalized, is_voided}
use emoselfie_be.Domain.Settlement.Total.{HasBest}
use emoselfie_be.Domain.Inflight.Reading.{member_ids}
use emoselfie_be.Domain.Closing.{AbortReason, next_index, abort_reason, close_round}
use emoselfie_be.Domain.Game.Starting.{open_round-ok, IsOpened}
use emoselfie_be.Domain.Game.{is_taken, violates}
use emoselfie_be.Domain.Lifecycle.{World, load, follow, advance, keys_of, job}
use emoselfie_be.Domain.Lifecycle.Finishing.{IsFinished, finish_game-ok}

-- No round of the room is later than the one with this index, and the sequence is as long as the
-- table of rounds allows.
abbrev pub IsLatest : Store → ℕ → Type 0
IsLatest st index =
    (length st.room.emotion_sequence ≤ 7) × All (λ (r : Round). r.index ≤ index) st.rounds

not_taken :
    (room : Room) (index : ℕ) (rs : List Round)
    → All (λ (r : Round). r.index ≤ index) rs
    → is_taken room (index + 1) rs ≡ false
not_taken room index [] h = refl
not_taken room index (r ∷ rs) h =
    let apart : (r.index == index + 1) ≡ false = let b = h.0 in ground arith in
    rw (apart, not_taken room index rs h.1) (both (r.room_id == room.id))
  where
    both : (b : Bool) → ((b && false) || false) ≡ false
    both true = refl
    both false = refl

-- Whether a game ends with a round: three voided rounds in a row, fewer than two players, or the
-- last emotion of the sequence.
abbrev pub is_end : Store → ℕ → Bool
is_end st index =
    leb 3 st.room.consecutive_voided
    || not (leb 2 (active_count st.members))
    || leb (length st.room.emotion_sequence) index

-- The game ends, or the next round is open and its deadline armed.
abbrev pub IsFollowed : Store → ℕ → ℕ → Store → Timers → Type 0
IsFollowed st index now st' ts' =
    if is_end st index
    then IsFinished st now st'
    else ((r : Round) × IsOpened st (index + 1) now r st'
        × (due_at ts' (job JobKind.round_deadline r.id) ≡ some r.deadline_at))

due-armed :
    (ts : Timers) (i t : ℕ)
    → due_at (schedule ts (job JobKind.round_deadline i) t) (job JobKind.round_deadline i) ≡ some t
due-armed ts i t =
    due_at-schedule ts (job JobKind.round_deadline i) (job JobKind.round_deadline i) t
    ∙ rw (==_refl i) refl

-- Cancelling the end of a viewing leaves the deadlines alone.
IsFollowed-cancel :
    (st : Store) (index now : ℕ) (st' : Store) (ts' : Timers) (i : ℕ)
    → IsFollowed st index now st' ts'
    → IsFollowed st index now st' (cancel ts' (job JobKind.round_viewing_end i)).1
unfolding cancel
IsFollowed-cancel st index now st' ts' i h = by_end (is_end st index) h
  where
    by_end :
        (b : Bool)
        → (if b
            then IsFinished st now st'
            else ((r : Round) × IsOpened st (index + 1) now r st'
                × (due_at ts' (job JobKind.round_deadline r.id) ≡ some r.deadline_at)))
        → (if b
            then IsFinished st now st'
            else ((r : Round) × IsOpened st (index + 1) now r st'
                × (due_at
                      (cancel ts' (job JobKind.round_viewing_end i)).1
                      (job JobKind.round_deadline r.id)
                    ≡ some r.deadline_at)))
    by_end true k = k
    by_end false (r, opened, due) = (
      r,
      opened,
      due_at-remove_job ts' (job JobKind.round_viewing_end i) (job JobKind.round_deadline r.id)
          ∙ due,
    )

-- After a settled round the room goes on: it opens the next round, or finishes the game. Nothing is
-- raised, since an index that `next_index` gives falls inside the sequence and is not taken.
pub follow-ok :
    (st : Store) (current : Round) (now : ℕ) (ts : Timers)
    → IsDistinct (member_ids st.members)
    → All HasBest st.members
    → IsLatest st current.index
    → (st' : Store) × (ts' : Timers) × (follow st current now ts ≡ ok (st', ts'))
      × IsFollowed st current.index now st' ts'
unfolding follow next_index abort_reason
follow-ok st current now ts d best latest = elim (Bool-cases (leb 3 st.room.consecutive_voided)) [
  | inl y ↦
      let (f, st', done, over) =
        finish_game-ok st (some AbortReason.engine_unavailable) now d best in
      (st', ts, rw (follow, y, done) refl, rw y over)
  | inr n ↦ elim (Bool-cases (leb 2 (active_count st.members))) [
    | inr few ↦
        let (f, st', done, over) =
          finish_game-ok st (some AbortReason.not_enough_players) now d best in
        (st', ts, rw (follow, n, few, done) refl, rw (n, few) over)
    | inl many ↦ elim (Bool-cases (leb (length st.room.emotion_sequence) current.index)) [
      | inl y ↦
          let (f, st', done, over) = finish_game-ok st none now d best in
          (st', ts, rw (follow, n, many, y, done) refl, rw (n, many, y) over)
      | inr inside ↦
          let free : violates st (current.index + 1) ≡ false =
            let long = latest.0 in
            let low : leb 1 (current.index + 1) ≡ true = ground arith in
            let high : leb (current.index + 1) 7 ≡ true = ground arith in
            rw (not_taken st.room current.index st.rounds latest.1, low, high) refl in
          let (r, st', done, opened) =
            open_round-ok st (current.index + 1) now (omega arith) (ground arith) free in
          (
            st',
            schedule ts (job JobKind.round_deadline r.id) r.deadline_at,
            rw (follow, n, many, inside, done) refl,
            rw (n, many, inside) (r, opened, due-armed ts r.id r.deadline_at),
          )
    ]
  ]
]

pub IsLatest-put :
    (c : Round) (n : ℕ) (rs : List Round)
    → c.index ≤ n
    → All (λ (r : Round). r.index ≤ n) rs
    → All (λ (r : Round). r.index ≤ n) (put_round c rs)
IsLatest-put c n [] le h = tt
IsLatest-put c n (r ∷ rs) le h = (by_id (r.id == c.id), IsLatest-put c n rs le h.1)
  where
    by_id : (b : Bool) → (if b then c else r).index ≤ n
    by_id true = le
    by_id false = h.0

-- A round whose viewing is over: a finalized one is closed, and a voided one stays voided.
abbrev pub left_round : Round → ℕ → Round
left_round current now =
    if is_finalized current.status
    then record current { status = RoundStatus.closed; closed_at = some now }
    else current

left_round-index : (current : Round) (now : ℕ) → (left_round current now).index ≡ current.index
left_round-index current now = by_status (is_finalized current.status)
  where
    by_status :
        (b : Bool)
        → (if b
            then record current { status = RoundStatus.closed; closed_at = some now }
            else current).index
          ≡ current.index
    by_status true = refl
    by_status false = refl

-- What advancing from a round comes to: a settled round of a playing room is left, and nothing else
-- changes anything.
abbrev pub IsLeft : World → Option Round → ℕ → World → Type 0
IsLeft w none now w' = (w' ≡ w)
IsLeft w (some current) now w' =
    if is_playing w.store.room.status && (is_finalized current.status || is_voided current.status)
    then IsFollowed
        (record (w.store) { rounds = put_round (left_round current now) w.store.rounds })
        current.index now w'.store w'.timers
    else (w' ≡ w)

-- Advancing from a round raises nothing in a room whose members have different ids and best scores
-- in range, with at most seven emotions and no round later than the one that is left. A settled
-- round of a playing room is left: finalized, it is closed, and then the game ends or the next
-- round is open. The game ends after three voided rounds in a row, with fewer than two players,
-- and after the last emotion; the room is finished then and has no current round. Otherwise the
-- next round is stored and current, asks for the next emotion, is open for the countdown of three
-- seconds and the time limit, and its deadline is armed. Any other round, and any room that
-- does not play, stays as it is.
pub advance-ok :
    (w : World) (round_id now : ℕ)
    → IsDistinct (member_ids w.store.members)
    → All HasBest w.store.members
    → ((current : Round)
        → get_round round_id w.store ≡ some current
        → IsLatest w.store current.index)
    → (w' : World) × (advance w round_id now ≡ ok w') × IsLeft w (get_round round_id w.store) now w'
unfolding advance close_round persist load
advance-ok w round_id now d best latest = by_round (get_round round_id w.store) refl
  where
    leave :
        (current : Round)
        → get_round round_id w.store ≡ some current
        → is_playing w.store.room.status ≡ true
        → (is_finalized current.status || is_voided current.status) ≡ true
        → (w' : World) × (advance w round_id now ≡ ok w') × IsLeft w (some current) now w'
    leave current found playing settled =
        let closing = close_round w.store (keys_of round_id w) current now in
        let same = left_round-index current now in
        let (long, all_before) = latest current found in
        let (st', ts', done, followed) = follow-ok closing.2 closing.1 now w.timers d best (
          rw same (
            long,
            IsLatest-put (left_round current now) current.index w.store.rounds
                (rw same (omega arith)) all_before,
          )) in
        let w' : World = record {
          store = st';
          keys = insert round_id (drop (keys_of round_id w)) w.keys;
          timers = (cancel ts' (job JobKind.round_viewing_end round_id)).1;
        } in
        (
          w',
          rw (advance, found, playing, settled)
              (ap
                (λ x. x >>= λ r. ok (record {
                  store = r.0;
                  keys = insert round_id (drop (keys_of round_id w)) w.keys;
                  timers = (cancel r.1 (job JobKind.round_viewing_end round_id)).1;
                }))
                done),
          rw (playing, settled)
              (IsFollowed-cancel closing.2 current.index now st' ts' round_id
                (subst (λ n. IsFollowed closing.2 n now st' ts') same followed)),
        )

    by_round :
        (o : Option Round)
        → get_round round_id w.store ≡ o
        → (w' : World) × (advance w round_id now ≡ ok w') × IsLeft w o now w'
    by_round none found = (w, rw (advance, found) refl, refl)
    by_round (some current) found = elim (Bool-cases (is_playing w.store.room.status)) [
      | inr n ↦ (w, rw (advance, found, n) refl, rw n refl)
      | inl y ↦ elim (Bool-cases (is_finalized current.status || is_voided current.status)) [
        | inr n ↦ (w, rw (advance, found, y, n) refl, rw (y, n) refl)
        | inl s ↦ leave current found y s
      ]
    ]
