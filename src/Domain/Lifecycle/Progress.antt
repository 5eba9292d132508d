-- ===== src/Domain/Lifecycle/Progress.antt =====
-- app/domain/round/runner.py: the state machine of the rounds only moves forward.
use emoselfie_be.Prelude.{
  Bool, all, ℕ, ◌+◌, ◌-◌, ◌≤◌, ◌≡◌, refl, ap, true, false, ◌&&◌, Option, none, some, List, [], ◌∷◌,
  ◌++◌, arith, leb, ◌==◌, ==_iff, if◌then◌else◌, Bool-cases, inl, inr,
}
use emoselfie_be.Core.Errors.{
  >>-eq-ok, database_error, Result, ok, err, ◌>>=◌, >>=-eq-ok, ok-pair_inj, value_error,
}
use emoselfie_be.Db.{Round, find}
use emoselfie_be.Domain.Enums.{RoundStatus, EmotionLabel}
use emoselfie_be.Domain.Store.{Store, put_round}
use emoselfie_be.Domain.Scheduler.{JobKind, Timers, schedule}
use emoselfie_be.Domain.Closing.{
  AbortReason, Finished, game_totals, has_range, finish_game, abort_reason, next_index,
}
use emoselfie_be.Domain.Game.{open_round, opened_round, get_elem?, violates}
use emoselfie_be.Domain.Scoring.Totals.{final_ranking}
use emoselfie_be.Domain.Lifecycle.{follow, job}

-- The stages of a round, in their order: open, scoring, settled, closed.
abbrev pub stage : RoundStatus → ℕ
stage RoundStatus.scoring = 2
stage RoundStatus.finalized = 3
stage RoundStatus.voided = 3
stage RoundStatus.closed = 4
stage _ = 1

abbrev pub stage_of : Option Round → ℕ
stage_of none = 0
stage_of (some r) = stage r.status

-- The stage of a round, and 0 if there is no such round.
abbrev pub stage_at : ℕ → List Round → ℕ
stage_at i rs = stage_of (find (λ (r : Round). r.id == i) rs)

-- No round is lost, and none goes back to an earlier stage.
abbrev pub IsForward : List Round → List Round → Type 0
IsForward rs rs' = (i : ℕ) → stage_at i rs ≤ stage_at i rs'

pub find-id :
    (i : ℕ) (rs : List Round) (r : Round) → find (λ (x : Round). x.id == i) rs ≡ some r → r.id ≡ i
find-id i [] r h = absurd cc
find-id i (x ∷ xs) r h = elim (Bool-cases (x.id == i)) [
  | inl y ↦ ground arith
  | inr n ↦ find-id i xs r (rw n at h)
]

pub stage_pos : (s : RoundStatus) → 1 ≤ stage s
stage_pos s = ground arith

pub stage-leb : (s : RoundStatus) → leb 1 (stage s) ≡ true
stage-leb RoundStatus.revealed = refl
stage-leb RoundStatus.capturing = refl
stage-leb RoundStatus.scoring = refl
stage-leb RoundStatus.finalized = refl
stage-leb RoundStatus.voided = refl
stage-leb RoundStatus.closed = refl

eqb_sym : (a b : ℕ) → (a == b) ≡ (b == a)
eqb_sym a b = ground arith

pub stage_at-put :
    (i : ℕ) (c : Round) (rs : List Round)
    → stage_at i (put_round c rs)
      ≡ (if (i == c.id) && leb 1 (stage_at i rs) then stage c.status else stage_at i rs)
stage_at-put i c [] = ground arith
stage_at-put i c (x ∷ xs) = elim (Bool-cases (x.id == c.id)) [
  | inl a ↦
      let e = (==_iff x.id c.id).0 a in
      elim (Bool-cases (c.id == i)) [
        | inl b ↦ rw (a, b, e, b, eqb_sym i c.id, b, stage-leb x.status) refl
        | inr b ↦ rw (a, b, e, b, stage_at-put i c xs, eqb_sym i c.id, b) refl
      ]
  | inr a ↦ elim (Bool-cases (x.id == i)) [
    | inl b ↦ let apart : (i == c.id) ≡ false = ground arith in rw (a, b, apart) refl
    | inr b ↦ rw (a, b) (stage_at-put i c xs)
  ]
]

pub put-IsForward :
    (c old : Round) (rs : List Round)
    → find (λ (r : Round). r.id == c.id) rs ≡ some old
    → stage old.status ≤ stage c.status
    → IsForward rs (put_round c rs)
put-IsForward c old rs f h i =
    let before : stage_at c.id rs ≡ stage old.status = ap stage_of f in
    let after = stage_at-put i c rs in
    elim (Bool-cases (i == c.id)) [
      | inl y ↦
          let e : stage_at i rs ≡ stage_at c.id rs =
            ap (λ j. stage_at j rs) ((==_iff i c.id).0 y) in
          ground arith
      | inr n ↦ ground arith
    ]

append-IsForward : (r : Round) (rs : List Round) → IsForward rs (rs ++ r ∷ [])
append-IsForward r [] i = omega arith
append-IsForward r (x ∷ xs) i = ground (arith, append-IsForward r xs i)

pub trans : (xs ys zs : List Round) → IsForward xs ys → IsForward ys zs → IsForward xs zs
trans xs ys zs h k i = let a = h i in let b = k i in omega arith

pub finish_game-rounds :
    (st st' : Store) (reason : Option AbortReason) (now : ℕ) (f : Finished)
    → finish_game st reason now ≡ ok (f, st')
    → st'.rounds ≡ st.rounds
unfolding finish_game
finish_game-rounds st st' reason now f h =
    let (_, h₁) = >>-eq-ok (all has_range (game_totals st)) value_error _ h in
    let (ranking, _, e) = >>=-eq-ok (final_ranking (game_totals st)) _ h₁ in
    let (_, es) = ok-pair_inj e in rw (← es) refl

open_round-IsForward :
    (st st' : Store) (index now : ℕ) (r : Round)
    → open_round st index now ≡ ok (r, st')
    → IsForward st.rounds st'.rounds
unfolding open_round
open_round-IsForward st st' index now r h =
    by_emotion (if leb 1 index then get_elem? st.room.emotion_sequence (index - 1) else none)
      (violates st index) h
  where
    by_emotion :
        (o : Option EmotionLabel) (b : Bool)
        → ◌≡◌ {A = Result (Round × Store)}
            (elim o [
              | none ↦ err value_error
              | some emotion ↦
                  if b
                  then err database_error
                  else (let current = opened_round st.next_id index st.room emotion now in
                      ok (
                        current,
                        record st {
                          rounds = st.rounds ++ current ∷ [];
                          next_id = st.next_id + 1;
                          room = record (st.room) {
                            current_round_id = some st.next_id;
                            last_active_at = now;
                          };
                        },
                      ))
            ])
            (ok (r, st'))
        → IsForward st.rounds st'.rounds
    by_emotion none b e = absurd cc
    by_emotion (some emotion) true e = absurd cc
    by_emotion (some emotion) false e =
        let (_, es) = ok-pair_inj e in
        rw (← es) (append-IsForward (opened_round st.next_id index st.room emotion now) st.rounds)

pub follow-IsForward :
    (st st' : Store) (current : Round) (now : ℕ) (ts ts' : Timers)
    → follow st current now ts ≡ ok (st', ts')
    → IsForward st.rounds st'.rounds
unfolding follow
follow-IsForward st st' current now ts ts' h =
    by_reason (abort_reason st) (next_index st.room current) h
  where
    finished :
        (reason : Option AbortReason)
        → ◌≡◌ {A = Result (Store × Timers)}
            (finish_game st reason now >>= λ r. ok (r.1, ts))
            (ok (st', ts'))
        → IsForward st.rounds st'.rounds
    finished reason e =
        let ((f, st₁), done, e₁) = >>=-eq-ok (finish_game st reason now) _ e in
        let (es, _) = ok-pair_inj e₁ in
        rw (← es, finish_game-rounds st st₁ reason now f done) (λ i. omega arith)

    by_reason :
        (o : Option AbortReason) (n : Option ℕ)
        → ◌≡◌ {A = Result (Store × Timers)}
            (elim o [
              | some reason ↦ (finish_game st (some reason) now >>= λ r. ok (r.1, ts))
              | none ↦ elim n [
                | none ↦ (finish_game st none now >>= λ r. ok (r.1, ts))
                | some index ↦
                    (open_round st index now >>= λ r.
                    ok (r.1, schedule ts (job JobKind.round_deadline r.0.id) r.0.deadline_at))
              ]
            ])
            (ok (st', ts'))
        → IsForward st.rounds st'.rounds
    by_reason (some reason) n e = finished (some reason) e
    by_reason none none e = finished none e
    by_reason none (some index) e =
        let ((r, st₁), done, e₁) = >>=-eq-ok (open_round st index now) _ e in
        let (es, _) = ok-pair_inj e₁ in rw (← es) (open_round-IsForward st st₁ index now r done)
