-- ===== src/Api/Uploads.antt =====
-- `submit` of app/api/submissions.py: what an upload leaves in Redis and in the database agree.
use emoselfie_be.Prelude.{
  ℕ, Bool, true, false, not, if◌then◌else◌, ◌≡◌, refl, sym, ◌∙◌, ◌||◌, Option, none, some, List, [],
  ◌∷◌, ◌++◌, arith, is_some, Bool-cases, inl, inr,
}
use emoselfie_be.Prelude.Dict.{insert, has_key, lookup-insert}
use emoselfie_be.Core.Errors.{
  Error, database_error, Result, ok, err, ◌>>◌, >>=-eq-ok, ok-pair_inj, ensure, app,
  deadline_passed,
}
use emoselfie_be.Db.{Participant, Room, Round, Submission, find}
use emoselfie_be.Domain.Keys.{RoundKeys}
use emoselfie_be.Domain.Store.{Store, get_round}
use emoselfie_be.Domain.Inflight.{accept_submission, in_open_statuses}
use emoselfie_be.Domain.Inflight.Acceptance.{
  IsCoherent, Attempt, accept_submission-Attempt, accept_submission-IsCoherent,
}
use emoselfie_be.Domain.Settlement.{is_row_of}
use emoselfie_be.Domain.Lobby.{current_participant}
use emoselfie_be.Domain.Lifecycle.Progress.{find-id}
use emoselfie_be.Api.Rooms.{get_room}
use emoselfie_be.Api.Submissions.{
  create_submission_row, accepted_row, admit_upload, take_upload, submit, current_round, is_current,
}

-- Exactly the participants with an accepted upload have a row in the round.
abbrev pub HasRows : ℕ → Store → RoundKeys → Type 0
HasRows round_id st k =
    (p : ℕ) → is_some (find (is_row_of round_id p) st.submissions) ≡ has_key p k.submitted

find-append :
    (i p : ℕ) (s : Submission) (ss : List Submission)
    → is_some (find (is_row_of i p) (ss ++ s ∷ []))
      ≡ (is_some (find (is_row_of i p) ss) || is_row_of i p s)
find-append i p s [] = elim (Bool-cases (is_row_of i p s)) [ inl y ↦ rw y refl | inr n ↦ rw n refl ]
find-append i p s (x ∷ xs) = elim (Bool-cases (is_row_of i p x)) [
  | inl y ↦ rw y refl
  | inr n ↦ rw n (find-append i p s xs)
]

-- The store after the transaction: as it was, if an error rolled it back.
abbrev pub store_after : Store → Result (ℕ × Store) → Store
store_after st (err e) = st
store_after st (ok (i, st')) = st'

-- Every participant with a row has an accepted upload.
abbrev pub HasUploads : ℕ → Store → RoundKeys → Type 0
HasUploads round_id st k =
    (p : ℕ)
    → (not (is_some (find (is_row_of round_id p) st.submissions)) || has_key p k.submitted) ≡ true

-- The keys are coherent. The rows are those of the uploads, where the database takes its part; else
-- no row is without an upload, and the store is as it was.
abbrev pub Agrees : Bool → ℕ → Store → Result (ℕ × Store) × RoundKeys → Type 0
Agrees commits round_id st (r, k) =
    IsCoherent k
    × (if commits
        then HasRows round_id (store_after st r) k
        else (store_after st r ≡ st) × HasUploads round_id st k)

admitted-id :
    (st : Store) (slug user_id round_id : ℕ) (m : Participant) (r : Round)
    → admit_upload st slug user_id round_id ≡ ok (m, r)
    → r.id ≡ round_id
unfolding admit_upload
admitted-id st slug user_id round_id m r h =
    let (room, _, h₁) = >>=-eq-ok (get_room st slug) _ h in
    let (member, _, h₂) = >>=-eq-ok (current_participant st user_id) _ h₁ in
    let (current, named, h₃) = >>=-eq-ok (current_round room (get_round round_id st)) _ h₂ in
    let (_, _, h₄) =
      >>=-eq-ok (ensure (in_open_statuses current.status) (app deadline_passed)) _ h₃ in
    let (_, e) = ok-pair_inj h₄ in
    rw (← e) (by_round room current (get_round round_id st) refl named)
  where
    by_round :
        (room : Room) (current : Round) (o : Option Round)
        → get_round round_id st ≡ o
        → current_round room o ≡ ok current
        → current.id ≡ round_id
    by_round room current none f e = absurd cc
    by_round room current (some c) f e = elim (Bool-cases (is_current room c)) [
      | inr n ↦ absurd (let bad = rw n at e in cc)
      | inl y ↦
          let same : c.id ≡ current.id = let k = rw y at e in cc in
          sym same ∙ find-id round_id st.rounds c f
    ]

HasRows-Agrees :
    (b : Bool) (i : ℕ) (st : Store) (k : RoundKeys) (e : Error)
    → IsCoherent k
    → HasRows i st k
    → Agrees b i st (err e, k)
HasRows-Agrees true i st k e c h = (c, h)
HasRows-Agrees false i st k e c h = (
  c,
  (refl, λ p. both (is_some (find (is_row_of i p) st.submissions)) (has_key p k.submitted) (h p)),
)
  where
    both : (a b : Bool) → a ≡ b → (not a || b) ≡ true
    both true b e = sym e
    both false b e = refl

module _ (digest : List ℕ → List ℕ → List ℕ) where
  -- Once Redis has accepted: with the row, and without it.
  taken-Agrees :
      (st : Store) (k k' : RoundKeys) (m r t : ℕ) (commits : Bool)
      → IsCoherent k'
      → HasRows r st k
      → k'.submitted ≡ insert m t k.submitted
      → Agrees commits r st
          ((if commits then ok (create_submission_row st r m t) else err database_error), k')
  unfolding create_submission_row
  taken-Agrees st k k' m r t true c h e = (
    c,
    λ p. rw e (
        find-append r p (accepted_row st.next_id r m t) st.submissions
        ∙ ground (arith, lookup-insert p m t k.submitted, h p)),
  )
  taken-Agrees st k k' m r t false c h e =
      (c, (refl, λ p. rw e (ground (arith, lookup-insert p m t k.submitted, h p))))

  take_upload-Agrees :
      (st : Store) (k : RoundKeys) (m : Participant) (r : Round) (t : ℕ) (token : Option (List ℕ))
      (secret : List ℕ) (commits : Bool)
      → IsCoherent k
      → HasRows r.id st k
      → Agrees commits r.id st (take_upload digest st k m r t token secret commits)
  unfolding take_upload
  take_upload-Agrees st k m r t token secret commits c h =
      by_attempt (accept_submission digest k r m.id t token secret)
        (accept_submission-Attempt digest k r m.id t token secret c)
        (accept_submission-IsCoherent digest k r m.id t token secret c)
    where
      by_attempt :
          (x : Result (Unit {0}) × RoundKeys)
          → Attempt digest k r m.id t token secret x
          → IsCoherent x.1
          → Agrees commits r.id st (
            (x.0
                >> (if commits
                    then ok (create_submission_row st r.id m.id t)
                    else err database_error)),
            x.1,
          )
      by_attempt (err e, k') a c' = HasRows-Agrees commits r.id st k' e c' (rw a.0 h)
      by_attempt (ok u, k') a c' = taken-Agrees st k k' m.id r.id t commits c' h (rw a.3 refl)

  -- An upload keeps the keys of the round coherent. Where the database takes its part, Redis and the
  -- database stay in agreement, if they were: exactly the participants with an accepted upload have
  -- a row in the round, whether the upload is accepted or refused. Where the insert or the commit
  -- fails, the rows are as they were, and every one of them still belongs to an accepted upload; an
  -- upload that Redis has accepted then may lack its row.
  pub submit-HasRows :
      (st : Store) (k : RoundKeys) (slug user_id round_id t : ℕ) (token : Option (List ℕ))
      (secret : List ℕ) (commits : Bool)
      → IsCoherent k
      → HasRows round_id st k
      → Agrees commits round_id st (submit digest st k slug user_id round_id t token secret commits)
  unfolding submit
  submit-HasRows st k slug user_id round_id t token secret commits c h =
      by_guard (admit_upload st slug user_id round_id) refl
    where
      by_guard :
          (g : Result (Participant × Round))
          → admit_upload st slug user_id round_id ≡ g
          → Agrees commits round_id st (elim g [
            | err e ↦ (err e, k)
            | ok (m, r) ↦ take_upload digest st k m r t token secret commits
          ])
      by_guard (err e) a = HasRows-Agrees commits round_id st k e c h
      by_guard (ok (m, r)) a =
          let e = admitted-id st slug user_id round_id m r a in
          rw (← e) (take_upload-Agrees st k m r t token secret commits c (λ p. rw e (h p)))
