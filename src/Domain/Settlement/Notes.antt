-- ===== src/Domain/Settlement/Notes.antt =====
-- `finalize_round`: what its loop notes of each result, in the rows and in the totals.
use emoselfie_be.Prelude.{
  ℕ, ◌≡◌, refl, ◌∙◌, Bool, true, false, some, List, [], ◌∷◌, arith, ◌==◌, ==_refl, Option-cases,
  inl, inr, All, ap,
}
use emoselfie_be.Prelude.Sets.{has, IsDistinct}
use emoselfie_be.Prelude.Dict.{Dict, lookup, insert, lookup-insert}
use emoselfie_be.Core.Errors.{ok, >>=-eq-ok, ok_inj}
use emoselfie_be.Db.{Participant, Submission, find}
use emoselfie_be.Domain.Keys.{Payload}
use emoselfie_be.Domain.Scoring.{RoundSubmission, ScoredSubmission}
use emoselfie_be.Domain.Scoring.Population.{result_ids}
use emoselfie_be.Domain.Settlement.{
  Ledger, credit, is_active_id, settle_row, settle_points, settle_one, settle_all,
}
use emoselfie_be.Domain.Settlement.Credit.{
  credit-IsCredited, find_active_self, find-put_member_self, settle_row-members, points_at,
  is_active_in, earned, settle_all-credits, settle_one-StepsTo,
}
use emoselfie_be.Domain.Settlement.Rows.{
  AreIds, submission_ids, row_at, Holds, settle_row-IsSettled,
}

-- The result is held by the row that is noted for its participant, with the participant's total.
abbrev pub IsNoted : ℕ → ScoredSubmission → Ledger → Type 0
IsNoted round_id r g =
    ((row : Submission) × (row_at round_id r.participant_id g.submissions ≡ some row)
      × Holds r row
      × (lookup r.participant_id g.rows ≡ some row.id))
    × (lookup r.participant_id g.totals ≡ some (points_at r.participant_id g.members))

abbrev pub IsKept : ℕ → ℕ → Ledger → Ledger → Type 0
IsKept round_id i g g' =
    (row_at round_id i g'.submissions ≡ row_at round_id i g.submissions)
    × (lookup i g'.rows ≡ lookup i g.rows)
    × (lookup i g'.totals ≡ lookup i g.totals)

-- Crediting touches no row.
settle_points-rows :
    (is_void : Bool) (r : ScoredSubmission) (m : Participant) (g g' : Ledger)
    → settle_points is_void r m g ≡ ok g'
    → (g'.submissions ≡ g.submissions) × (g'.rows ≡ g.rows) × (g'.next_id ≡ g.next_id)
unfolding settle_points
settle_points-rows true r m g g' h = let e = ok_inj _ g' h in rw (← e) (refl, refl, refl)
settle_points-rows false r m g g' h =
    let (m', credited, h') = >>=-eq-ok (credit m r) _ h in
    let e = ok_inj _ g' h' in rw (← e) (refl, refl, refl)

settle_points-totals :
    (is_void : Bool) (r : ScoredSubmission) (m : Participant) (g g' : Ledger)
    → find (is_active_id r.participant_id) g.members ≡ some m
    → settle_points is_void r m g ≡ ok g'
    → g'.totals ≡ insert r.participant_id (points_at r.participant_id g'.members) g.totals
unfolding settle_points
settle_points-totals true r m g g' found h =
    let e = ok_inj _ g' h in
    rw (← e) (ap (λ n. insert r.participant_id n g.totals) (rw (points_at, found) refl))
settle_points-totals false r m g g' found h =
    let (m', credited, h') = >>=-eq-ok (credit m r) _ h in
    let e = ok_inj _ g' h' in
    let same = find_active_self r.participant_id g.members m found in
    let c = credit-IsCredited m r credited in
    let put = find-put_member_self m' g.members (ground arith) (ground arith) in
    rw (← e) (ap (λ n. insert r.participant_id n g.totals) (ground arith))

settle_row-totals :
    (round_id : ℕ) (d : Dict Payload) (ss : List RoundSubmission) (r : ScoredSubmission)
    (g : Ledger)
    → (settle_row round_id d ss r g).totals ≡ g.totals
unfolding settle_row
settle_row-totals round_id d ss r g = ground arith

module _ (round_id : ℕ) (d : Dict Payload) (ss : List RoundSubmission) (is_void : Bool) where
  settle_one-IsNoted :
      (r : ScoredSubmission) (g g' : Ledger)
      → AreIds g.next_id (submission_ids g.submissions)
      → settle_one round_id d ss is_void r g ≡ ok g'
      → (is_active_in r.participant_id g.members ≡ true → IsNoted round_id r g')
        × ((i : ℕ) → (i == r.participant_id) ≡ false → IsKept round_id i g g')
        × AreIds g'.next_id (submission_ids g'.submissions)
  unfolding settle_one
  settle_one-IsNoted r g g' ids h =
      elim (Option-cases (find (is_active_id r.participant_id) g.members)) [
        | inl absent ↦
            let e : g ≡ g' = ground arith in
            rw (← e) ((λ act. absurd (ground arith)), (λ i ne. (refl, refl, refl)), ids)
        | inr (m, found) ↦ present m found
      ]
    where
      g₁ : Ledger
      g₁ = settle_row round_id d ss r g

      present :
          (m : Participant)
          → find (is_active_id r.participant_id) g.members ≡ some m
          → (is_active_in r.participant_id g.members ≡ true → IsNoted round_id r g')
            × ((i : ℕ) → (i == r.participant_id) ≡ false → IsKept round_id i g g')
            × AreIds g'.next_id (submission_ids g'.submissions)
      present m found =
          let done : settle_points is_void r m g₁ ≡ ok g' = ground arith in
          let (rows, ids_of, next) = settle_points-rows is_void r m g₁ g' done in
          let totals =
            settle_points-totals is_void r m g₁ g' (rw (settle_row-members round_id d ss r g) found)
              done in
          let (held, others, fresh) = settle_row-IsSettled round_id d ss r g ids in
          (
            (λ act. (
              rw (rows, ids_of) held,
              rw
                  (
                    totals,
                    lookup-insert r.participant_id r.participant_id
                        (points_at r.participant_id g'.members) g₁.totals,
                    ==_refl r.participant_id,
                  )
                  refl,
            )),
            (λ i ne. (
              rw rows (others i ne).0,
              rw ids_of (others i ne).1,
              rw
                  (
                    totals,
                    lookup-insert i r.participant_id (points_at r.participant_id g'.members)
                        g₁.totals,
                    ne,
                    settle_row-totals round_id d ss r g,
                  )
                  refl,
            )),
            rw (rows, next) fresh,
          )

  -- A participant without a result in the list keeps what is noted.
  settle_all-IsKept :
      (i : ℕ) (rs : List ScoredSubmission) (g g' : Ledger)
      → AreIds g.next_id (submission_ids g.submissions)
      → settle_all round_id d ss is_void rs g ≡ ok g'
      → has i (result_ids rs) ≡ false
      → IsKept round_id i g g'
  unfolding settle_all
  settle_all-IsKept i [] g g' ids h out = let e = ok_inj g g' h in rw (← e) (refl, refl, refl)
  settle_all-IsKept i (r ∷ rs) g g' ids h out =
      let (g₁, one, rest) = >>=-eq-ok (settle_one round_id d ss is_void r g) _ h in
      let (noted, kept, ids₁) = settle_one-IsNoted r g g₁ ids one in
      let (a, b, c) = kept i (ground arith) in
      let (a', b', c') = settle_all-IsKept i rs g₁ g' ids₁ rest (ground arith) in
      (a' ∙ a, b' ∙ b, c' ∙ c)

  earned_none :
      (i : ℕ) (rs : List ScoredSubmission) → has i (result_ids rs) ≡ false → earned i rs ≡ 0
  earned_none i [] out = refl
  earned_none i (r ∷ rs) out = ground (arith, earned_none i rs)

  IsNoted-still :
      (r : ScoredSubmission) (rs : List ScoredSubmission) (g g' : Ledger)
      → AreIds g.next_id (submission_ids g.submissions)
      → settle_all round_id d ss is_void rs g ≡ ok g'
      → has r.participant_id (result_ids rs) ≡ false
      → is_active_in r.participant_id g.members ≡ true
      → IsNoted round_id r g
      → IsNoted round_id r g'
  IsNoted-still r rs g g' ids h out act (held, total) =
      let (a, b, c) = settle_all-IsKept r.participant_id rs g g' ids h out in
      let points = settle_all-credits round_id d ss is_void r.participant_id rs g g' h act in
      let none_more = earned_none r.participant_id rs out in
      let same : points_at r.participant_id g'.members ≡ points_at r.participant_id g.members =
        ground arith in
      (rw (a, b) held, rw (c, same) total)

  -- Every result of an active participant is noted.
  pub settle_all-IsNoted :
      (rs : List ScoredSubmission) (g g' : Ledger)
      → AreIds g.next_id (submission_ids g.submissions)
      → IsDistinct (result_ids rs)
      → settle_all round_id d ss is_void rs g ≡ ok g'
      → All (λ r. is_active_in r.participant_id g.members ≡ true → IsNoted round_id r g') rs
  unfolding settle_all
  settle_all-IsNoted [] g g' ids once h = tt
  settle_all-IsNoted (r ∷ rs) g g' ids once h =
      let (g₁, one, rest) = >>=-eq-ok (settle_one round_id d ss is_void r g) _ h in
      let (noted, kept, ids₁) = settle_one-IsNoted r g g₁ ids one in
      (
        (λ act.
            IsNoted-still r rs g₁ g' ids₁ rest once.0
              ((settle_one-StepsTo round_id d ss is_void r.participant_id r g g₁ one).0 ∙ act)
              (noted act)),
        All-still g g₁ g' rs one (settle_all-IsNoted rs g₁ g' ids₁ once.1 rest),
      )
    where
      All-still :
          (g g₁ g' : Ledger) (qs : List ScoredSubmission)
          → settle_one round_id d ss is_void r g ≡ ok g₁
          → All (λ q. is_active_in q.participant_id g₁.members ≡ true → IsNoted round_id q g') qs
          → All (λ q. is_active_in q.participant_id g.members ≡ true → IsNoted round_id q g') qs
      All-still g g₁ g' [] one h = tt
      All-still g g₁ g' (q ∷ qs) one h = (
        (λ act.
            h.0 ((settle_one-StepsTo round_id d ss is_void q.participant_id r g g₁ one).0 ∙ act)),
        All-still g g₁ g' qs one h.1,
      )

  pub settle_all-active :
      (i : ℕ) (rs : List ScoredSubmission) (g g' : Ledger)
      → settle_all round_id d ss is_void rs g ≡ ok g'
      → is_active_in i g'.members ≡ is_active_in i g.members
  unfolding settle_all
  settle_all-active i [] g g' h = let e = ok_inj g g' h in rw (← e) refl
  settle_all-active i (r ∷ rs) g g' h =
      let (g₁, one, rest) = >>=-eq-ok (settle_one round_id d ss is_void r g) _ h in
      settle_all-active i rs g₁ g' rest ∙ (settle_one-StepsTo round_id d ss is_void i r g g₁ one).0
