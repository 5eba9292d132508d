-- ===== src/Domain/Settlement/Rows.antt =====
-- `finalize_round`: the rows of the submissions, as the loop leaves them.
use emoselfie_be.Prelude.{
  ℕ, ◌+◌, ◌<◌, ◌≡◌, refl, Bool, true, false, Option, none, some, List, [], ◌∷◌, ◌++◌, arith, ◌==◌,
  ==_refl,
}
use emoselfie_be.Prelude.Sets.{has}
use emoselfie_be.Prelude.Dict.{Dict, lookup, insert, lookup-insert}
use emoselfie_be.Db.{Submission, find}
use emoselfie_be.Domain.Keys.{Payload}
use emoselfie_be.Domain.Store.{put_submission}
use emoselfie_be.Domain.Scoring.{RoundSubmission, ScoredSubmission}
use emoselfie_be.Domain.Settlement.{Ledger, is_row_of, new_row, settled_row, settle_row}

abbrev pub submission_ids : List Submission → List ℕ
submission_ids [] = []
submission_ids (s ∷ ss) = s.id ∷ submission_ids ss

-- Different numbers below a bound.
abbrev pub AreIds : ℕ → List ℕ → Type 0
AreIds n [] = Unit
AreIds n (i ∷ is) = (i < n) × (has i is ≡ false) × AreIds n is

submission_ids-put :
    (s : Submission) (xs : List Submission)
    → submission_ids (put_submission s xs) ≡ submission_ids xs
submission_ids-put s [] = refl
submission_ids-put s (x ∷ xs) = ground (arith, submission_ids-put s xs)

submission_ids-snoc :
    (s : Submission) (xs : List Submission)
    → submission_ids (xs ++ s ∷ []) ≡ submission_ids xs ++ s.id ∷ []
submission_ids-snoc s [] = refl
submission_ids-snoc s (x ∷ xs) = rw (submission_ids-snoc s xs) refl

has-ids_snoc : (i n : ℕ) (is : List ℕ) → i < n → has i is ≡ false → has i (is ++ n ∷ []) ≡ false
has-ids_snoc i n [] below new = ground arith
has-ids_snoc i n (j ∷ js) below new = ground (arith, has-ids_snoc i n js below)

AreIds-snoc : (n : ℕ) (is : List ℕ) → AreIds n is → AreIds (n + 1) (is ++ n ∷ [])
AreIds-snoc n [] h = (omega arith, refl, tt)
AreIds-snoc n (i ∷ is) h =
    (let b = h.0 in omega arith, has-ids_snoc i n is h.0 h.1, AreIds-snoc n is h.2)

put_absent :
    (s : Submission) (xs : List Submission)
    → has s.id (submission_ids xs) ≡ false
    → put_submission s xs ≡ xs
put_absent s [] h = refl
put_absent s (x ∷ xs) h = ground (arith, put_absent s xs)

module _ (p : Submission → Bool) where
  find_self : (xs : List Submission) (row : Submission) → find p xs ≡ some row → p row ≡ true
  find_self [] row e = absurd cc
  find_self (x ∷ xs) row e = ground (arith, find_self xs row)

  has-find :
      (xs : List Submission) (row : Submission)
      → find p xs ≡ some row
      → has row.id (submission_ids xs) ≡ true
  has-find [] row e = absurd cc
  has-find (x ∷ xs) row e = ground (arith, has-find xs row)

  find-put_self :
      (n : ℕ) (s row : Submission) (xs : List Submission)
      → AreIds n (submission_ids xs)
      → find p xs ≡ some row
      → s.id ≡ row.id
      → p s ≡ true
      → find p (put_submission s xs) ≡ some s
  find-put_self n s row [] ids e same now = absurd cc
  find-put_self n s row (x ∷ xs) ids e same now =
      ground (arith, has-find xs row, find-put_self n s row xs ids.2)

  find-put_other :
      (q : Submission → Bool) (n : ℕ) (s row : Submission) (xs : List Submission)
      → AreIds n (submission_ids xs)
      → find p xs ≡ some row
      → s.id ≡ row.id
      → q s ≡ false
      → q row ≡ false
      → find q (put_submission s xs) ≡ find q xs
  find-put_other q n s row [] ids e same now was = refl
  find-put_other q n s row (x ∷ xs) ids e same now was =
      ground (arith, has-find xs row, put_absent s xs, find-put_other q n s row xs ids.2)

  find-snoc_self :
      (s : Submission) (xs : List Submission)
      → find p xs ≡ none
      → p s ≡ true
      → find p (xs ++ s ∷ []) ≡ some s
  find-snoc_self s [] e now = ground arith
  find-snoc_self s (x ∷ xs) e now = ground (arith, find-snoc_self s xs)

  find-snoc_other :
      (s : Submission) (xs : List Submission) → p s ≡ false → find p (xs ++ s ∷ []) ≡ find p xs
  find-snoc_other s [] now = ground arith
  find-snoc_other s (x ∷ xs) now = ground (arith, find-snoc_other s xs now)

-- The row of a participant in a round, if the store has one.
abbrev pub row_at : ℕ → ℕ → List Submission → Option Submission
row_at round_id i rows = find (is_row_of round_id i) rows

-- The row holds what the result says.
abbrev pub Holds : ScoredSubmission → Submission → Type 0
Holds r row =
    (row.participant_id ≡ r.participant_id)
    × (row.status ≡ r.status)
    × (row.rank ≡ r.rank)
    × (row.rank_points ≡ r.rank_points)
    × (row.target_score ≡ r.target_score)

module _ (round_id : ℕ) (d : Dict Payload) (ss : List RoundSubmission) where
  -- What settling a row does: its result is held by the row that is noted, and no other
  -- participant's row is changed.
  abbrev pub IsSettled : ScoredSubmission → Ledger → Ledger → Type 0
  IsSettled r g g' =
      ((row : Submission) × (row_at round_id r.participant_id g'.submissions ≡ some row)
        × Holds r row
        × (lookup r.participant_id g'.rows ≡ some row.id))
      × ((i : ℕ)
          → (i == r.participant_id) ≡ false
          → (row_at round_id i g'.submissions ≡ row_at round_id i g.submissions)
            × (lookup i g'.rows ≡ lookup i g.rows))
      × AreIds g'.next_id (submission_ids g'.submissions)

  settled-Holds :
      (r : ScoredSubmission) (row : Submission)
      → is_row_of round_id r.participant_id row ≡ true
      → Holds r (settled_row d ss r row)
        × (is_row_of round_id r.participant_id (settled_row d ss r row) ≡ true)
        × ((settled_row d ss r row).id ≡ row.id)
  unfolding settled_row
  settled-Holds r row h = ((ground arith, refl, refl, refl, refl), ground arith, refl)

  not_row_of :
      (i j : ℕ) (s : Submission)
      → is_row_of round_id i s ≡ true
      → (j == i) ≡ false
      → is_row_of round_id j s ≡ false
  not_row_of i j s h ne = ground arith

  module _ (r : ScoredSubmission) (g : Ledger)
      (ids : AreIds g.next_id (submission_ids g.submissions)) where
    renewed-IsSettled :
        (row : Submission)
        → row_at round_id r.participant_id g.submissions ≡ some row
        → IsSettled r g (record g {
          submissions = put_submission (settled_row d ss r row) g.submissions;
          rows = insert r.participant_id row.id g.rows;
        })
    renewed-IsSettled row found =
        let p = is_row_of round_id r.participant_id in
        let s = settled_row d ss r row in
        let was = find_self p g.submissions row found in
        let (holds, now, same) = settled-Holds r row was in
        (
          (
            s,
            find-put_self p g.next_id s row g.submissions ids found same now,
            holds,
            rw
                (
                  lookup-insert r.participant_id r.participant_id row.id g.rows,
                  same,
                  ==_refl r.participant_id,
                )
                refl,
          ),
          (λ i ne. (
            find-put_other p (is_row_of round_id i) g.next_id s row g.submissions ids found same
                (not_row_of r.participant_id i s now ne) (not_row_of r.participant_id i row was ne),
            rw (lookup-insert i r.participant_id row.id g.rows, ne) refl,
          )),
          rw (submission_ids-put s g.submissions) ids,
        )

    added-IsSettled :
        row_at round_id r.participant_id g.submissions ≡ none
        → IsSettled r g (record g {
          submissions =
              g.submissions
              ++ settled_row d ss r (new_row g.next_id round_id r.participant_id) ∷ [];
          next_id = g.next_id + 1;
          rows = insert r.participant_id g.next_id g.rows;
        })
    added-IsSettled absent =
        let p = is_row_of round_id r.participant_id in
        let row = new_row g.next_id round_id r.participant_id in
        let s = settled_row d ss r row in
        let was : is_row_of round_id r.participant_id row ≡ true =
          ground (arith, ==_refl round_id, ==_refl r.participant_id) in
        let (holds, now, same) = settled-Holds r row was in
        (
          (
            s,
            find-snoc_self p s g.submissions absent now,
            holds,
            rw
                (
                  lookup-insert r.participant_id r.participant_id g.next_id g.rows,
                  same,
                  ==_refl r.participant_id,
                )
                refl,
          ),
          (λ i ne. (
            find-snoc_other (is_row_of round_id i) s g.submissions
                (not_row_of r.participant_id i s now ne),
            rw (lookup-insert i r.participant_id g.next_id g.rows, ne) refl,
          )),
          rw (submission_ids-snoc s g.submissions, same)
              (AreIds-snoc g.next_id (submission_ids g.submissions) ids),
        )

    pub settle_row-IsSettled : IsSettled r g (settle_row round_id d ss r g)
    unfolding settle_row
    settle_row-IsSettled = by_row (row_at round_id r.participant_id g.submissions) refl
      where
        by_row :
            (o : Option Submission)
            → row_at round_id r.participant_id g.submissions ≡ o
            → IsSettled r g (elim o [
              | some row ↦ record g {
                submissions = put_submission (settled_row d ss r row) g.submissions;
                rows = insert r.participant_id row.id g.rows;
              }
              | none ↦ record g {
                submissions =
                    g.submissions
                    ++ settled_row d ss r (new_row g.next_id round_id r.participant_id) ∷ [];
                next_id = g.next_id + 1;
                rows = insert r.participant_id g.next_id g.rows;
              }
            ])
        by_row none e = added-IsSettled e
        by_row (some row) e = renewed-IsSettled row e
