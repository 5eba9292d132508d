-- ===== src/Domain/Views/Replay.antt =====
-- `round:closed` tells a late viewer what `round:finalized` told the others.
use mathlib.Core.List.{Mem, mem-cons_self, mem-cons_of_mem}
use mathlib.Core.List
use mathlib.Core.List.Perm
use mathlib.Core.Path.{subst}
use emoselfie_be.Prelude.{
  ℕ, ◌≡◌, refl, ◌∙◌, Bool, true, some, List, [], ◌∷◌, arith, ◌==◌, Bool-cases, inl, inr, All, keep,
}
use emoselfie_be.Prelude.Sets.{has, IsDistinct, IsDistinct-Nodup, Nodup-IsDistinct}
use emoselfie_be.Prelude.Dict.{Dict, lookup, lookup-insert}
use emoselfie_be.Prelude.Every.{All-map}
use emoselfie_be.Core.Errors.{ok}
use emoselfie_be.Db.{Participant, Round, Submission, find}
use emoselfie_be.Domain.Keys.{RoundKeys}
use emoselfie_be.Domain.Store.{Store}
use emoselfie_be.Domain.Scoring.{ScoredSubmission, RoundSubmission, RoundOutcome, score_round}
use emoselfie_be.Domain.Scoring.Population.{result_ids, Covers, score_round-Covers}
use emoselfie_be.Domain.Inflight.{read_details}
use emoselfie_be.Domain.Inflight.Reading.{member_ids}
use emoselfie_be.Domain.Settlement.{
  Ledger, Finalized, is_row_of, ledger_of, report_of, settled_store, finalize_round,
}
use emoselfie_be.Domain.Settlement.Credit.{points_at, is_active_in}
use emoselfie_be.Domain.Settlement.Total.{finalize_round-Run}
use emoselfie_be.Domain.Settlement.Members.{finalize_round-ids}
use emoselfie_be.Domain.Settlement.Rows.{AreIds, submission_ids}
use emoselfie_be.Domain.Settlement.Notes.{IsNoted, settle_all-IsNoted, settle_all-active}
use emoselfie_be.Domain.Views.{
  FinalizedResult, finalized_result, finalized_view, ClosedResult, closed_result, closed_view,
  scored_row, total_of, totals_from, settled_results,
}

abbrev of_round : ℕ → Submission → Bool
of_round round_id s = s.round_id == round_id

-- The row of a participant is among those that `settled_results` selects.
mem-of_find :
    (round_id i : ℕ) (xs : List Submission) (row : Submission)
    → find (is_row_of round_id i) xs ≡ some row
    → Mem row (keep (of_round round_id) xs)
mem-of_find round_id i [] row e = absurd cc
mem-of_find round_id i (x ∷ xs) row e = elim (Bool-cases (is_row_of round_id i x)) [
  | inl y ↦
      let here : x ≡ row = ground arith in
      let mine : of_round round_id x ≡ true = ground arith in rw mine (rw (← here) mem-cons_self)
  | inr n ↦ elim (Bool-cases (of_round round_id x)) [
    | inl y ↦ rw y (mem-cons_of_mem x (mem-of_find round_id i xs row (ground arith)))
    | inr m ↦ rw m (mem-of_find round_id i xs row (ground arith))
  ]
]

lookup-totals_from :
    (ms : List Participant) (i : ℕ) (rows : List Submission) (totals : Dict ℕ)
    → lookup i totals ≡ some (total_of ms i)
    → lookup i (totals_from ms rows totals) ≡ some (total_of ms i)
lookup-totals_from ms i [] totals h = h
lookup-totals_from ms i (s ∷ ss) totals h =
    lookup-totals_from ms i ss _
      (ground (arith, lookup-insert i s.participant_id (total_of ms s.participant_id) totals))

-- The total of a participant with a row in the round is noted.
lookup-totals_found :
    (ms : List Participant) (round_id i : ℕ) (xs : List Submission) (row : Submission)
    (totals : Dict ℕ)
    → find (is_row_of round_id i) xs ≡ some row
    → lookup i (totals_from ms (keep (of_round round_id) xs) totals) ≡ some (total_of ms i)
lookup-totals_found ms round_id i [] row totals e = absurd cc
lookup-totals_found ms round_id i (x ∷ xs) row totals e = elim (Bool-cases (of_round round_id x)) [
  | inr m ↦ rw m (lookup-totals_found ms round_id i xs row totals (ground arith))
  | inl y ↦ rw y (elim (Bool-cases (x.participant_id == i)) [
    | inl same ↦
        lookup-totals_from ms i (keep (of_round round_id) xs) _
          (ground (arith, lookup-insert i x.participant_id (total_of ms x.participant_id) totals))
    | inr other ↦ lookup-totals_found ms round_id i xs row _ (ground arith)
  ])
]

active-has :
    (i : ℕ) (ms : List Participant) → is_active_in i ms ≡ true → has i (member_ids ms) ≡ true
active-has i [] h = h
active-has i (m ∷ ms) h = ground (arith, active-has i ms)

-- The total of an active member is that member's points.
total_of-active :
    (i : ℕ) (ms : List Participant)
    → IsDistinct (member_ids ms)
    → is_active_in i ms ≡ true
    → total_of ms i ≡ points_at i ms
total_of-active i [] once h = absurd cc
total_of-active i (m ∷ ms) once h = ground (arith, active-has i ms, total_of-active i ms once.1)

results-IsDistinct :
    (ss : List RoundSubmission) (o : RoundOutcome)
    → score_round ss ≡ ok o
    → IsDistinct (result_ids o.results)
results-IsDistinct ss o scored =
    let covers : Covers ss (ok o) = subst (Covers ss) scored (score_round-Covers ss) in
    Nodup-IsDistinct (result_ids o.results)
      (Perm.nodup (Perm.symm covers.1) (IsDistinct-Nodup _ covers.0))

-- A line of `round:finalized`, as `round:closed` has it.
abbrev pub replayed : FinalizedResult → ClosedResult
replayed e = record {
  participant_id = e.participant_id;
  rank_points = e.rank_points;
  total_points = e.total_points;
}

abbrev pub closing_results : Store → Round → Dict (ℕ × ℕ) → ℕ → List ClosedResult
closing_results st current reactions next_round_at_ms =
    let (results, totals, rows) = settled_results st current.id in
    (closed_view current totals reactions rows results next_round_at_ms).results

-- A result that is noted is among those that the closing view lists, with the same total.
noted-replayed :
    (st : Store) (g : Ledger) (current : Round) (reactions : Dict (ℕ × ℕ)) (next : ℕ)
    (r : ScoredSubmission)
    → st.submissions ≡ g.submissions
    → st.members ≡ g.members
    → IsDistinct (member_ids g.members)
    → is_active_in r.participant_id g.members ≡ true
    → IsNoted current.id r g
    → Mem (replayed (finalized_result g.totals r)) (closing_results st current reactions next)
unfolding settled_results closed_view
noted-replayed st g current reactions next r rows members once act ((row, found, holds, _), total) =
    let rows_of = keep (of_round current.id) g.submissions in
    let totals = totals_from g.members rows_of [] in
    let in_rows = mem-of_find current.id r.participant_id g.submissions row found in
    let told =
      lookup-totals_found g.members current.id r.participant_id g.submissions row [] found in
    let points = total_of-active r.participant_id g.members once act in
    let (who, _, _, worth, _) = holds in
    let line : closed_result totals (scored_row row) ≡ replayed (finalized_result g.totals r) =
      rw (who, worth, told, points, total) refl in
    rw (rows, members)
      (rw (← line)
        (List.mem-map_of_mem (closed_result totals) (List.mem-map_of_mem scored_row in_rows)))

-- After a round is settled, its closing view tells of every active participant with a result what
-- the view of the settled round told: the points of the round and the total. Ids of members
-- and of rows are different, and those of rows below the next id.
pub closed_view-replays :
    (st st' : Store) (k : RoundKeys) (current : Round) (now : ℕ) (f : Finalized)
    (reactions : Dict (ℕ × ℕ)) (next : ℕ)
    → AreIds st.next_id (submission_ids st.submissions)
    → IsDistinct (member_ids st.members)
    → finalize_round st k current now ≡ ok (f, st')
    → All
        (λ e.
          is_active_in e.participant_id st.members ≡ true
          → Mem (replayed e) (closing_results st' current reactions next))
        (finalized_view current f).results
unfolding finalized_view report_of settled_store
closed_view-replays st st' k current now f reactions next ids once h =
    let (ss, o, g, scored, done, ef, es) = finalize_round-Run st st' k current now f h in
    let d = read_details k.scores k.submitted in
    let noted =
      settle_all-IsNoted current.id d ss o.voided o.results (ledger_of st) g ids
        (results-IsDistinct ss o scored) done in
    let members : st'.members ≡ g.members = rw (← es) refl in
    let rows : st'.submissions ≡ g.submissions = rw (← es) refl in
    let totals : f.totals ≡ g.totals = rw (← ef) refl in
    let results : f.outcome.results ≡ o.results = rw (← ef) refl in
    let apart : IsDistinct (member_ids g.members) =
      rw (← members, finalize_round-ids st st' k current now f h) once in
    rw (totals, results)
      (All-map (λ r. is_active_in r.participant_id st.members ≡ true → IsNoted current.id r g)
        (λ e.
          is_active_in e.participant_id st.members ≡ true
          → Mem (replayed e) (closing_results st' current reactions next))
        (finalized_result g.totals) o.results
        (λ r note act.
          noted-replayed st' g current reactions next r rows members apart
            (settle_all-active current.id d ss o.voided r.participant_id o.results (ledger_of st) g
                done
              ∙ act)
            (note act))
        noted)
