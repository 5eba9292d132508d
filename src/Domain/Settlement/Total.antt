-- ===== src/Domain/Settlement/Total.antt =====
-- `finalize_round` raises nothing on coherent keys, and what it then does to points and status.
use mathlib.Core.List.Perm
use emoselfie_be.Prelude.{
  ℕ, ◌+◌, ◌≤◌, ◌≡◌, refl, Bool, true, false, some, List, [], ◌∷◌, arith, if◌then◌else◌, or_else,
  Bool-cases, Option-cases, inl, inr, All, keep, keep-Nodup-map,
}
use emoselfie_be.Prelude.Sets.{IsDistinct, IsDistinct-Nodup, Nodup-IsDistinct}
use emoselfie_be.Prelude.Dict.{lookup, insert}
use emoselfie_be.Prelude.Sort.{sort_by, sort_by-perm}
use emoselfie_be.Prelude.Every.{
  All-append, All-map, All-enumerate, All-sort_by, All-keep_of, All-of_forall,
}
use emoselfie_be.Core.Errors.{ok, >>=-eq-ok, ok-pair_inj}
use emoselfie_be.Db.{Participant, Round, find}
use emoselfie_be.Domain.Keys.{Payload, RoundKeys}
use emoselfie_be.Domain.Store.{
  Store, put_member, put_round, is_active_member, active_participants, joined_key,
}
use emoselfie_be.Domain.Scoring.{
  RoundSubmission, ScoredSubmission, RoundOutcome, score_round, outcome_of, final_score,
  submission_check, voided_result, ranked_result, unranked_result, ranked_results, unranked_results,
  is_voided_round, id_key, order_key, is_ranked, is_unranked,
}
use emoselfie_be.Domain.Scoring.Population.{score_round_distinct}
use emoselfie_be.Domain.Scoring.Ranking.{IsValid}
use emoselfie_be.Domain.Inflight.{read_submissions, read_details}
use emoselfie_be.Domain.Inflight.Acceptance.{IsCoherent}
use emoselfie_be.Domain.Inflight.Reading.{IsPayloadAt, member_ids, read_submissions-IsReading}
use emoselfie_be.Domain.Settlement.{
  Ledger, Finalized, is_active_id, settle_row, settle_points, settle_one, settle_all, ledger_of,
  report_of, settled_store, finalized_status, finalize_round,
}
use emoselfie_be.Domain.Settlement.Credit.{
  credit-ok, settle_all-credits, points_at, is_active_in, earned, IsCredited, credit-IsCredited,
  find_active_self, settle_row-members,
}

abbrev pub HasScore : ScoredSubmission → Type 0
HasScore r = or_else r.target_score 0 ≤ 1000

final_score-le : (s : RoundSubmission) → IsValid s → or_else (final_score s) 0 ≤ 1000
unfolding final_score submission_check
final_score-le s h = ground arith

module _ (ss : List RoundSubmission) (valid : All IsValid ss) where
  ranked-HasScore : All HasScore (ranked_results ss)
  unfolding ranked_results ranked_result
  ranked-HasScore =
      All-enumerate IsValid HasScore ranked_result 1 (sort_by order_key (keep is_ranked ss))
        (λ i s h. final_score-le s h)
        (All-sort_by IsValid order_key (keep is_ranked ss) (All-keep_of IsValid is_ranked ss valid))

  unranked-HasScore : (c : ℕ) → All HasScore (unranked_results c ss)
  unfolding unranked_results unranked_result
  unranked-HasScore c =
      All-map (λ s. Unit {0}) HasScore (unranked_result c) (sort_by id_key (keep is_unranked ss))
        (λ s _. omega arith) (All-of_forall (λ s. Unit {0}) (λ s. tt) _)

  -- Every score of an outcome lies between 0.0 and 100.0.
  outcome_of-HasScore : All HasScore (outcome_of ss).results
  unfolding outcome_of voided_result
  outcome_of-HasScore = elim (Bool-cases (is_voided_round ss)) [
    | inl v ↦ rw v (
        All-map IsValid HasScore voided_result (sort_by id_key ss) (λ s h. final_score-le s h)
          (All-sort_by IsValid id_key ss valid))
    | inr n ↦ rw n (All-append HasScore (ranked_results ss) _ ranked-HasScore (unranked-HasScore _))
  ]

abbrev pub HasBest : Participant → Type 0
HasBest m = m.best_round_score ≤ 1000

find-HasBest :
    (i : ℕ) (ms : List Participant) (m : Participant)
    → All HasBest ms
    → find (is_active_id i) ms ≡ some m
    → HasBest m
find-HasBest i [] m h e = cc
find-HasBest i (x ∷ xs) m h e = ground (arith, find-HasBest i xs m h.1)

put_member-HasBest :
    (m : Participant) (ms : List Participant)
    → HasBest m
    → All HasBest ms
    → All HasBest (put_member m ms)
put_member-HasBest m [] b h = tt
put_member-HasBest m (x ∷ xs) b h = (ground arith, put_member-HasBest m xs b h.1)

credited-HasBest :
    (m : Participant) (r : ScoredSubmission) (m' : Participant)
    → HasBest m
    → HasScore r
    → IsCredited m r m'
    → HasBest m'
credited-HasBest m r m' b s c = ground arith

settle_points-ok :
    (is_void : Bool) (r : ScoredSubmission) (m : Participant) (g : Ledger)
    → m.id ≡ r.participant_id
    → HasBest m
    → HasScore r
    → All HasBest g.members
    → (g' : Ledger) × (settle_points is_void r m g ≡ ok g') × All HasBest g'.members
unfolding settle_points
settle_points-ok true r m g same b s best =
    (record g { totals = insert r.participant_id m.total_points g.totals }, refl, best)
settle_points-ok false r m g same b s best =
    let (m', c) = credit-ok m r same b s in
    (
      record g {
        members = put_member m' g.members;
        totals = insert r.participant_id m'.total_points g.totals;
      },
      rw c,
      put_member-HasBest m' g.members (credited-HasBest m r m' b s (credit-IsCredited m r c)) best,
    )

module _ (round_id : ℕ) (d : List (ℕ × Payload)) (ss : List RoundSubmission) (is_void : Bool) where
  settle_one-ok :
      (r : ScoredSubmission) (g : Ledger)
      → All HasBest g.members
      → HasScore r
      → (g' : Ledger) × (settle_one round_id d ss is_void r g ≡ ok g') × All HasBest g'.members
  unfolding settle_one
  settle_one-ok r g best score =
      elim (Option-cases (find (is_active_id r.participant_id) g.members)) [
        | inl absent ↦ (g, rw (absent, settle_one), best)
        | inr (m, found) ↦
            let (g', done, kept) =
              settle_points-ok is_void r m (settle_row round_id d ss r g)
                (find_active_self r.participant_id g.members m found).0
                (find-HasBest r.participant_id g.members m best found) score
                (rw (settle_row-members round_id d ss r g) best) in
            (g', rw (found, settle_one) done, kept)
      ]

  settle_all-ok :
      (rs : List ScoredSubmission) (g : Ledger)
      → All HasBest g.members
      → All HasScore rs
      → (g' : Ledger) × (settle_all round_id d ss is_void rs g ≡ ok g') × All HasBest g'.members
  unfolding settle_all
  settle_all-ok [] g best scores = (g, refl, best)
  settle_all-ok (r ∷ rs) g best scores =
      let (g₁, one, best₁) = settle_one-ok r g best scores.0 in
      let (g₂, rest, best₂) = settle_all-ok rs g₁ best₁ scores.1 in (g₂, rw one rest, best₂)

pub active-IsDistinct :
    (ms : List Participant)
    → IsDistinct (member_ids ms)
    → IsDistinct (member_ids (active_participants ms))
unfolding active_participants
active-IsDistinct ms d =
    Nodup-IsDistinct (member_ids (sort_by joined_key (keep is_active_member ms))) (
      Perm.nodup
        (Perm.symm (Perm.map (λ m. m.id) (sort_by-perm joined_key (keep is_active_member ms))))
        (keep-Nodup-map (λ m. m.id) is_active_member ms (IsDistinct-Nodup (member_ids ms) d)))

-- What finalizing a round relies on: coherent keys with scores as `_score` records them, and
-- members with different ids whose best scores are in range.
pub record IsReady (st : Store) (k : RoundKeys) : Type 0 where
  pub coherent : IsCoherent k
  pub payloads : (q : ℕ) → IsPayloadAt (lookup q k.scores)
  pub once : IsDistinct (member_ids st.members)
  pub best : All HasBest st.members

-- Finalizing a round that is ready raises nothing, and leaves best scores in range.
pub finalize_round-HasBest :
    (st : Store) (k : RoundKeys) (current : Round) (now : ℕ)
    → IsReady st k
    → (f : Finalized) × (st' : Store) × (finalize_round st k current now ≡ ok (f, st'))
      × All HasBest st'.members
      × (st'.room.emotion_sequence ≡ st.room.emotion_sequence)
unfolding finalize_round settled_store
finalize_round-HasBest st k current now ready =
    let (ss, read, reading) =
      read_submissions-IsReading k (active_participants st.members) ready.coherent ready.payloads
        (active-IsDistinct st.members ready.once) in
    let o = outcome_of ss in
    let (g, done, best) =
      settle_all-ok current.id (read_details k.scores k.submitted) ss o.voided o.results
        (ledger_of st) ready.best (outcome_of-HasScore ss reading.0) in
    (
      report_of o g now,
      settled_store st o g current now,
      rw (read, score_round_distinct ss reading.1, done),
      best,
      refl,
    )

-- Finalizing a round that is ready raises nothing: reading, scoring and crediting all go through.
pub finalize_round-ok :
    (st : Store) (k : RoundKeys) (current : Round) (now : ℕ)
    → IsReady st k
    → (f : Finalized) × (st' : Store) × (finalize_round st k current now ≡ ok (f, st'))
finalize_round-ok st k current now ready =
    let (f, st', done, _, _) = finalize_round-HasBest st k current now ready in (f, st', done)

-- A run of `finalize_round` that goes well is a reading, a scoring and a settlement.
abbrev pub Run : Store → RoundKeys → Round → ℕ → Finalized → Store → Type 0
Run st k current now f st' =
    (ss : List RoundSubmission) × (o : RoundOutcome) × (g : Ledger) × (score_round ss ≡ ok o)
    × (settle_all current.id (read_details k.scores k.submitted) ss o.voided o.results
          (ledger_of st)
        ≡ ok g)
    × (report_of o g now ≡ f)
    × (settled_store st o g current now ≡ st')

pub finalize_round-Run :
    (st st' : Store) (k : RoundKeys) (current : Round) (now : ℕ) (f : Finalized)
    → finalize_round st k current now ≡ ok (f, st')
    → Run st k current now f st'
unfolding finalize_round
finalize_round-Run st st' k current now f h =
    let (ss, read, h₁) = >>=-eq-ok (read_submissions k (active_participants st.members)) _ h in
    let (o, scored, h₂) = >>=-eq-ok (score_round ss) _ h₁ in
    let (g, done, h₃) =
      >>=-eq-ok
        (settle_all current.id (read_details k.scores k.submitted) ss o.voided o.results
          (ledger_of st))
        _ h₂ in
    let (ef, es) = ok-pair_inj h₃ in (ss, o, g, scored, done, ef, es)

-- Finalizing a round, where it goes through, credits every active member with the points of its results, or with nothing
-- if the round is voided. The report carries the outcome that did it, the round becomes voided or
-- finalized, and the count of voided rounds in a row goes up or starts again.
pub finalize_round-credits :
    (st st' : Store) (k : RoundKeys) (current : Round) (now : ℕ) (f : Finalized)
    → finalize_round st k current now ≡ ok (f, st')
    → ((i : ℕ)
        → is_active_in i st.members ≡ true
        → points_at i st'.members
          ≡ points_at i st.members + (if f.outcome.voided then 0 else earned i f.outcome.results))
      × (st'.rounds ≡ put_round (finalized_status f.outcome current now) st.rounds)
      × (st'.room.consecutive_voided
          ≡ (if f.outcome.voided then st.room.consecutive_voided + 1 else 0))
unfolding report_of settled_store
finalize_round-credits st st' k current now f h =
    let (ss, o, g, scored, done, ef, es) = finalize_round-Run st st' k current now f h in
    rw (← ef, ← es) (settle_all_credits ss o g done, refl, refl)
  where
    settle_all_credits :
        (ss : List RoundSubmission) (o : RoundOutcome) (g : Ledger)
        → settle_all current.id
            (read_details k.scores k.submitted)
            ss
            o.voided
            o.results
            (ledger_of st)
          ≡ ok g
        → (i : ℕ) → is_active_in i st.members ≡ true
        → points_at i g.members
          ≡ points_at i st.members + (if o.voided then 0 else earned i o.results)
    settle_all_credits ss o g done i act =
        settle_all-credits current.id (read_details k.scores k.submitted) ss o.voided i o.results
          (ledger_of st) g done act
