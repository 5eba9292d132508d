-- ===== src/Domain/Settlement/Members.antt =====
-- `finalize_round` leaves the ids of the members as they are.
use emoselfie_be.Prelude.{
  ℕ, ◌≡◌, refl, ◌∙◌, ap, Bool, true, false, Option, none, some, List, [], ◌∷◌, arith,
}
use emoselfie_be.Prelude.Dict.{Dict}
use emoselfie_be.Core.Errors.{Result, ok, >>=-eq-ok, ok_inj}
use emoselfie_be.Db.{Participant, Round, find}
use emoselfie_be.Domain.Keys.{Payload, RoundKeys}
use emoselfie_be.Domain.Store.{Store}
use emoselfie_be.Domain.Scoring.{RoundSubmission, ScoredSubmission}
use emoselfie_be.Domain.Inflight.Reading.{member_ids}
use emoselfie_be.Domain.Lobby.Capacity.{ids-put}
use emoselfie_be.Domain.Settlement.{
  Ledger, credit, settle_row, settle_points, settle_one, settle_all, is_active_id, Finalized,
  finalize_round, settled_store, ledger_of,
}
use emoselfie_be.Domain.Settlement.Total.{finalize_round-Run}

settle_row-members :
    (round_id : ℕ) (d : Dict Payload) (ss : List RoundSubmission) (r : ScoredSubmission)
    (g : Ledger)
    → (settle_row round_id d ss r g).members ≡ g.members
unfolding settle_row
settle_row-members round_id d ss r g = ground arith

settle_points-ids :
    (is_void : Bool) (r : ScoredSubmission) (m : Participant) (g g' : Ledger)
    → settle_points is_void r m g ≡ ok g'
    → member_ids g'.members ≡ member_ids g.members
unfolding settle_points
settle_points-ids true r m g g' h = let e = ok_inj _ g' h in rw (← e) refl
settle_points-ids false r m g g' h =
    let (m', credited, h') = >>=-eq-ok (credit m r) _ h in
    let e = ok_inj _ g' h' in rw (← e) (ids-put m' g.members)

module _ (round_id : ℕ) (d : Dict Payload) (ss : List RoundSubmission) (is_void : Bool) where
  settle_one-ids :
      (r : ScoredSubmission) (g g' : Ledger)
      → settle_one round_id d ss is_void r g ≡ ok g'
      → member_ids g'.members ≡ member_ids g.members
  unfolding settle_one
  settle_one-ids r g g' h = by_member (find (is_active_id r.participant_id) g.members) h
    where
      by_member :
          (o : Option Participant)
          → ◌≡◌ {A = Result Ledger}
              (elim o [
                | none ↦ ok g
                | some m ↦ settle_points is_void r m (settle_row round_id d ss r g)
              ])
              (ok g')
          → member_ids g'.members ≡ member_ids g.members
      by_member none e = let f = ok_inj g g' e in rw (← f) refl
      by_member (some m) e =
          settle_points-ids is_void r m (settle_row round_id d ss r g) g' e
          ∙ ap member_ids (settle_row-members round_id d ss r g)

  settle_all-ids :
      (rs : List ScoredSubmission) (g g' : Ledger)
      → settle_all round_id d ss is_void rs g ≡ ok g'
      → member_ids g'.members ≡ member_ids g.members
  unfolding settle_all
  settle_all-ids [] g g' h = let f = ok_inj g g' h in rw (← f) refl
  settle_all-ids (r ∷ rs) g g' h =
      let (g₁, here, h₁) = >>=-eq-ok (settle_one round_id d ss is_void r g) _ h in
      settle_all-ids rs g₁ g' h₁ ∙ settle_one-ids r g g₁ here

pub finalize_round-ids :
    (st st' : Store) (k : RoundKeys) (current : Round) (now : ℕ) (f : Finalized)
    → finalize_round st k current now ≡ ok (f, st')
    → member_ids st'.members ≡ member_ids st.members
unfolding settled_store
finalize_round-ids st st' k current now f h =
    let (ss, o, g, scored, done, ef, es) = finalize_round-Run st st' k current now f h in
    rw (← es) (settle_all-ids current.id _ ss o.voided o.results (ledger_of st) g done)
