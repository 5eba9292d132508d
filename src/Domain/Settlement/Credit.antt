-- ===== src/Domain/Settlement/Credit.antt =====
-- `finalize_round`: the points that each member is credited with.
use emoselfie_be.Prelude.{
  ℕ, ◌+◌, ◌≤◌, ◌≡◌, refl, ◌∙◌, Bool, true, false, none, some, List, [], ◌∷◌, arith, ◌==◌, ==_iff,
  if◌then◌else◌, is_some, or_else, Bool-cases, Option-cases, inl, inr, max,
}
use emoselfie_be.Core.Errors.{ok, >>=-eq-ok}
use emoselfie_be.Db.{Participant, find}
use emoselfie_be.Domain.Enums.{is_active}
use emoselfie_be.Domain.Keys.{Payload}
use emoselfie_be.Domain.Store.{put_member}
use emoselfie_be.Domain.Scoring.{RoundSubmission, ScoredSubmission}
use emoselfie_be.Domain.Scoring.Totals.{accumulate}
use emoselfie_be.Domain.Settlement.{
  Ledger, credit, is_active_id, settle_row, settle_points, settle_one, settle_all,
}

-- The result of a credit: the same member with the points added and the better score kept.
abbrev pub IsCredited : Participant → ScoredSubmission → Participant → Type 0
IsCredited m r m' =
    (m' ≡ record m {
      total_points = m.total_points + r.rank_points;
      best_round_score = max m.best_round_score (or_else r.target_score 0);
    })

pub credit-IsCredited :
    (m : Participant) (r : ScoredSubmission) {m' : Participant}
    → credit m r ≡ ok m'
    → IsCredited m r m'
unfolding credit accumulate
credit-IsCredited m r h = ground arith

pub credit-ok :
    (m : Participant) (r : ScoredSubmission)
    → m.id ≡ r.participant_id
    → m.best_round_score ≤ 1000
    → or_else r.target_score 0 ≤ 1000
    → (m' : Participant) × (credit m r ≡ ok m')
unfolding credit accumulate
credit-ok m r same best score = (
  record m {
    total_points = m.total_points + r.rank_points;
    best_round_score = max m.best_round_score (or_else r.target_score 0);
  },
  ground arith,
)

pub find_active_self :
    (i : ℕ) (ms : List Participant) (m : Participant)
    → find (is_active_id i) ms ≡ some m
    → (m.id ≡ i) × (is_active m.status ≡ true)
find_active_self i [] m h = cc
find_active_self i (x ∷ xs) m h = ground (arith, find_active_self i xs m)

pub find-put_member_self :
    (m' : Participant) (ms : List Participant)
    → is_active m'.status ≡ true
    → is_some (find (is_active_id m'.id) ms) ≡ true
    → find (is_active_id m'.id) (put_member m' ms) ≡ some m'
find-put_member_self m' [] act h = cc
find-put_member_self m' (x ∷ xs) act h = ground (arith, find-put_member_self m' xs act)

find-put_member_ne :
    (i : ℕ) (m' : Participant) (ms : List Participant)
    → (i == m'.id) ≡ false
    → find (is_active_id i) (put_member m' ms) ≡ find (is_active_id i) ms
find-put_member_ne i m' [] ne = refl
find-put_member_ne i m' (x ∷ xs) ne = ground (arith, find-put_member_ne i m' xs ne)

-- the points of an active member
abbrev pub points_at : ℕ → List Participant → ℕ
points_at i ms = elim (find (is_active_id i) ms) [ none ↦ 0 | some m ↦ m.total_points ]

abbrev pub is_active_in : ℕ → List Participant → Bool
is_active_in i ms = is_some (find (is_active_id i) ms)

-- the points that a list of results gives to a participant
abbrev pub earned : ℕ → List ScoredSubmission → ℕ
earned i [] = 0
earned i (r ∷ rs) = (if i == r.participant_id then r.rank_points else 0) + earned i rs

pub settle_row-members :
    (round_id : ℕ) (d : List (ℕ × Payload)) (ss : List RoundSubmission) (r : ScoredSubmission)
    (g : Ledger)
    → (settle_row round_id d ss r g).members ≡ g.members
unfolding settle_row
settle_row-members round_id d ss r g = ground arith

-- One credited result adds its points to its participant and to nobody else.
abbrev pub StepsTo : ℕ → Bool → ScoredSubmission → Ledger → Ledger → Type 0
StepsTo i is_void r g g' =
    (is_active_in i g'.members ≡ is_active_in i g.members)
    × (is_active_in i g.members ≡ true
        → points_at i g'.members
          ≡ points_at i g.members
            + (if is_void then 0 else if i == r.participant_id then r.rank_points else 0))

credited-StepsTo :
    (i : ℕ) (r : ScoredSubmission) (m m' : Participant) (g g' : Ledger)
    → find (is_active_id r.participant_id) g.members ≡ some m
    → IsCredited m r m'
    → g'.members ≡ put_member m' g.members
    → StepsTo i false r g g'
credited-StepsTo i r m m' g g' found c e =
    let (same, act) = find_active_self r.participant_id g.members m found in
    elim (Bool-cases (i == m'.id)) [
      | inl here ↦ ground (arith, find-put_member_self m' g.members)
      | inr other ↦ ground (arith, find-put_member_ne i m' g.members other)
    ]

settle_points-StepsTo :
    (i : ℕ) (is_void : Bool) (r : ScoredSubmission) (m : Participant) (g : Ledger) {g' : Ledger}
    → find (is_active_id r.participant_id) g.members ≡ some m
    → settle_points is_void r m g ≡ ok g'
    → StepsTo i is_void r g g'
unfolding settle_points
settle_points-StepsTo i true r m g found h = ground arith
settle_points-StepsTo i false r m g {g' = g'} found h =
    let (m', c, e) = >>=-eq-ok (credit m r) _ h in
    credited-StepsTo i r m m' g g' found (credit-IsCredited m r c) (ground arith)

absent_here :
    (i j : ℕ) (ms : List Participant)
    → i ≡ j
    → find (is_active_id j) ms ≡ none
    → find (is_active_id i) ms ≡ none
absent_here i j ms e h = rw e h

module _ (round_id : ℕ) (d : List (ℕ × Payload)) (ss : List RoundSubmission) (is_void : Bool) where
  pub settle_one-StepsTo :
      (i : ℕ) (r : ScoredSubmission) (g g' : Ledger)
      → settle_one round_id d ss is_void r g ≡ ok g'
      → StepsTo i is_void r g g'
  unfolding settle_one
  settle_one-StepsTo i r g g' h =
      elim (Option-cases (find (is_active_id r.participant_id) g.members)) [
        | inl absent ↦ elim (Bool-cases (i == r.participant_id)) [
          | inl here ↦
              let gone = absent_here i r.participant_id g.members ((==_iff _ _).0 here) absent in
              ground arith
          | inr other ↦ ground arith
        ]
        | inr (m, found) ↦
            let step =
              settle_points-StepsTo i is_void r m (settle_row round_id d ss r g) {g' = g'}
                (rw (settle_row-members round_id d ss r g) found) (ground arith) in
            rw (settle_row-members round_id d ss r g) at step
      ]

  -- Settling a list of results credits every active member with the sum of its points.
  pub settle_all-credits :
      (i : ℕ) (rs : List ScoredSubmission) (g g' : Ledger)
      → settle_all round_id d ss is_void rs g ≡ ok g'
      → is_active_in i g.members ≡ true
      → points_at i g'.members ≡ points_at i g.members + (if is_void then 0 else earned i rs)
  unfolding settle_all
  settle_all-credits i [] g g' h act = ground arith
  settle_all-credits i (r ∷ rs) g g' h act =
      let (g₁, one, rest) = >>=-eq-ok (settle_one round_id d ss is_void r g) _ h in
      let step = settle_one-StepsTo i r g g₁ one in
      let ih = settle_all-credits i rs g₁ g' rest (step.0 ∙ act) in
      let first = step.1 act in ground arith
