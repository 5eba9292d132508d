-- ===== src/Domain/Inflight/Reading.antt =====
-- `read_submissions`: what the keys of a round and its active members give to the scoring.
use mathlib.Core.List.{map-append}
use emoselfie_be.Prelude.{
  ℕ, ◌≤◌, ◌≡◌, refl, sym, ap, ◌∙◌, true, false, not, ◌||◌, ◌&&◌, Option, none, some, List, [], ◌∷◌,
  ◌++◌, map, arith, ◌==◌, if◌then◌else◌, is_some, or_else, keep, All, Bool-cases, inl, inr, ==_iff,
}
use emoselfie_be.Prelude.Sets.{has, IsDistinct}
use emoselfie_be.Prelude.Dict.{Dict, lookup, keys, has_key, has-keys}
use emoselfie_be.Prelude.Every.{All-append, All-map, All-keep}
use emoselfie_be.Core.Errors.{ok}
use emoselfie_be.Db.{Participant}
use emoselfie_be.Domain.Enums.{is_missed, is_submitted}
use emoselfie_be.Domain.Keys.{Payload, failed_payload, RoundKeys}
use emoselfie_be.Domain.Scoring.{RoundSubmission, ids, submission_check}
use emoselfie_be.Domain.Scoring.Ranking.{IsValid}
use emoselfie_be.Domain.Inflight.{
  submission_of, read_one, read_received_submissions, missed_submission, read_submissions,
}
use emoselfie_be.Domain.Inflight.Acceptance.{IsCoherent}

-- What `_score` records: no miss, a score from 0.0 to 100.0, and one where the status says so.
abbrev pub IsPayload : Payload → Type 0
IsPayload p =
    (is_missed p.status ≡ false)
    × (is_submitted p.status ≡ true → is_some p.target_score ≡ true)
    × (or_else p.target_score 0 ≤ 1000)

abbrev pub IsPayloadAt : Option Payload → Type 0
IsPayloadAt none = Unit
IsPayloadAt (some p) = IsPayload p

abbrev pub member_ids : List Participant → List ℕ
member_ids = map (λ m. m.id)

pub or_failed-IsPayload :
    (o : Option Payload) → IsPayloadAt o → IsPayload (or_else o failed_payload)
or_failed-IsPayload none h = (refl, (λ e. cc), omega arith)
or_failed-IsPayload (some p) h = h

submission_of-IsValid :
    (scored : Dict Payload) (q t : ℕ)
    → IsPayloadAt (lookup q scored)
    → IsValid (submission_of scored (q, t))
unfolding submission_of submission_check
submission_of-IsValid scored q t h =
    check (or_else (lookup q scored) failed_payload) (or_failed-IsPayload (lookup q scored) h)
  where
    check :
        (p : Payload)
        → IsPayload p
        → IsValid (record {
          participant_id = q;
          status = p.status;
          received_at_ms = some t;
          target_score = if is_submitted p.status then p.target_score else none;
        })
    check p (a, b, c) = ground (arith, b)

read_one_lem :
    (scored : Dict Payload) (q t : ℕ)
    → IsPayloadAt (lookup q scored)
    → read_one scored (q, t) ≡ ok (submission_of scored (q, t))
unfolding read_one
read_one_lem scored q t h = rw (submission_of-IsValid scored q t h)

module _ (scored : Dict Payload) (good : (q : ℕ) → IsPayloadAt (lookup q scored)) where
  read_received_submissions_lem :
      (es : List (ℕ × ℕ)) → read_received_submissions scored es ≡ ok (map (submission_of scored) es)
  unfolding read_received_submissions
  read_received_submissions_lem [] = refl
  read_received_submissions_lem ((q, t) ∷ es) =
      rw (read_one_lem scored q t (good q), read_received_submissions_lem es)

  received-IsValid : (es : List (ℕ × ℕ)) → All IsValid (map (submission_of scored) es)
  received-IsValid [] = tt
  received-IsValid ((q, t) ∷ es) = (submission_of-IsValid scored q t (good q), received-IsValid es)

ids-received :
    (scored : Dict Payload) (es : List (ℕ × ℕ)) → ids (map (submission_of scored) es) ≡ keys es
unfolding submission_of
ids-received scored [] = refl
ids-received scored ((q, t) ∷ es) = ap (◌∷◌ q) (ids-received scored es)

missing : RoundKeys → List Participant → List Participant
missing k active = keep (λ m. not (has m.id (keys k.submitted))) active

missed-IsValid : (ms : List Participant) → All IsValid (map missed_submission ms)
unfolding missed_submission submission_check
missed-IsValid [] = tt
missed-IsValid (m ∷ ms) = (refl, missed-IsValid ms)

ids-missed : (ms : List Participant) → ids (map missed_submission ms) ≡ member_ids ms
unfolding missed_submission
ids-missed [] = refl
ids-missed (m ∷ ms) = ap (◌∷◌ m.id) (ids-missed ms)

has-append : (q : ℕ) (xs ys : List ℕ) → has q (xs ++ ys) ≡ (has q xs || has q ys)
has-append q [] ys = refl
has-append q (x ∷ xs) ys = ground (arith, has-append q xs ys)

has-missing :
    (q : ℕ) (k : RoundKeys) (active : List Participant)
    → has q (member_ids (missing k active))
      ≡ (not (has q (keys k.submitted)) && has q (member_ids active))
unfolding missing
has-missing q k [] = ground arith
has-missing q k (m ∷ ms) = elim (Bool-cases (q == m.id)) [
  | inl e ↦ rw (← (==_iff q m.id).0 e) (ground (arith, has-missing q k ms))
  | inr e ↦ ground (arith, has-missing q k ms)
]

missing-IsDistinct :
    (k : RoundKeys) (active : List Participant)
    → IsDistinct (member_ids active)
    → IsDistinct (member_ids (missing k active))
unfolding missing
missing-IsDistinct k [] d = tt
missing-IsDistinct k (m ∷ ms) d = ground (arith, missing-IsDistinct k ms d.1, has-missing m.id k ms)

append-IsDistinct :
    (xs ys : List ℕ)
    → IsDistinct xs
    → IsDistinct ys
    → ((q : ℕ) → has q xs ≡ true → has q ys ≡ false)
    → IsDistinct (xs ++ ys)
append-IsDistinct [] ys dx dy apart = dy
append-IsDistinct (x ∷ xs) ys dx dy apart = (
  ground (arith, has-append x xs ys, apart x),
  append-IsDistinct xs ys dx.1 dy (λ q h. apart q (ground arith)),
)

-- What reading a round yields: submissions that the scoring accepts, one for each participant who
-- submitted or is active, nobody else's, and a miss exactly for those who did not submit.
abbrev pub IsReading : RoundKeys → List Participant → List RoundSubmission → Type 0
IsReading k active ss =
    All IsValid ss
    × IsDistinct (ids ss)
    × ((q : ℕ) → has q (ids ss) ≡ (has_key q k.submitted || has q (member_ids active)))
    × All (λ s. is_missed s.status ≡ not (has_key s.participant_id k.submitted)) ss

abbrev IsSortedOut : RoundKeys → RoundSubmission → Type 0
IsSortedOut k s = is_missed s.status ≡ not (has_key s.participant_id k.submitted)

received_status :
    (k : RoundKeys) (es : List (ℕ × ℕ))
    → ((q : ℕ) → IsPayloadAt (lookup q k.scores))
    → ((q : ℕ) → has q (keys es) ≡ true → has_key q k.submitted ≡ true)
    → All (IsSortedOut k) (map (submission_of k.scores) es)
unfolding submission_of
received_status k [] good inside = tt
received_status k ((q, t) ∷ es) good inside = (
  rw (inside q (ground arith)) (or_failed-IsPayload (lookup q k.scores) (good q)).0,
  received_status k es good (λ p h. inside p (ground arith)),
)

missed_status :
    (k : RoundKeys) (active : List Participant)
    → All (IsSortedOut k) (map missed_submission (missing k active))
unfolding missing missed_submission
missed_status k active =
    All-map (λ m. not (has m.id (keys k.submitted)) ≡ true) (IsSortedOut k) missed_submission
      (missing k active) (λ m h. ground (arith, has-keys m.id k.submitted))
      (All-keep (λ m. not (has m.id (keys k.submitted))) active)

module _ (k : RoundKeys) (active : List Participant) (c : IsCoherent k)
    (good : (q : ℕ) → IsPayloadAt (lookup q k.scores)) (once : IsDistinct (member_ids active)) where
  -- Reading coherent keys, with scores as they are recorded and active members of different ids,
  -- raises nothing. It gives valid submissions, one for each participant who is active or has
  -- submitted, and a miss exactly for those who have not submitted.
  pub read_submissions-IsReading :
      (ss : List RoundSubmission) × (read_submissions k active ≡ ok ss) × IsReading k active ss
  unfolding read_submissions missing
  read_submissions-IsReading = (
    map (submission_of k.scores) k.submitted ++ map missed_submission (missing k active),
    rw (read_received_submissions_lem k.scores good k.submitted),
    (
      All-append IsValid (map (submission_of k.scores) k.submitted) _
          (received-IsValid k.scores good k.submitted) (missed-IsValid (missing k active)),
      rw ids_lem (
          append-IsDistinct (keys k.submitted) (member_ids (missing k active)) c.submitted_once
            (missing-IsDistinct k active once) (λ q h. ground (arith, has-missing q k active))),
      λ q. rw ids_lem (
          ground (
            arith,
            has-append q (keys k.submitted) (member_ids (missing k active)),
            has-missing q k active,
            has-keys q k.submitted,
          )),
      All-append (IsSortedOut k) (map (submission_of k.scores) k.submitted) _
          (received_status k k.submitted good (λ q h. sym (has-keys q k.submitted) ∙ h))
          (missed_status k active),
    ),
  )
    where
      ids_lem :
          ids (map (submission_of k.scores) k.submitted ++ map missed_submission (missing k active))
          ≡ keys k.submitted ++ member_ids (missing k active)
      ids_lem = rw (map-append, ids-received k.scores k.submitted, ids-missed (missing k active))
