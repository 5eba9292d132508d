-- ===== src/Realtime/Reacting.antt =====
-- `react` of app/realtime/server.py: who may react to what, and what the viewers are told.
use emoselfie_be.Prelude.{
  ℕ, ◌≡◌, refl, sym, Bool, true, false, not, ◌&&◌, Option, none, some, List, ◌==◌, ==_refl, all,
}
use emoselfie_be.Prelude.Sets.{has, IsDistinct}
use emoselfie_be.Prelude.Dict.{keys, has_key, lookup, lookup-insert, insert-IsDistinct}
use emoselfie_be.Core.Errors.{
  ok, app, >>=-eq-ok, >>-eq-ok, or_error-eq-ok, ok_inj, ok-pair_inj, not_a_participant,
  invalid_request, not_a_viewer, reaction_closed, not_scored_yet, self_reaction,
}
use emoselfie_be.Db.{Round, Submission}
use emoselfie_be.Domain.Enums.{ReactionType, like, question}
use emoselfie_be.Domain.Keys.{RoundKeys}
use emoselfie_be.Domain.Store.{get_round}
use emoselfie_be.Domain.Reactions.{toggle_reaction, count_for}
use emoselfie_be.Domain.Reactions.Toggle.{IsCounted, tally, toggle_reaction-IsCounted}
use emoselfie_be.Domain.Reactions.Counts.{count_for-tally}
use emoselfie_be.Domain.Lifecycle.{World, keys_of}
use emoselfie_be.Realtime.{Context, Sockets}
use emoselfie_be.Realtime.Emitter.{Message, Channel, reaction_updated}
use emoselfie_be.Realtime.Recipients.{send_viewers-all}
use emoselfie_be.Realtime.Actions.{
  Update, get_submission, is_shut, may_react, update, put_keys, react, reacted, tell_update,
}

not-true : (b : Bool) → not b ≡ true → b ≡ false
not-true true h = absurd cc
not-true false h = refl

-- What `react` has checked.
abbrev pub IsPermitted :
    Sockets
    → World
    → ℕ
    → Option (ℕ × ReactionType)
    → Context × ReactionType × Submission × Round
    → Type 0
IsPermitted k w sid request (c, kind, target, current) =
    (lookup sid k.contexts ≡ some c)
    × ((submission_id : ℕ) × (request ≡ some (submission_id, kind))
        × (get_submission submission_id w.store ≡ some target))
    × (get_round target.round_id w.store ≡ some current)
    × (has c.participant_id (keys_of current.id w).viewers ≡ true)
    × (is_shut current.status ≡ false)
    × (has_key target.participant_id (keys_of current.id w).scores ≡ true)
    × ((target.participant_id == c.participant_id) ≡ false)

may_react-ok :
    (k : Sockets) (w : World) (sid : ℕ) (request : Option (ℕ × ReactionType))
    (p : Context × ReactionType × Submission × Round)
    → may_react k w sid request ≡ ok p
    → IsPermitted k w sid request p
unfolding may_react
may_react-ok k w sid request p h =
    let (c, e₁, h₁) = or_error-eq-ok (lookup sid k.contexts) (app not_a_participant) _ h in
    let (sk, e₂, h₂) = or_error-eq-ok request (app invalid_request) _ h₁ in
    let (target, e₃, h₃) = or_error-eq-ok (get_submission sk.0 w.store) (app not_a_viewer) _ h₂ in
    let (current, e₄, h₄) =
      or_error-eq-ok (get_round target.round_id w.store) (app not_a_viewer) _ h₃ in
    let (e₅, h₅) =
      >>-eq-ok (has c.participant_id (keys_of current.id w).viewers) (app not_a_viewer) _ h₄ in
    let (e₆, h₆) = >>-eq-ok (not (is_shut current.status)) (app reaction_closed) _ h₅ in
    let (e₇, h₇) =
      >>-eq-ok (has_key target.participant_id (keys_of current.id w).scores) (app not_scored_yet) _
        h₆ in
    let (e₈, h₈) =
      >>-eq-ok (not (target.participant_id == c.participant_id)) (app self_reaction) _ h₇ in
    rw (← ok_inj (c, sk.1, target, current) p h₈)
      (e₁, (sk.0, e₂, e₃), e₄, e₅, not-true _ e₆, e₇, not-true _ e₈)

-- A reaction that is accepted comes from a viewer of the round, who is not the owner of the submission;
-- the submission is scored, and the round is not closed or voided. It changes the round's keys by one
-- toggle, and nothing else.
pub react-IsPermitted :
    (k : Sockets) (w w' : World) (sid : ℕ) (request : Option (ℕ × ReactionType))
    (sent : List (Message Update))
    → react k w sid request ≡ ok (sent, w')
    → (p : Context × ReactionType × Submission × Round) × IsPermitted k w sid request p
      × (w'
          ≡ put_keys p.3.id (toggle_reaction (keys_of p.3.id w) p.2.id p.0.participant_id p.1).1 w)
unfolding react reacted
react-IsPermitted k w w' sid request sent h =
    let (p, e, h₁) = >>=-eq-ok (may_react k w sid request) _ h in
    let (m, f, h₂) = >>=-eq-ok (tell_update k w p) _ h₁ in
    let (_, g) = ok-pair_inj h₂ in (p, may_react-ok k w sid request p e, sym g)

toggle-IsDistinct :
    (kind : ReactionType) (k : RoundKeys) (s a : ℕ)
    → IsDistinct (keys k.likes)
    → IsDistinct (keys k.questions)
    → IsDistinct (keys (toggle_reaction k s a kind).1.likes)
      × IsDistinct (keys (toggle_reaction k s a kind).1.questions)
unfolding toggle_reaction
toggle-IsDistinct like k s a dl dq = (insert-IsDistinct s _ k.likes dl, dq)
toggle-IsDistinct question k s a dl dq = (dl, insert-IsDistinct s _ k.questions dq)

-- Whether a message tells how many actors have given each reaction to its submission.
abbrev pub is_true_count : World → Message Update → Bool
is_true_count w x =
    (x.body.like == tally x.body.submission_id like (keys_of x.body.round_id w).actors)
    && (x.body.question == tally x.body.submission_id question (keys_of x.body.round_id w).actors)

-- Each round's counters agree with its markers, and name no submission twice.
abbrev pub AreCounted : World → Type 0
AreCounted w =
    (i : ℕ)
    → IsCounted (keys_of i w)
      × IsDistinct (keys (keys_of i w).likes)
      × IsDistinct (keys (keys_of i w).questions)

update-is_true :
    (w : World) (k : RoundKeys) (r s sid : ℕ)
    → count_for k s ≡ (tally s like k.actors, tally s question k.actors)
    → is_true_count
        (put_keys r k w)
        (record { event = reaction_updated; channel = Channel.socket sid; body = update k r s })
      ≡ true
unfolding update
update-is_true w k r s sid told =
    rw (told, lookup-insert r r k w.keys, ==_refl r)
      (rw (==_refl (tally s like k.actors), ==_refl (tally s question k.actors)) refl)

tell_update-counts :
    (k : Sockets) (w : World) (p : Context × ReactionType × Submission × Round)
    (m : List (Message Update))
    → AreCounted w
    → tell_update k w p ≡ ok m
    → all (is_true_count (put_keys p.3.id (reacted w p) w)) m ≡ true
unfolding tell_update update reacted
tell_update-counts k w p m counted f =
    let (a, dl, dq) = counted p.3.id in
    let k₀ = keys_of p.3.id w in
    let k₁ = (toggle_reaction k₀ p.2.id p.0.participant_id p.1).1 in
    let (dl', dq') = toggle-IsDistinct p.1 k₀ p.2.id p.0.participant_id dl dq in
    let told =
      count_for-tally k₁ p.2.id (toggle_reaction-IsCounted k₀ p.2.id p.0.participant_id p.1 a) dl'
        dq' in
    send_viewers-all k w.store.members k₁.viewers reaction_updated (λ _. update k₁ p.3.id p.2.id)
      none m (is_true_count (put_keys p.3.id k₁ w))
      (λ _ sid. update-is_true w k₁ p.3.id p.2.id sid told) f

-- After a reaction that is accepted, every message that is sent tells the numbers of actors whose likes
-- and questions of the submission stand then, where the counters of the rounds agreed with the markers
-- before.
pub react-counts :
    (k : Sockets) (w w' : World) (sid : ℕ) (request : Option (ℕ × ReactionType))
    (sent : List (Message Update))
    → AreCounted w
    → react k w sid request ≡ ok (sent, w')
    → all (is_true_count w') sent ≡ true
unfolding react
react-counts k w w' sid request sent counted h =
    let (p, e, h₁) = >>=-eq-ok (may_react k w sid request) _ h in
    let (m, f, h₂) = >>=-eq-ok (tell_update k w p) _ h₁ in
    let (same_sent, same) = ok-pair_inj h₂ in
    transfer m (put_keys p.3.id (reacted w p) w) (tell_update-counts k w p m counted f) same_sent
      same
  where
    transfer :
        (m : List (Message Update)) (v : World)
        → all (is_true_count v) m ≡ true
        → m ≡ sent
        → v ≡ w'
        → all (is_true_count w') sent ≡ true
    transfer m v t e f = rw (← e, ← f) t
