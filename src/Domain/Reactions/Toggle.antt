-- ===== src/Domain/Reactions/Toggle.antt =====
-- `toggle` and `toggle_skip` of app/domain/reaction/service.py: the counters follow the markers.
use emoselfie_be.Prelude.{
  ℕ, suc, ◌≡◌, refl, ◌∙◌, Bool, true, false, ◌&&◌, List, [], ◌∷◌, arith, ◌==◌, if◌then◌else◌,
  or_else, Bool-cases, inl, inr,
}
use emoselfie_be.Prelude.Dict.{lookup, insert, lookup-insert}
use emoselfie_be.Domain.Enums.{ReactionType, like, question}
use emoselfie_be.Domain.Keys.{Marker, RoundKeys}
use emoselfie_be.Domain.Reactions.{
  kind_code, same_marker, has_marker, remove_marker, counter, put_counter, toggle_reaction,
}

abbrev pub marker : ℕ → ℕ → ReactionType → Marker
marker s a kind = record { submission_id = s; actor_id = a; kind = kind }

abbrev is_about : ℕ → ReactionType → Marker → Bool
is_about s kind m = (m.submission_id == s) && (kind_code m.kind == kind_code kind)

-- How many actors have given this reaction to the submission.
abbrev pub tally : ℕ → ReactionType → List Marker → ℕ
tally s kind [] = 0
tally s kind (m ∷ ms) = if is_about s kind m then suc (tally s kind ms) else tally s kind ms

abbrev pub IsOnce : List Marker → Type 0
IsOnce [] = Unit
IsOnce (m ∷ ms) = (has_marker m ms ≡ false) × IsOnce ms

-- Each actor's marker stands once, and each counter is the number of markers.
abbrev pub IsCounted : RoundKeys → Type 0
IsCounted k =
    IsOnce k.actors
    × ((s : ℕ) (kind : ReactionType)
        → or_else (lookup s (counter kind k)) 0 ≡ tally s kind k.actors)

has_marker-same :
    (a b : Marker) (ms : List Marker) → same_marker a b ≡ true → has_marker a ms ≡ has_marker b ms
has_marker-same a b [] h = refl
has_marker-same a b (m ∷ ms) h = ground (arith, has_marker-same a b ms h)

has_marker-remove :
    (a b : Marker) (ms : List Marker)
    → has_marker a ms ≡ false
    → has_marker a (remove_marker b ms) ≡ false
has_marker-remove a b [] h = refl
has_marker-remove a b (m ∷ ms) h = ground (arith, has_marker-remove a b ms)

remove_marker-IsOnce : (a : Marker) (ms : List Marker) → IsOnce ms → IsOnce (remove_marker a ms)
remove_marker-IsOnce a [] h = tt
remove_marker-IsOnce a (m ∷ ms) h = elim (Bool-cases (same_marker a m)) [
  | inl e ↦ rw e (remove_marker-IsOnce a ms h.1)
  | inr e ↦ rw e (has_marker-remove m a ms h.0, remove_marker-IsOnce a ms h.1)
]

remove_absent : (a : Marker) (ms : List Marker) → has_marker a ms ≡ false → remove_marker a ms ≡ ms
remove_absent a [] h = refl
remove_absent a (m ∷ ms) h = ground (arith, remove_absent a ms)

tally-remove :
    (s : ℕ) (kind : ReactionType) (a : Marker) (ms : List Marker)
    → IsOnce ms
    → has_marker a ms ≡ true
    → tally s kind ms ≡ (
        if is_about s kind a
        then suc (tally s kind (remove_marker a ms))
        else tally s kind (remove_marker a ms))
tally-remove s kind a [] h k = absurd (ground arith)
tally-remove s kind a (m ∷ ms) h k = elim (Bool-cases (same_marker a m)) [
  | inl e ↦ let same = has_marker-same a m ms e in let gone = remove_absent a ms in ground arith
  | inr e ↦ ground (arith, tally-remove s kind a ms h.1)
]

about-kind :
    (s t : ℕ) (a : ℕ) (kind other : ReactionType)
    → is_about s kind (marker t a other) ≡ ((t == s) && (kind_code other == kind_code kind))
about-kind s t a kind other = refl

counter-put :
    (kind other : ReactionType) (k : RoundKeys) (ms : List Marker) (s t : ℕ) (n : ℕ)
    → or_else
        (lookup t (
          counter other
            (put_counter kind (insert s n (counter kind k)) (record k { actors = ms }))))
        0
      ≡ (if (s == t) && (kind_code kind == kind_code other)
          then n
          else or_else (lookup t (counter other k)) 0)
counter-put like like k ms s t n = ground (arith, lookup-insert t s n k.likes)
counter-put like question k ms s t n = ground arith
counter-put question like k ms s t n = ground arith
counter-put question question k ms s t n = ground (arith, lookup-insert t s n k.questions)

abbrev pub is_same : ℕ → ReactionType → ℕ → ReactionType → Bool
is_same s kind t other = (s == t) && (kind_code kind == kind_code other)

tally-same :
    (s t : ℕ) (kind other : ReactionType) (ms : List Marker)
    → is_same s kind t other ≡ true
    → tally s kind ms ≡ tally t other ms
tally-same s t kind other [] h = refl
tally-same s t kind other (m ∷ ms) h = ground (arith, tally-same s t kind other ms)

put-IsCounted :
    (kind : ReactionType) (k : RoundKeys) (ms : List Marker) (s n : ℕ)
    → IsOnce ms
    → ((t : ℕ) (other : ReactionType)
        → (if is_same s kind t other then n else or_else (lookup t (counter other k)) 0)
          ≡ tally t other ms)
    → IsCounted (put_counter kind (insert s n (counter kind k)) (record k { actors = ms }))
put-IsCounted like k ms s n once h =
    (once, λ t other. counter-put like other k ms s t n ∙ h t other)
put-IsCounted question k ms s n once h =
    (once, λ t other. counter-put question other k ms s t n ∙ h t other)

-- Toggling a reaction keeps every marker single, and each counter equal to the number of actors whose
-- marker stands.
pub toggle_reaction-IsCounted :
    (k : RoundKeys) (s a : ℕ) (kind : ReactionType)
    → IsCounted k
    → IsCounted (toggle_reaction k s a kind).1
unfolding toggle_reaction
toggle_reaction-IsCounted k s a kind h = elim (Bool-cases (has_marker (marker s a kind) k.actors)) [
  | inl y ↦ rw y (
      put-IsCounted kind k (remove_marker (marker s a kind) k.actors) s _
        (remove_marker-IsOnce (marker s a kind) k.actors h.0)
        (λ t other.
          let c = h.1 s kind in
          let d = h.1 t other in
          let e = tally-same s t kind other k.actors in
          let r = tally-remove t other (marker s a kind) k.actors h.0 y in ground arith))
  | inr n ↦ rw n (
      put-IsCounted kind k (marker s a kind ∷ k.actors) s _ (n, h.0)
        (λ t other.
          let c = h.1 s kind in
          let d = h.1 t other in let e = tally-same s t kind other k.actors in ground arith))
]
