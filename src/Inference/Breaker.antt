-- ===== src/Inference/Breaker.antt =====
-- `CircuitBreaker`: when it opens, and for how long.
use emoselfie_be.Prelude.{
  ℕ, ◌+◌, ◌≤◌, ◌≡◌, refl, Bool, true, false, ◌&&◌, List, [], ◌∷◌, arith, leb, ◌==◌, ==_iff,
  if◌then◌else◌, length, length-append, Bool-cases, inl, inr,
}
use emoselfie_be.Inference.{
  CircuitBreaker, maxlen, is_open, push, failures, renewed, conclude, record_outcome,
}

-- No more than twenty outcomes are kept, and a breaker that waits to open has not opened.
abbrev pub IsBounded : CircuitBreaker → Type 0
IsBounded b = length b.history ≤ maxlen

push-length :
    (history : List Bool) (s : Bool) → length history ≤ maxlen → length (push history s) ≤ maxlen
unfolding push
push-length [] s h = omega arith
push-length (x ∷ xs) s h = elim (Bool-cases (leb maxlen (length (x ∷ xs)))) [
  | inl y ↦ rw (y, length-append xs (s ∷ [])) (omega arith)
  | inr n ↦ rw (n, length-append (x ∷ xs) (s ∷ [])) (ground arith)
]

renewed-IsBounded : (b : CircuitBreaker) → IsBounded b → IsBounded (renewed b)
unfolding renewed
renewed-IsBounded b h = elim (Bool-cases (b.open_until == 0)) [
  | inl y ↦ rw y h
  | inr n ↦ rw n (omega arith)
]

renewed-shut :
    (b : CircuitBreaker) → ((renewed b).open_until ≡ 0) × ((renewed b).cooldown ≡ b.cooldown)
unfolding renewed
renewed-shut b = elim (Bool-cases (b.open_until == 0)) [
  | inl y ↦ rw y ((==_iff b.open_until 0).0 y, refl)
  | inr n ↦ rw n (refl, refl)
]

-- What opening takes, for the breaker `b` that an outcome made of one with this cooldown.
abbrev pub IsOpened : CircuitBreaker → ℕ → ℕ → Type 0
IsOpened b cooldown now =
    (length b.history ≡ maxlen) × (16 ≤ failures b.history) × (b.open_until ≡ now + cooldown)

conclude-IsBounded :
    (b : CircuitBreaker) (history : List Bool) (now : ℕ)
    → length history ≤ maxlen
    → IsBounded (conclude b history now)
unfolding conclude
conclude-IsBounded b history now h =
    elim (Bool-cases ((length history == maxlen) && leb 16 (failures history))) [
      | inl y ↦ rw (conclude, y) h
      | inr n ↦ rw (conclude, n) h
    ]

conclude-IsOpened :
    (b : CircuitBreaker) (history : List Bool) (cooldown now : ℕ)
    → b.open_until ≡ 0
    → b.cooldown ≡ cooldown
    → is_open (conclude b history now) now ≡ true
    → IsOpened (conclude b history now) cooldown now
unfolding conclude is_open
conclude-IsOpened b history cooldown now shut same o =
    by_test ((length history == maxlen) && leb 16 (failures history)) refl o
  where
    by_test :
        (t : Bool)
        → ((length history == maxlen) && leb 16 (failures history)) ≡ t
        → is_open
            (if t
              then record b { history = history; open_until = now + b.cooldown }
              else record b { history = history })
            now
          ≡ true
        → IsOpened
            (if t
              then record b { history = history; open_until = now + b.cooldown }
              else record b { history = history })
            cooldown
            now
    by_test true e k = (ground arith, ground arith, ground arith)
    by_test false e k = absurd (ground arith)

record_outcome-conclude :
    (b : CircuitBreaker) (success : Bool) (now : ℕ)
    → record_outcome b success now
      ≡ (if is_open b now then b else conclude (renewed b) (push (renewed b).history success) now)
unfolding record_outcome
record_outcome-conclude b success now = refl

-- A breaker of at most twenty outcomes keeps no more, and while it is open, outcomes change nothing. The
-- outcome that opens it is the last of twenty, of which at least sixteen failed, and it stays open
-- for its cooldown.
pub record_outcome_lem :
    (b : CircuitBreaker) (success : Bool) (now : ℕ)
    → IsBounded b
    → IsBounded (record_outcome b success now)
      × (is_open b now ≡ true → record_outcome b success now ≡ b)
      × (is_open b now ≡ false
          → is_open (record_outcome b success now) now ≡ true
          → IsOpened (record_outcome b success now) b.cooldown now)
record_outcome_lem b success now h = by_open (is_open b now) refl
  where
    next : CircuitBreaker
    next = conclude (renewed b) (push (renewed b).history success) now

    bounded : IsBounded next
    bounded =
        conclude-IsBounded (renewed b) (push (renewed b).history success) now
          (push-length (renewed b).history success (renewed-IsBounded b h))

    by_open :
        (t : Bool)
        → is_open b now ≡ t
        → IsBounded (record_outcome b success now)
          × (is_open b now ≡ true → record_outcome b success now ≡ b)
          × (is_open b now ≡ false
              → is_open (record_outcome b success now) now ≡ true
              → IsOpened (record_outcome b success now) b.cooldown now)
    by_open true e =
        rw (record_outcome-conclude b success now, e) (h, (λ o. refl), (λ o. absurd cc))
    by_open false e =
        rw (record_outcome-conclude b success now, e)
          (
            bounded,
            (λ o. absurd cc),
            (λ _ o.
                conclude-IsOpened (renewed b) (push (renewed b).history success) b.cooldown now
                  (renewed-shut b).0 (renewed-shut b).1 o),
          )
