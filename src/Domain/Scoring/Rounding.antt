-- ===== src/Domain/Scoring/Rounding.antt =====
-- Half-up rounding (`round_half_up`) and `target_score`.
use native.Mathlib.Nat.{
  div-mul-le_self, lt-div-mul-add, le-div_iff_mul-le, div-lt_iff_lt-mul, one-le-pow,
}
use emoselfie_be.Prelude.{
  ℕ, ◌+◌, ◌*◌, ◌^◌, ◌≤◌, ◌<◌, ◌≡◌, refl, true, false, arith, leb, pos, negsuc, Bool-cases, inl, inr,
}
use emoselfie_be.Core.Errors.{Result, ok, err, value_error}
use emoselfie_be.Domain.Scoring.{round_half_up, Float, not_finite, decimal, target_score}

pub pow_ten_pos : (k : ℕ) → 0 < 10 ^ k
pow_ten_pos k = one-le-pow k 10 (omega arith)

-- The rounded value is within half a step of the exact one, and a tie goes up.
pub round_half_up_bounds :
    (n d : ℕ)
    → 0 < d
    → (2 * (round_half_up n d * d) ≤ 2 * n + d) × (2 * n < 2 * (round_half_up n d * d) + d)
unfolding round_half_up
round_half_up_bounds n d h =
    let low = div-mul-le_self (2 * n + d) (2 * d) in
    let high = lt-div-mul-add {a = 2 * n + d} {b = 2 * d} (omega arith) in
    (omega arith, omega arith)

-- The mean of values between two whole bounds rounds to a value between them.
pub round_half_up_between :
    (lo hi n d : ℕ)
    → 0 < d
    → lo * d ≤ n
    → n ≤ hi * d
    → (lo ≤ round_half_up n d) × (round_half_up n d ≤ hi)
unfolding round_half_up
round_half_up_between lo hi n d h low high = (
  (le-div_iff_mul-le (omega arith)).1 (omega arith),
  let h' =
        (div-lt_iff_lt-mul {k = 2 * d} {x = 2 * n + d} {y = hi + 1} (omega arith)).1
          (omega arith) in
      omega arith,
)

leb→le : (a b : ℕ) → leb a b ≡ true → a ≤ b
leb→le a b h = ground arith

not_leb : (a b : ℕ) → leb a b ≡ false → b < a
not_leb a b h = ground arith

-- What a probability has to be: a finite number from 0 to 1.
abbrev pub IsProbability : Float → Type 0
IsProbability not_finite = ⊥
IsProbability (decimal (negsuc _) _) = ⊥
IsProbability (decimal (pos n) k) = n ≤ 10 ^ k

-- `t` tenths are the number nearest to 1000 times the probability, the upper one at a tie.
abbrev pub IsNearest : Float → ℕ → Type 0
IsNearest (decimal (pos n) k) t =
    (2 * (t * 10 ^ k) ≤ 2 * (n * 1000) + 10 ^ k)
    × (2 * (n * 1000) < 2 * (t * 10 ^ k) + 10 ^ k)
    × (t ≤ 1000)
IsNearest _ t = ⊥

abbrev pub Scores : Float → Result ℕ → Type 0
Scores f (ok t) = IsProbability f × IsNearest f t
Scores f (err e) = (e ≡ value_error) × (¬ IsProbability f)

-- A probability scores its nearest tenth of a percent, from 0.0 to 100.0, and a tie goes up; any
-- other float is refused with a `ValueError`.
pub target_score-Scores : (f : Float) → Scores f (target_score f)
unfolding target_score
target_score-Scores not_finite = (refl, λ h. h)
target_score-Scores (decimal (negsuc _) k) = (refl, λ h. h)
target_score-Scores (decimal (pos n) k) = elim (Bool-cases (leb n (10 ^ k))) [
  | inl small ↦ rw small (
    leb→le n (10 ^ k) small,
    (
      (round_half_up_bounds (n * 1000) (10 ^ k) (pow_ten_pos k)).0,
      (round_half_up_bounds (n * 1000) (10 ^ k) (pow_ten_pos k)).1,
      let le = leb→le n (10 ^ k) small in
          (round_half_up_between 0 1000 (n * 1000) (10 ^ k) (pow_ten_pos k) (omega arith)
            (omega arith)).1,
    ),
  )
  | inr large ↦ rw large (refl, λ le. let no_le = not_leb n (10 ^ k) large in omega arith)
]
