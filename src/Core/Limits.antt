-- ===== src/Core/Limits.antt =====
-- What the limits of app/core/ratelimit.py promise.
use native.Mathlib.Nat.{add-mul, mul-le-mul_right, lt-div-mul-add}
use emoselfie_be.Prelude.{
  ℕ, suc, ◌+◌, ◌-◌, ◌*◌, max, ◌≤◌, ◌<◌, ◌≡◌, refl, sym, ◌∙◌, ap, true, false, Option, some, List,
  [], ◌∷◌, arith, leb, ◌==◌, if◌then◌else◌, Bool-cases, inl, inr,
}
use emoselfie_be.Core.Ratelimit.{Bucket, ceil_div, stored, filled, take_token, bucket}

-- A call at each of the times, one after the other: how many are let through, and the bucket then.
unfoldable pub calls : Bucket → ℕ → ℕ → List ℕ → ℕ × Bucket
unfolding bucket
calls b capacity window [] = (0, b)
calls b capacity window (now ∷ times) =
    let (retry, b') = bucket (some b) capacity window now in
    let (allowed, last) = calls b' capacity window times in
    ((if retry == 0 then suc allowed else allowed), last)

-- A quotient that is rounded up covers its dividend.
ceil_div-covers : (n d : ℕ) → 0 < d → n ≤ ceil_div n d * d
ceil_div-covers n d h = omega (arith, lt-div-mul-add {a = n + (d - 1)} {b = d} h)

ceil_div-pos : (n d : ℕ) → 0 < d → 0 < n → (ceil_div n d == 0) ≡ false
ceil_div-pos n d h p = elim (Bool-cases (ceil_div n d == 0)) [
  | inr e ↦ e
  | inl e ↦ absurd (
      let q : ceil_div n d ≡ 0 = ground arith in
      let c : n ≤ 0 * d = rw q at (ceil_div-covers n d h) in omega (arith, c, p))
]

-- Tokens are only gained with time, and a call that is let through costs one.
bucket-parts :
    (b : Bucket) (capacity window now : ℕ)
    → 0 < capacity
    → ((if (bucket (some b) capacity window now).0 == 0 then window else 0)
          + (bucket (some b) capacity window now).1.parts
        ≤ b.parts + ((bucket (some b) capacity window now).1.at - b.at) * capacity)
      × (b.at ≤ (bucket (some b) capacity window now).1.at)
unfolding bucket filled take_token
bucket-parts b capacity window now pos =
    elim (Bool-cases (leb window (filled b capacity window now).parts)) [
      | inl y ↦ rw y (ground arith, omega arith)
      | inr n ↦
          let wait =
            ceil_div-pos (window - (filled b capacity window now).parts) capacity pos
              (ground arith) in
          rw (n, wait) (omega arith, omega arith)
    ]

spread : (a b c k : ℕ) → a ≤ b → b ≤ c → (c - b) * k + (b - a) * k ≡ (c - a) * k
spread a b c k h h' = sym (add-mul (c - b) (b - a) k) ∙ ap (λ x. x * k) (omega (arith, h, h'))

calls-parts :
    (b : Bucket) (capacity window : ℕ) (times : List ℕ)
    → 0 < capacity
    → ((calls b capacity window times).0 * window + (calls b capacity window times).1.parts
        ≤ b.parts + ((calls b capacity window times).1.at - b.at) * capacity)
      × (b.at ≤ (calls b capacity window times).1.at)
unfolding calls
calls-parts b capacity window [] pos = (omega arith, omega arith)
calls-parts b capacity window (now ∷ times) pos =
    let b' = (bucket (some b) capacity window now).1 in
    let (here, order) = bucket-parts b capacity window now pos in
    let (rest, later) = calls-parts b' capacity window times pos in
    let last = (calls b' capacity window times).1 in
    let sum = spread b.at b'.at last.at capacity order later in
    elim (Bool-cases ((bucket (some b) capacity window now).0 == 0)) [
      | inl y ↦ rw y (
        let cost = rw y at here in
            let one = add-mul 1 (calls b' capacity window times).0 window in
            omega (arith, cost, rest, sum, one),
        omega (arith, order, later),
      )
      | inr n ↦
          rw n
            (let cost = rw n at here in omega (arith, cost, rest, sum), omega (arith, order, later))
    ]

-- From any time on, whatever was called before, as many calls are let through as the capacity, and those
-- for which the rate of the capacity for each window has left time since: counted in parts of a
-- token, for calls at any times and in any order.
pub calls-bounded :
    (o : Option Bucket) (capacity window first : ℕ) (times : List ℕ)
    → 0 < capacity
    → let b = filled (stored o capacity window first) capacity window first in
      let (allowed, last) = calls b capacity window times in
      allowed * window ≤ capacity * window + (last.at - b.at) * capacity
unfolding filled
calls-bounded o capacity window first times pos =
    let b = filled (stored o capacity window first) capacity window first in
    let (bound, _) = calls-parts b capacity window times pos in
    let full : b.parts ≤ capacity * window = omega arith in omega (arith, bound, full)

-- A bucket has a token again when the missing parts have been gained.
take-filled :
    (b : Bucket) (capacity window later wait : ℕ)
    → 0 < capacity
    → window - b.parts ≤ wait * capacity
    → b.at + wait ≤ later
    → (take_token (filled b capacity window later) capacity window).0 ≡ 0
unfolding filled take_token
take-filled b capacity window later wait pos missing waited =
    let gained : wait * capacity ≤ (max b.at later - b.at) * capacity =
      mul-le-mul_right capacity (omega (arith, waited)) in
    let room : 1 * window ≤ capacity * window = mul-le-mul_right window (omega (arith, pos)) in
    let enough : leb window (filled b capacity window later).parts ≡ true =
      ground (arith, gained, room, missing) in
    rw enough refl

-- A call that is refused says how long to wait: after that time on the bucket's clock, a call is let
-- through, if none came between.
pub bucket-retry :
    (o : Option Bucket) (capacity window now later : ℕ)
    → 0 < capacity
    → (bucket o capacity window now).1.at + (bucket o capacity window now).0 ≤ later
    → ((bucket o capacity window now).0 == 0) ≡ false
    → (bucket (some (bucket o capacity window now).1) capacity window later).0 ≡ 0
unfolding bucket filled take_token
bucket-retry o capacity window now later pos waited refused =
    elim (Bool-cases
      (leb window (filled (stored o capacity window now) capacity window now).parts)) [
        | inl y ↦ absurd (let e = rw y at refused in cc)
        | inr n ↦ rw n (
            let b = filled (stored o capacity window now) capacity window now in
            take-filled b capacity window later (ceil_div (window - b.parts) capacity) pos
              (ceil_div-covers (window - b.parts) capacity pos) (rw n at waited))
      ]
