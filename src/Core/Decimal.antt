-- ===== src/Core/Decimal.antt =====
-- Decimal numbers, the `str` and `int` that app/core/security.py uses on times: lemmas on digits.
use emoselfie_be.Prelude.{
  ℕ, zero, suc, ◌+◌, ◌-◌, ◌*◌, ◌/◌, ◌%◌, ◌≤◌, ◌<◌, ◌≡◌, refl, ◌∙◌, ap, Bool, true, false, ◌&&◌,
  some, List, [], ◌∷◌, ◌++◌, arith, ltb, ◌==◌, all, Bool-cases, inl, inr, pos,
}
use emoselfie_be.Prelude.Sets.{has}
use emoselfie_be.Core.Security.{str, decimal_digits}
use emoselfie_be.Core.Text.{is_digit, digits, is_space, lstrip, rstrip, strip, signed, int_of}

abbrev value : ℕ → List ℕ → ℕ
value acc [] = acc
value acc (c ∷ cs) = value (acc * 10 + (c - 48)) cs

value-append :
    (acc : ℕ) (xs : List ℕ) (c : ℕ) → value acc (xs ++ c ∷ []) ≡ value acc xs * 10 + (c - 48)
value-append acc [] c = refl
value-append acc (x ∷ xs) c = value-append (acc * 10 + (x - 48)) xs c

digits-value :
    (b : Bool) (acc : ℕ) (c : ℕ) (xs : List ℕ)
    → all is_digit (c ∷ xs) ≡ true
    → digits b acc (c ∷ xs) ≡ some (value acc (c ∷ xs))
unfolding digits
digits-value b acc c [] h = ground arith
digits-value b acc c (d ∷ ds) h =
    let here : is_digit c ≡ true = ground arith in
    rw here (digits-value true (acc * 10 + (c - 48)) d ds (ground arith))

all-append : (p : ℕ → Bool) (xs : List ℕ) (c : ℕ) → all p (xs ++ c ∷ []) ≡ (all p xs && p c)
all-append p [] c = ground arith
all-append p (x ∷ xs) c = ground (arith, all-append p xs c)

decimal-digit : (n : ℕ) → n < 10 → is_digit (48 + n) ≡ true
decimal-digit n h = ground arith

decimal_digits-all : (f n : ℕ) → all is_digit (decimal_digits f n) ≡ true
unfolding decimal_digits
decimal_digits-all zero n = refl
decimal_digits-all (suc f) n = elim (Bool-cases (ltb n 10)) [
  | inl y ↦ rw y (ground (arith, decimal-digit n))
  | inr e ↦ rw e (
      rw
        (
          all-append is_digit (decimal_digits f (n / 10)) (48 + n % 10),
          decimal_digits-all f (n / 10),
          decimal-digit (n % 10) (omega arith),
        )
        refl)
]

decimal_digits-value : (f n : ℕ) → n < f → value 0 (decimal_digits f n) ≡ n
unfolding decimal_digits
decimal_digits-value zero n h = absurd (omega (arith, h))
decimal_digits-value (suc f) n h = elim (Bool-cases (ltb n 10)) [
  | inl y ↦ rw y (omega arith)
  | inr e ↦ rw e (
      let big : 10 ≤ n = ground arith in
      rw
        (
          value-append 0 (decimal_digits f (n / 10)) (48 + n % 10),
          decimal_digits-value f (n / 10) (omega (arith, big, h)),
        )
        (omega arith))
]

append-head : (xs : List ℕ) (c : ℕ) → (d : ℕ) × (ds : List ℕ) × (xs ++ c ∷ [] ≡ d ∷ ds)
append-head [] c = (c, [], refl)
append-head (x ∷ xs) c = (x, xs ++ c ∷ [], refl)

str-head : (n : ℕ) → (c : ℕ) × (cs : List ℕ) × (str n ≡ c ∷ cs)
unfolding str decimal_digits
str-head n = elim (Bool-cases (ltb n 10)) [
  | inl y ↦ rw y (48 + n, [], refl)
  | inr e ↦ rw e (append-head (decimal_digits n (n / 10)) (48 + n % 10))
]

rstrip-digits : (xs : List ℕ) → all is_digit xs ≡ true → rstrip is_space xs ≡ xs
unfolding rstrip
rstrip-digits [] h = refl
rstrip-digits (c ∷ []) h = ground arith
rstrip-digits (c ∷ d ∷ ds) h = rw (rstrip-digits (d ∷ ds) (ground arith)) refl

int_of-digits :
    (c : ℕ) (cs : List ℕ)
    → all is_digit (c ∷ cs) ≡ true
    → int_of (c ∷ cs) ≡ some (pos (value 0 (c ∷ cs)))
unfolding int_of strip lstrip signed
int_of-digits c cs h =
    let seen : is_space c ≡ false = ground arith in
    let minus : (c == b'-') ≡ false = ground arith in
    let plus : (c == b'+') ≡ false = ground arith in
    rw (seen, rstrip-digits (c ∷ cs) h, minus, plus, digits-value false 0 c cs h) refl

int_of-eq :
    (xs : List ℕ) (c : ℕ) (cs : List ℕ)
    → xs ≡ c ∷ cs
    → all is_digit xs ≡ true
    → int_of xs ≡ some (pos (value 0 xs))
int_of-eq xs c cs e h = rw e (int_of-digits c cs (rw e at h))

-- `int(str(n)) == n`
pub int_of-str : (n : ℕ) → int_of (str n) ≡ some (pos n)
unfolding str
int_of-str n =
    let (c, cs, e) = str-head n in
    int_of-eq (decimal_digits (suc n) n) c cs e (decimal_digits-all (suc n) n)
    ∙ ap (λ v. some (pos v)) (decimal_digits-value (suc n) n (omega arith))

digits-free : (x : ℕ) (xs : List ℕ) → is_digit x ≡ false → all is_digit xs ≡ true → has x xs ≡ false
digits-free x [] n h = refl
digits-free x (y ∷ ys) n h = ground (arith, digits-free x ys n)

pub str-has : (x n : ℕ) → is_digit x ≡ false → has x (str n) ≡ false
unfolding str
str-has x n h = digits-free x (decimal_digits (suc n) n) h (decimal_digits-all (suc n) n)
