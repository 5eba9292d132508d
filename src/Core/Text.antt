-- ===== src/Core/Text.antt =====
-- What the source uses of Python's `str` and `bytes`, on lists of character codes: `int`, `split`,
-- `partition`, `count` and `rstrip`; all texts that are read here are ASCII.
use emoselfie_be.Prelude.{
  ℕ, zero, suc, ◌+◌, ◌-◌, ◌*◌, ◌≡◌, refl, Bool, true, false, ◌&&◌, ◌||◌, Option, none, some, List,
  [], ◌∷◌, ◌++◌, arith, ltb, leb, ◌==◌, ==_refl, if◌then◌else◌, all, ℤ, pos, negsuc,
}
use emoselfie_be.Prelude.Sets.{has}

abbrev pub is_digit : ℕ → Bool
is_digit c = leb 48 c && leb c 57

-- The digits of `int(text)`: an underscore may stand between two of them.
unfoldable pub digits : Bool → ℕ → List ℕ → Option ℕ
digits after_digit acc [] = if after_digit then some acc else none
digits after_digit acc (c ∷ cs) =
    let more = digits true (acc * 10 + (c - 48)) cs in
    let rest = digits false acc cs in
    if is_digit c then more else if (c == b'_') && after_digit then rest else none

-- ASCII white space, as `str.strip` takes it
abbrev pub is_space : ℕ → Bool
is_space c = (leb 9 c && leb c 13) || (leb 28 c && leb c 32)

unfoldable pub lstrip : (ℕ → Bool) → List ℕ → List ℕ
lstrip p [] = []
lstrip p (c ∷ cs) = let rest = lstrip p cs in if p c then rest else c ∷ cs

unfoldable pub rstrip : (ℕ → Bool) → List ℕ → List ℕ
rstrip p [] = []
rstrip p (c ∷ cs) = elim (rstrip p cs) [ [] ↦ if p c then [] else c ∷ [] | d ∷ ds ↦ c ∷ d ∷ ds ]

-- `text.strip(chars)`
unfoldable pub strip : (ℕ → Bool) → List ℕ → List ℕ
unfolding lstrip rstrip
strip p text = rstrip p (lstrip p text)

abbrev pub negated : ℕ → ℤ
negated zero = pos zero
negated (suc n) = negsuc n

unfoldable pub signed : List ℕ → Option ℤ
unfolding digits
signed [] = none
signed (c ∷ cs) =
    if c == b'-'
    then elim (digits false 0 cs) [ none ↦ none | some n ↦ some (negated n) ]
    else if c == b'+'
    then elim (digits false 0 cs) [ none ↦ none | some n ↦ some (pos n) ]
    else elim (digits false 0 (c ∷ cs)) [ none ↦ none | some n ↦ some (pos n) ]

-- `int(text)`
unfoldable pub int_of : List ℕ → Option ℤ
unfolding signed strip
int_of text = signed (strip is_space text)

-- `text.split(c)`
unfoldable pub split : ℕ → List ℕ → List (List ℕ)
split c [] = [] ∷ []
split c (x ∷ xs) =
    let rest = split c xs in
    if x == c then [] ∷ rest else elim rest [ [] ↦ (x ∷ []) ∷ [] | head ∷ tail ↦ (x ∷ head) ∷ tail ]

-- `text.partition(c)`, less the separator
unfoldable pub partition : ℕ → List ℕ → List ℕ × List ℕ
partition c [] = ([], [])
partition c (x ∷ xs) =
    let rest = partition c xs in if x == c then ([], xs) else (x ∷ rest.0, rest.1)

unfoldable pub count : ℕ → List ℕ → ℕ
count c [] = 0
count c (x ∷ xs) = let rest = count c xs in if x == c then suc rest else rest

abbrev pub is_ascii : List ℕ → Bool
is_ascii = all (λ c. ltb c 128)

pub split-append :
    (c : ℕ) (xs ys : List ℕ) → has c xs ≡ false → split c (xs ++ c ∷ ys) ≡ xs ∷ split c ys
unfolding split
split-append c [] ys h = rw (==_refl c) refl
split-append c (x ∷ xs) ys h =
    let apart : (x == c) ≡ false = ground arith in
    rw (split-append c xs ys (ground arith), apart) refl

pub split_single : (c : ℕ) (xs : List ℕ) → has c xs ≡ false → split c xs ≡ xs ∷ []
unfolding split
split_single c [] h = refl
split_single c (x ∷ xs) h =
    let apart : (x == c) ≡ false = ground arith in rw (split_single c xs (ground arith), apart) refl

pub partition-append :
    (c : ℕ) (xs ys : List ℕ) → has c xs ≡ false → partition c (xs ++ c ∷ ys) ≡ (xs, ys)
unfolding partition
partition-append c [] ys h = rw (==_refl c) refl
partition-append c (x ∷ xs) ys h =
    let apart : (x == c) ≡ false = ground arith in
    rw (partition-append c xs ys (ground arith), apart) refl

pub count-append : (c : ℕ) (xs ys : List ℕ) → count c (xs ++ ys) ≡ count c xs + count c ys
unfolding count
count-append c [] ys = omega arith
count-append c (x ∷ xs) ys = ground (arith, count-append c xs ys)

pub count_none : (c : ℕ) (xs : List ℕ) → has c xs ≡ false → count c xs ≡ 0
unfolding count
count_none c [] h = refl
count_none c (x ∷ xs) h = ground (arith, count_none c xs)
