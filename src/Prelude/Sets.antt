-- ===== src/Prelude/Sets.antt =====
-- Sets of numbers, as lists without repetition: Python sets, and Redis sets of ids. The order in
-- which a set is read is not specified, so no theorem depends on it.
use mathlib.Core.List.{
  Mem, Nodup, Nodup-nil, Nodup-cons, mem-cons, perm_ext_iff_of_Nodup, not-mem-nil,
}
use mathlib.Core.Logic.Or
use mathlib.Core.Bool.{Bool-set, false≢true}
use mathlib.Core.Path.{sym, ◌∙◌}
use emoselfie_be.Prelude.{
  ℕ, ◌≤◌, ◌≡◌, ◌⊎◌, refl, Bool, true, false, ◌||◌, List, [], ◌∷◌, arith, ◌==◌, if◌then◌else◌,
  length, Bool-cases, ==_iff, keep, not, ◌&&◌, ◌+◌, length-perm, inl, inr,
}

-- `x in s`
abbrev pub has : ℕ → List ℕ → Bool
has x [] = false
has x (y ∷ ys) = (x == y) || has x ys

-- `s.add(x)`
abbrev pub add : ℕ → List ℕ → List ℕ
add x s = if has x s then s else x ∷ s

-- `s.discard(x)`
abbrev pub discard : ℕ → List ℕ → List ℕ
discard x [] = []
discard x (y ∷ ys) = if x == y then discard x ys else y ∷ discard x ys

-- `set(xs)`
abbrev pub set_of : List ℕ → List ℕ
set_of [] = []
set_of (x ∷ xs) = add x (set_of xs)

-- No item stands twice, as a predicate that tactics read.
abbrev pub IsDistinct : List ℕ → Type 0
IsDistinct [] = Unit
IsDistinct (x ∷ xs) = (has x xs ≡ false) × IsDistinct xs

pub has-mem : (x : ℕ) (xs : List ℕ) → has x xs ≡ true → Mem x xs
has-mem x [] h = absurd (ground arith)
has-mem x (y ∷ ys) h = elim (Bool-cases (x == y)) [
  | inl e ↦ (mem-cons).1 (Or.inl (ground arith))
  | inr e ↦ (mem-cons).1 (Or.inr (has-mem x ys (ground arith)))
]

pub mem-has : (x : ℕ) (xs : List ℕ) → Mem x xs → has x xs ≡ true
mem-has x [] m = absurd (not-mem-nil m)
mem-has x (y ∷ ys) m =
    Or.elim (Bool-set _ _) (mem-cons.0 m) (λ e. ground arith)
      (λ k. let h = mem-has x ys k in ground arith)

pub IsDistinct-Nodup : (xs : List ℕ) → IsDistinct xs → Nodup xs
IsDistinct-Nodup [] h = Nodup-nil
IsDistinct-Nodup (x ∷ xs) (new, h) =
    Nodup-cons.1 ((λ m. let k = mem-has x xs m in ground arith), IsDistinct-Nodup xs h)

pub Nodup-IsDistinct : (xs : List ℕ) → Nodup xs → IsDistinct xs
Nodup-IsDistinct [] h = tt
Nodup-IsDistinct (x ∷ xs) h =
    (not_in (Bool-cases (has x xs)), Nodup-IsDistinct xs (Nodup-cons.0 h).1)
  where
    not_in : (has x xs ≡ true) ⊎ (has x xs ≡ false) → has x xs ≡ false
    not_in (inl y) = absurd ((Nodup-cons.0 h).0 (has-mem x xs y))
    not_in (inr n) = n

pub has-add : (x y : ℕ) (s : List ℕ) → has x (add y s) ≡ ((x == y) || has x s)
has-add x y s = ground arith

pub has-discard : (x y : ℕ) (s : List ℕ) → has x (discard y s) ≡ (if x == y then false else has x s)
has-discard x y [] = ground arith
has-discard x y (z ∷ zs) = ground (arith, has-discard x y zs)

pub has-set_of : (x : ℕ) (xs : List ℕ) → has x (set_of xs) ≡ has x xs
has-set_of x [] = refl
has-set_of x (y ∷ ys) = ground (arith, has-set_of x ys)

pub add-IsDistinct : (x : ℕ) (s : List ℕ) → IsDistinct s → IsDistinct (add x s)
add-IsDistinct x s h = ground arith

pub discard-IsDistinct : (x : ℕ) (s : List ℕ) → IsDistinct s → IsDistinct (discard x s)
discard-IsDistinct x [] h = tt
discard-IsDistinct x (y ∷ ys) h = ground (arith, discard-IsDistinct x ys, has-discard y x ys)

pub set_of-IsDistinct : (xs : List ℕ) → IsDistinct (set_of xs)
set_of-IsDistinct [] = tt
set_of-IsDistinct (x ∷ xs) = add-IsDistinct x (set_of xs) (set_of-IsDistinct xs)

length-set_of-le : (xs : List ℕ) → length (set_of xs) ≤ length xs
length-set_of-le [] = omega arith
length-set_of-le (x ∷ xs) = ground (arith, length-set_of-le xs)

-- `len(set(xs)) == len(xs)` tells whether the items are all different.
pub IsDistinct-of_length : (xs : List ℕ) → length (set_of xs) ≡ length xs → IsDistinct xs
IsDistinct-of_length [] h = tt
IsDistinct-of_length (x ∷ xs) h =
    ground (arith, length-set_of-le xs, has-set_of x xs, IsDistinct-of_length xs)

pub length-set_of : (xs : List ℕ) → IsDistinct xs → length (set_of xs) ≡ length xs
length-set_of [] h = refl
length-set_of (x ∷ xs) h = ground (arith, has-set_of x xs, length-set_of xs h.1)

pub IsDistinct-cases : (xs : List ℕ) → IsDistinct xs ⊎ (¬ IsDistinct xs)
IsDistinct-cases [] = inl tt
IsDistinct-cases (x ∷ xs) = by_parts (Bool-cases (has x xs)) (IsDistinct-cases xs)
  where
    by_parts :
        ((has x xs ≡ true) ⊎ (has x xs ≡ false))
        → (IsDistinct xs ⊎ (¬ IsDistinct xs))
        → IsDistinct (x ∷ xs) ⊎ (¬ IsDistinct (x ∷ xs))
    by_parts (inl old) _ = inr (λ h. false≢true (sym h.0 ∙ old))
    by_parts (inr new) (inl rest) = inl (new, rest)
    by_parts (inr new) (inr rest) = inr (λ h. rest h.1)

pub has-keep : (p : ℕ → Bool) (x : ℕ) (xs : List ℕ) → has x (keep p xs) ≡ (p x && has x xs)
has-keep p x [] = ground arith
has-keep p x (y ∷ ys) = elim (Bool-cases (x == y)) [
  | inl e ↦ rw (← (==_iff x y).0 e) (ground (arith, has-keep p x ys))
  | inr e ↦ ground (arith, has-keep p x ys)
]

pub keep-IsDistinct : (p : ℕ → Bool) (xs : List ℕ) → IsDistinct xs → IsDistinct (keep p xs)
keep-IsDistinct p [] h = tt
keep-IsDistinct p (x ∷ xs) h = ground (arith, keep-IsDistinct p xs h.1, has-keep p x xs)

-- Two sets with the same members have the same size.
pub length-eq_of_has :
    (xs ys : List ℕ)
    → IsDistinct xs
    → IsDistinct ys
    → ((x : ℕ) → has x xs ≡ has x ys)
    → length xs ≡ length ys
length-eq_of_has xs ys dx dy same = length-perm (
    (perm_ext_iff_of_Nodup (IsDistinct-Nodup xs dx) (IsDistinct-Nodup ys dy)).1 (λ x. (
      λ m. has-mem x ys (sym (same x) ∙ mem-has x xs m),
      λ m. has-mem x xs (same x ∙ mem-has x ys m),
    )))

pub length-split :
    (p : ℕ → Bool) (xs : List ℕ)
    → length (keep p xs) + length (keep (λ x. not (p x)) xs) ≡ length xs
length-split p [] = omega arith
length-split p (x ∷ xs) = ground (arith, length-split p xs)

pub keep_none :
    (p : ℕ → Bool) (xs : List ℕ) → ((x : ℕ) → has x xs ≡ true → p x ≡ false) → keep p xs ≡ []
keep_none p [] h = refl
keep_none p (x ∷ xs) h = rw (h x (ground arith)) (keep_none p xs (λ y m. h y (ground arith)))
