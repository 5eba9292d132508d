-- ===== src/Prelude/Lists.antt =====
-- Lists measured by native numbers, filters by Boolean tests, and numbered lists.
use Prim.Native.Nat.{ℕ, zero, suc, ◌+◌, ◌≤◌}
use mathlib.Core.Path.{◌≡◌, refl, sym, ap, ap₂, ◌∙◌}
use mathlib.Core.Bool.{Bool, true, false, not, ◌&&◌, ◌||◌}
use mathlib.Core.List.{
  List, [], ◌∷◌, ◌++◌, map, Mem, Perm, Permᴰ, Perm-prop, perm_middle, mem-append_left, Nodup,
  Nodup-nil, Nodup-cons, mem-map, mem-map_of_mem, map-append,
}
use mathlib.Core.List.Perm
use mathlib.Core.Logic.{∥∥₁_elim}
use mathlib.Core.HLevel.{⊥_prop}
use mathlib.Core.Bool.{Bool-set}
use native.Mathlib.Nat.{ℕ_set}
use native.Mathlib.Omega.{arith}
use emoselfie_be.Prelude.Tests.{if◌then◌else◌}

module _ {ℓ} {A : Type ℓ} where
  abbrev pub length : List A → ℕ
  length [] = 0
  length (x ∷ xs) = suc (length xs)

  abbrev pub take : ℕ → List A → List A
  take zero xs = []
  take (suc n) [] = []
  take (suc n) (x ∷ xs) = x ∷ take n xs

  -- `[x for x in xs if p(x)]`
  abbrev pub keep : (A → Bool) → List A → List A
  keep p [] = []
  keep p (x ∷ xs) = if p x then x ∷ keep p xs else keep p xs

  -- `any(p(x) for x in xs)` and `all(...)`
  abbrev pub any : (A → Bool) → List A → Bool
  any p [] = false
  any p (x ∷ xs) = p x || any p xs

  abbrev pub all : (A → Bool) → List A → Bool
  all p [] = true
  all p (x ∷ xs) = p x && all p xs

  abbrev pub nonempty : List A → Bool
  nonempty [] = false
  nonempty (_ ∷ _) = true

  -- A predicate on every item, by recursion, so that tactics read it.
  abbrev pub All {κ} : (A → Type κ) → List A → Type κ
  All P [] = Unit
  All P (x ∷ xs) = P x × All P xs

module _ {ℓ} {A : Type ℓ} where
  pub length-append : (xs ys : List A) → length (xs ++ ys) ≡ length xs + length ys
  length-append [] ys = omega arith
  length-append (x ∷ xs) ys = omega (arith, length-append xs ys)

  pub length-keep : (p : A → Bool) (xs : List A) → length (keep p xs) ≤ length xs
  length-keep p [] = omega arith
  length-keep p (x ∷ xs) = ground (arith, length-keep p xs)

  -- Splitting by a test and by its negation loses nothing.
  pub keep-perm : (p : A → Bool) (xs : List A) → Perm (keep p xs ++ keep (λ x. not (p x)) xs) xs
  keep-perm p [] = Perm.rfl
  keep-perm p (x ∷ xs) = by_test (p x) (keep-perm p xs)
    where
      by_test :
          (b : Bool)
          → Perm (keep p xs ++ keep (λ y. not (p y)) xs) xs
          → Perm
              ((if b then x ∷ keep p xs else keep p xs)
                ++ (if not b then x ∷ keep (λ y. not (p y)) xs else keep (λ y. not (p y)) xs))
              (x ∷ xs)
      by_test true h = Perm.cons x h
      by_test false h = Perm.trans (perm_middle _ _) (Perm.cons x h)

  keep-permᴰ : (p : A → Bool) {xs ys : List A} → Permᴰ xs ys → Perm (keep p xs) (keep p ys)
  keep-permᴰ p Permᴰ.nil = Perm.rfl
  keep-permᴰ p (Permᴰ.cons {a = a} e h) = rw (← e) (by_test (p a) (keep-permᴰ p h))
    where
      by_test :
          (b : Bool) {us vs : List A}
          → Perm us vs
          → Perm (if b then a ∷ us else us) (if b then a ∷ vs else vs)
      by_test true h = Perm.cons a h
      by_test false h = h
  keep-permᴰ p (Permᴰ.swap {a = a} {b = b} {l = l} e f) = rw (← e, ← f) (by_tests (p a) (p b))
    where
      by_tests :
          (s t : Bool)
          → Perm
              (if s
                then a ∷ (if t then b ∷ keep p l else keep p l)
                else if t
                then b ∷ keep p l
                else keep p l)
              (if t
                then b ∷ (if s then a ∷ keep p l else keep p l)
                else if s
                then a ∷ keep p l
                else keep p l)
      by_tests true true = Perm.swap b a _
      by_tests true false = Perm.rfl
      by_tests false true = Perm.rfl
      by_tests false false = Perm.rfl
  keep-permᴰ p (Permᴰ.trans h k) = Perm.trans (keep-permᴰ p h) (keep-permᴰ p k)

  -- A filter of a rearrangement is a rearrangement of the filter.
  pub keep-perm_congr : (p : A → Bool) {xs ys : List A} → Perm xs ys → Perm (keep p xs) (keep p ys)
  keep-perm_congr p h = ∥∥₁_elim h Perm-prop (keep-permᴰ p)

  pub Mem-keep : (p : A → Bool) {a : A} (xs : List A) → Mem a (keep p xs) → Mem a xs
  Mem-keep p xs m = (Perm.mem_iff (keep-perm p xs)).0 (mem-append_left _ m)

module _ {ℓ κ} {A : Type ℓ} {B : Type κ} where
  pub length-map : (f : A → B) (xs : List A) → length (map f xs) ≡ length xs
  length-map f [] = refl
  length-map f (x ∷ xs) = ap suc (length-map f xs)

  -- `[f(n, x) for n, x in enumerate(xs, start)]`
  abbrev pub enumerate : (ℕ → A → B) → ℕ → List A → List B
  enumerate f n [] = []
  enumerate f n (x ∷ xs) = f n x ∷ enumerate f (n + 1) xs

  pub length-enumerate :
      (f : ℕ → A → B) (n : ℕ) (xs : List A) → length (enumerate f n xs) ≡ length xs
  length-enumerate f n [] = refl
  length-enumerate f n (x ∷ xs) = ap suc (length-enumerate f (n + 1) xs)

-- `start, start + 1, ...`, as many as asked for.
abbrev pub count_from : ℕ → ℕ → List ℕ
count_from n zero = []
count_from n (suc k) = n ∷ count_from (n + 1) k

module _ {ℓ} {A : Type ℓ} where
  all-permᴰ : (p : A → Bool) {xs ys : List A} → Permᴰ xs ys → all p xs ≡ all p ys
  all-permᴰ p Permᴰ.nil = refl
  all-permᴰ p (Permᴰ.cons e h) = ap₂ (λ a b. p a && b) e (all-permᴰ p h)
  all-permᴰ p (Permᴰ.swap {a = a} {b = b} {l = l} e f) =
      rw (← e, ← f) (swap_and (p a) (p b) (all p l))
    where
      swap_and : (s t u : Bool) → (s && (t && u)) ≡ (t && (s && u))
      swap_and s t u = ground arith
  all-permᴰ p (Permᴰ.trans h k) = all-permᴰ p h ∙ all-permᴰ p k

  pub all-perm : (p : A → Bool) {xs ys : List A} → Perm xs ys → all p xs ≡ all p ys
  all-perm p h = ∥∥₁_elim h (Bool-set _ _) (all-permᴰ p)

  nonempty-permᴰ : {xs ys : List A} → Permᴰ xs ys → nonempty xs ≡ nonempty ys
  nonempty-permᴰ Permᴰ.nil = refl
  nonempty-permᴰ (Permᴰ.cons e h) = refl
  nonempty-permᴰ (Permᴰ.swap e f) = refl
  nonempty-permᴰ (Permᴰ.trans h k) = nonempty-permᴰ h ∙ nonempty-permᴰ k

  pub nonempty-perm : {xs ys : List A} → Perm xs ys → nonempty xs ≡ nonempty ys
  nonempty-perm h = ∥∥₁_elim h (Bool-set _ _) nonempty-permᴰ

  length-permᴰ : {xs ys : List A} → Permᴰ xs ys → length xs ≡ length ys
  length-permᴰ Permᴰ.nil = refl
  length-permᴰ (Permᴰ.cons e h) = ap suc (length-permᴰ h)
  length-permᴰ (Permᴰ.swap e f) = refl
  length-permᴰ (Permᴰ.trans h k) = length-permᴰ h ∙ length-permᴰ k

  pub length-perm : {xs ys : List A} → Perm xs ys → length xs ≡ length ys
  length-perm h = ∥∥₁_elim h (ℕ_set _ _) length-permᴰ

module _ {ℓ κ} {A : Type ℓ} {B : Type κ} (f : A → B) where
  pub Mem-map_keep :
      (p : A → Bool) {b : B} (xs : List A) → Mem b (map f (keep p xs)) → Mem b (map f xs)
  Mem-map_keep p xs m =
      (Perm.mem_iff (Perm.map f (keep-perm p xs))).0
        (rw (map-append f (keep p xs) (keep (λ x. not (p x)) xs)) (mem-append_left _ m))

  -- A filter keeps values of `f` that are all different so.
  pub keep-Nodup-map : (p : A → Bool) (xs : List A) → Nodup (map f xs) → Nodup (map f (keep p xs))
  keep-Nodup-map p [] n = n
  keep-Nodup-map p (x ∷ xs) n = by_test (p x) (keep-Nodup-map p xs (Nodup-cons.0 n).1)
    where
      by_test :
          (b : Bool)
          → Nodup (map f (keep p xs))
          → Nodup (map f (if b then x ∷ keep p xs else keep p xs))
      by_test true rest = Nodup-cons.1 ((λ m. (Nodup-cons.0 n).0 (Mem-map_keep p xs m)), rest)
      by_test false rest = rest

-- Different values stay different under a function that is one to one.
pub Nodup-map_inj {ℓ κ μ} :
    {A : Type ℓ} {B : Type κ} {C : Type μ} (f : A → B) (g : A → C)
    → ((a b : A) → g a ≡ g b → f a ≡ f b)
    → (xs : List A) → Nodup (map f xs)
    → Nodup (map g xs)
Nodup-map_inj f g inj [] n = Nodup-nil
Nodup-map_inj f g inj (x ∷ xs) n = Nodup-cons.1 (
  (λ m.
      ∥∥₁_elim (mem-map.0 m) ⊥_prop
        (λ (a, inside, e). (Nodup-cons.0 n).0 (rw (inj x a (sym e)) (mem-map_of_mem f inside)))),
  Nodup-map_inj f g inj xs (Nodup-cons.0 n).1,
)
