-- ===== src/Prelude/Every.antt =====
-- Predicates on every item of a list, and on every pair of items in their order.
use mathlib.Core.List.{Mem, Pairwise, mem-cons_self, mem-cons_of_mem}
use emoselfie_be.Prelude.{
  ℕ, ◌+◌, ◌≤◌, ◌<◌, ◌≡◌, refl, Bool, true, List, [], ◌∷◌, ◌++◌, map, arith, keep, All, enumerate,
  length, take, Bool-cases, inl, inr, ap, ℤ,
}
use emoselfie_be.Prelude.Sort.{sort_by, insert_sorted, lex_leb}

module _ {ℓ κ} {A : Type ℓ} (P : A → Type κ) where
  pub All-of_forall : ((x : A) → P x) → (xs : List A) → All P xs
  All-of_forall h [] = tt
  All-of_forall h (x ∷ xs) = (h x, All-of_forall h xs)

  pub All-append : (xs ys : List A) → All P xs → All P ys → All P (xs ++ ys)
  All-append [] ys h k = k
  All-append (x ∷ xs) ys h k = (h.0, All-append xs ys h.1 k)

  All-insert_sorted :
      (key : A → List ℤ) (x : A) (xs : List A) → P x → All P xs → All P (insert_sorted key x xs)
  unfolding insert_sorted
  All-insert_sorted key x [] p h = (p, tt)
  All-insert_sorted key x (y ∷ ys) p h = elim (Bool-cases (lex_leb (key x) (key y))) [
    | inl e ↦ rw e (p, h)
    | inr e ↦ rw e (h.0, All-insert_sorted key x ys p h.1)
  ]

  pub All-sort_by : (key : A → List ℤ) (xs : List A) → All P xs → All P (sort_by key xs)
  unfolding sort_by
  All-sort_by key [] h = tt
  All-sort_by key (x ∷ xs) h = All-insert_sorted key x (sort_by key xs) h.0 (All-sort_by key xs h.1)

  pub All-of_mem : (xs : List A) → ((x : A) → Mem x xs → P x) → All P xs
  All-of_mem [] h = tt
  All-of_mem (x ∷ xs) h = (h x mem-cons_self, All-of_mem xs (λ y m. h y (mem-cons_of_mem x m)))

module _ {ℓ} {A : Type ℓ} where
  pub All-keep : (p : A → Bool) (xs : List A) → All (λ x. p x ≡ true) (keep p xs)
  All-keep p [] = tt
  All-keep p (x ∷ xs) = elim (Bool-cases (p x)) [
    | inl e ↦ rw e (e, All-keep p xs)
    | inr e ↦ rw e (All-keep p xs)
  ]

module _ {ℓ κ μ ν} {A : Type ℓ} {B : Type κ} (P : A → Type μ) (Q : B → Type ν) where
  pub All-map : (f : A → B) (xs : List A) → ((x : A) → P x → Q (f x)) → All P xs → All Q (map f xs)
  All-map f [] h a = tt
  All-map f (x ∷ xs) h a = (h x a.0, All-map f xs h a.1)

  pub All-enumerate :
      (f : ℕ → A → B) (n : ℕ) (xs : List A)
      → ((i : ℕ) (x : A) → P x → Q (f i x))
      → All P xs
      → All Q (enumerate f n xs)
  All-enumerate f n [] h a = tt
  All-enumerate f n (x ∷ xs) h a = (h n x a.0, All-enumerate f (n + 1) xs h a.1)

-- The relation holds of every item and each one behind it.
abbrev pub AllPairs {ℓ κ} : {A : Type ℓ} → (A → A → Type κ) → List A → Type κ
AllPairs R [] = Unit
AllPairs R (x ∷ xs) = All (R x) xs × AllPairs R xs

module _ {ℓ κ} {A : Type ℓ} (R : A → A → Type κ) where
  pub AllPairs-of_Pairwise : {xs : List A} → Pairwise R xs → AllPairs R xs
  AllPairs-of_Pairwise Pairwise.nil = tt
  AllPairs-of_Pairwise (Pairwise.cons {a = x} {l = xs} below p) =
      (All-of_mem (R x) xs below, AllPairs-of_Pairwise p)

  pub AllPairs-append :
      (xs ys : List A)
      → AllPairs R xs
      → AllPairs R ys
      → All (λ x. All (R x) ys) xs
      → AllPairs R (xs ++ ys)
  AllPairs-append [] ys h k c = k
  AllPairs-append (x ∷ xs) ys h k c =
      (All-append (R x) xs ys h.0 c.0, AllPairs-append xs ys h.1 k c.1)

module _ {ℓ κ μ ν} {A : Type ℓ} {B : Type κ} (R : A → A → Type μ) (S : B → B → Type ν) where
  pub AllPairs-map :
      (f : A → B) (xs : List A)
      → ((x y : A) → R x y → S (f x) (f y))
      → AllPairs R xs
      → AllPairs S (map f xs)
  AllPairs-map f [] h a = tt
  AllPairs-map f (x ∷ xs) h a =
      (All-map (R x) (S (f x)) f xs (λ y r. h x y r) a.0, AllPairs-map f xs h a.1)

  later :
      (f : ℕ → A → B) (i n : ℕ) (x : A) (xs : List A)
      → i < n
      → ((j : ℕ) (y : A) → i < j → R x y → S (f i x) (f j y))
      → All (R x) xs
      → All (S (f i x)) (enumerate f n xs)
  later f i n x [] lt h a = tt
  later f i n x (y ∷ ys) lt h a = (h n y lt a.0, later f i (n + 1) x ys (omega arith) h a.1)

  -- Related items, numbered from `m` or more, give related results.
  pub AllPairs-enumerate :
      (f : ℕ → A → B) (m n : ℕ) (xs : List A)
      → m ≤ n
      → ((i j : ℕ) (x y : A) → m ≤ i → i < j → R x y → S (f i x) (f j y))
      → AllPairs R xs
      → AllPairs S (enumerate f n xs)
  AllPairs-enumerate f m n [] le h a = tt
  AllPairs-enumerate f m n (x ∷ xs) le h a = (
    later f n (n + 1) x xs (omega arith) (λ j y lt r. h n j x y le lt r) a.0,
    AllPairs-enumerate f m (n + 1) xs (omega arith) h a.1,
  )

pub take-append {ℓ} : {A : Type ℓ} (xs ys : List A) → take (length xs) (xs ++ ys) ≡ xs
take-append [] ys = refl
take-append (x ∷ xs) ys = ap (◌∷◌ x) (take-append xs ys)

module _ {ℓ κ μ} {A : Type ℓ} (V : A → Type κ) (R : A → A → Type μ) where
  All-both : (x : A) (xs : List A) → V x → All V xs → All (R x) xs → All (λ y. V x × V y × R x y) xs
  All-both x [] v h k = tt
  All-both x (y ∷ ys) v h k = ((v, h.0, k.0), All-both x ys v h.1 k.1)

  -- A relation between items that all have a property relates items with that property.
  pub AllPairs-both :
      (xs : List A) → All V xs → AllPairs R xs → AllPairs (λ x y. V x × V y × R x y) xs
  AllPairs-both [] h k = tt
  AllPairs-both (x ∷ xs) h k = (All-both x xs h.0 h.1 k.0, AllPairs-both xs h.1 k.1)

pub All-keep_of {ℓ κ} :
    {A : Type ℓ} (V : A → Type κ) (p : A → Bool) (xs : List A) → All V xs → All V (keep p xs)
All-keep_of V p [] h = tt
All-keep_of V p (x ∷ xs) h = elim (Bool-cases (p x)) [
  | inl e ↦ rw e (h.0, All-keep_of V p xs h.1)
  | inr e ↦ rw e (All-keep_of V p xs h.1)
]
