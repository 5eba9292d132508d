-- ===== src/Prelude/Sort.antt =====
-- `sorted(xs, key=...)`: a stable sort by keys that are tuples of integers, compared as Python
-- compares tuples.
use mathlib.Core.Path.{ap₂}
use mathlib.Core.Logic.{∥∥₁_elim}
use mathlib.Core.Bool.{Bool-set}
use mathlib.Core.List.{
  Perm, Permᴰ, Pairwise, Pairwise-singleton, Nodup, Nodup-cons, forall_mem-cons, mem-cons_self,
  is_set,
}
use mathlib.Core.List.Perm
use emoselfie_be.Prelude.{
  ◌≡◌, ◌≢◌, refl, ◌∙◌, Bool, true, false, List, [], ◌∷◌, map, arith, if◌then◌else◌, ℤ, eqb_ℤ, ltb_ℤ,
  eq_of_parts, Bool-cases, inl, inr,
}

-- `a <= b` on tuples of integers.
unfoldable pub lex_leb : List ℤ → List ℤ → Bool
lex_leb [] _ = true
lex_leb (x ∷ xs) [] = false
lex_leb (x ∷ xs) (y ∷ ys) = if eqb_ℤ x y then lex_leb xs ys else ltb_ℤ x y

pub lex_leb_total : (a b : List ℤ) → lex_leb a b ≡ false → lex_leb b a ≡ true
unfolding lex_leb
lex_leb_total [] b h = cc
lex_leb_total (x ∷ xs) [] h = refl
lex_leb_total (x ∷ xs) (y ∷ ys) h = ground (arith, lex_leb_total xs ys)

pub lex_leb_refl : (a : List ℤ) → lex_leb a a ≡ true
unfolding lex_leb
lex_leb_refl [] = refl
lex_leb_refl (x ∷ xs) = ground (arith, lex_leb_refl xs)

pub lex_leb_trans : (a b c : List ℤ) → lex_leb a b ≡ true → lex_leb b c ≡ true → lex_leb a c ≡ true
unfolding lex_leb
lex_leb_trans [] b c h k = refl
lex_leb_trans (x ∷ xs) [] c h k = cc
lex_leb_trans (x ∷ xs) (y ∷ ys) [] h k = cc
lex_leb_trans (x ∷ xs) (y ∷ ys) (z ∷ zs) h k = ground (arith, lex_leb_trans xs ys zs)

pub lex_leb_antisymm : (a b : List ℤ) → lex_leb a b ≡ true → lex_leb b a ≡ true → a ≡ b
unfolding lex_leb
lex_leb_antisymm [] [] h k = refl
lex_leb_antisymm [] (y ∷ ys) h k = cc
lex_leb_antisymm (x ∷ xs) [] h k = cc
lex_leb_antisymm (x ∷ xs) (y ∷ ys) h k = ground (arith, lex_leb_antisymm xs ys, eq_of_parts x y)

module _ {ℓ} {A : Type ℓ} (key : A → List ℤ) where
  abbrev pub Before : A → A → Type 0
  Before a b = lex_leb (key a) (key b) ≡ true

  unfoldable pub insert_sorted : A → List A → List A
  insert_sorted x [] = x ∷ []
  insert_sorted x (y ∷ ys) = if lex_leb (key x) (key y) then x ∷ y ∷ ys else y ∷ insert_sorted x ys

  unfoldable pub sort_by : List A → List A
  unfolding insert_sorted lex_leb
  sort_by [] = []
  sort_by (x ∷ xs) = insert_sorted x (sort_by xs)

  -- Every item stands no later than those behind it.
  abbrev pub IsSorted : List A → Type ℓ
  IsSorted = Pairwise Before

  Before-prop : (a b : A) → IsProp (Before a b)
  Before-prop a b = Bool-set _ _

  insert_sorted-perm : (x : A) (l : List A) → Perm (insert_sorted x l) (x ∷ l)
  unfolding insert_sorted
  insert_sorted-perm x [] = Perm.rfl
  insert_sorted-perm x (y ∷ ys) = elim (Bool-cases (lex_leb (key x) (key y))) [
    | inl h ↦ rw h Perm.rfl
    | inr h ↦ rw h (Perm.trans (Perm.cons y (insert_sorted-perm x ys)) (Perm.swap x y ys))
  ]

  pub sort_by-perm : (l : List A) → Perm (sort_by l) l
  unfolding sort_by
  sort_by-perm [] = Perm.rfl
  sort_by-perm (x ∷ xs) =
      Perm.trans (insert_sorted-perm x (sort_by xs)) (Perm.cons x (sort_by-perm xs))

  insert_sorted-IsSorted : (x : A) {l : List A} → IsSorted l → IsSorted (insert_sorted x l)
  unfolding insert_sorted
  insert_sorted-IsSorted x Pairwise.nil = Pairwise-singleton _ x
  insert_sorted-IsSorted x (Pairwise.cons {a = y} {l = ys} below s) =
      elim (Bool-cases (lex_leb (key x) (key y))) [
        | inl h ↦ rw h (
            Pairwise.cons
              ((forall_mem-cons (Before-prop x)).1
                (h, λ z m. lex_leb_trans (key x) (key y) (key z) h (below z m)))
              (Pairwise.cons below s))
        | inr h ↦ rw h (
            Pairwise.cons
              (λ z m.
                (forall_mem-cons (Before-prop y)).1 (lex_leb_total (key x) (key y) h, below) z
                  ((Perm.mem_iff (insert_sorted-perm x ys)).0 m))
              (insert_sorted-IsSorted x s))
      ]

  pub sort_by-IsSorted : (l : List A) → IsSorted (sort_by l)
  unfolding sort_by
  sort_by-IsSorted [] = Pairwise.nil
  sort_by-IsSorted (x ∷ xs) = insert_sorted-IsSorted x (sort_by-IsSorted xs)

  insert_sorted_comm :
      (x y : A) (l : List A)
      → key x ≢ key y
      → insert_sorted x (insert_sorted y l) ≡ insert_sorted y (insert_sorted x l)
  unfolding insert_sorted
  insert_sorted_comm x y [] ne =
      ground (arith, lex_leb_antisymm (key x) (key y), lex_leb_total (key x) (key y))
  insert_sorted_comm x y (z ∷ zs) ne = ground (
    arith,
    lex_leb_antisymm (key x) (key y),
    lex_leb_total (key x) (key y),
    lex_leb_trans (key x) (key y) (key z),
    lex_leb_trans (key y) (key x) (key z),
    lex_leb_total (key x) (key z),
    lex_leb_total (key y) (key z),
    lex_leb_trans (key x) (key z) (key y),
    lex_leb_trans (key y) (key z) (key x),
    insert_sorted_comm x y zs ne,
  )

  -- With keys that are all different the result depends on the items alone, not on their order.
  sort_by-eq_of_permᴰ : {l r : List A} → Permᴰ l r → Nodup (map key l) → sort_by l ≡ sort_by r
  unfolding sort_by
  sort_by-eq_of_permᴰ Permᴰ.nil n = refl
  sort_by-eq_of_permᴰ (Permᴰ.cons e p) n =
      ap₂ insert_sorted e (sort_by-eq_of_permᴰ p (Nodup-cons.0 n).1)
  sort_by-eq_of_permᴰ (Permᴰ.swap {a = x} {b = y} {l = l} e f) n =
      insert_sorted_comm x y (sort_by l) (λ g. (Nodup-cons.0 n).0 (rw g mem-cons_self))
      ∙ ap₂ (λ a b. insert_sorted b (insert_sorted a (sort_by l))) e f
  sort_by-eq_of_permᴰ (Permᴰ.trans p q) n =
      sort_by-eq_of_permᴰ p n ∙ sort_by-eq_of_permᴰ q (Perm.nodup (Perm.map key ∣ p ∣₁) n)

  pub sort_by-eq_of_perm :
      IsSet A → {l r : List A} → Perm l r → Nodup (map key l) → sort_by l ≡ sort_by r
  sort_by-eq_of_perm A_set p n = ∥∥₁_elim p (is_set A_set _ _) (λ q. sort_by-eq_of_permᴰ q n)

  -- `min(xs, key=...)` of a list with a head: the first of the least items.
  unfoldable pub min_by : A → List A → A
  unfolding lex_leb
  min_by x [] = x
  min_by x (y ∷ ys) = min_by (if lex_leb (key x) (key y) then x else y) ys
