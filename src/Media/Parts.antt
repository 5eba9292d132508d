-- ===== src/Media/Parts.antt =====
-- app/media/multipart.py: lemmas on splitting and joining at a separator.
use emoselfie_be.Prelude.{
  ℕ, suc, ◌-◌, ◌≤◌, ◌≡◌, refl, sym, ◌∙◌, ap, Bool, true, false, some, List, [], ◌∷◌, ◌++◌, arith,
  ◌==◌, ==_refl, length, length-append,
}
use emoselfie_be.Prelude.Sets.{has}
use emoselfie_be.Media.{starts_with, split_by, slice_from, partition_by, occurs, empty_line}

pub starts-append : (xs ys : List ℕ) → starts_with xs (xs ++ ys) ≡ true
unfolding starts_with
starts-append [] ys = refl
starts-append (x ∷ xs) ys = rw (==_refl x) (starts-append xs ys)

pub starts_refl : (xs : List ℕ) → starts_with xs xs ≡ true
unfolding starts_with
starts_refl [] = refl
starts_refl (x ∷ xs) = rw (==_refl x) (starts_refl xs)

-- A text without the byte `c` that a text begins with ends before that byte.
starts_before :
    (u s w : List ℕ) (c : ℕ)
    → has c u ≡ false
    → starts_with u (s ++ (c ∷ w)) ≡ true
    → starts_with u s ≡ true
unfolding starts_with
starts_before [] s w c n h = refl
starts_before (x ∷ u) [] w c n h = absurd (ground arith)
starts_before (x ∷ u) (y ∷ s) w c n h = ground (arith, starts_before u s w c)

not_true-of_false : (b d : Bool) → (b ≡ true → d ≡ true) → d ≡ false → b ≡ false
not_true-of_false true d h n = absurd (let y = h refl in cc)
not_true-of_false false d h n = refl

skip-all :
    (separator skipped rest : List ℕ)
    → split_by separator (length skipped) (skipped ++ rest) ≡ split_by separator 0 rest
unfolding split_by
skip-all separator [] rest = refl
skip-all separator (x ∷ xs) rest = skip-all separator xs rest

-- A separator of a first byte that it has only there splits a text off in which it does not occur.
pub split_by-append :
    (c : ℕ) (t segment rest : List ℕ)
    → has c t ≡ false
    → occurs (c ∷ t) segment ≡ false
    → split_by (c ∷ t) 0 (segment ++ ((c ∷ t) ++ rest)) ≡ segment ∷ split_by (c ∷ t) 0 rest
unfolding split_by occurs starts_with
split_by-append c t [] rest n h =
    let skip : suc (length t) - 1 ≡ length t = omega arith in
    rw (==_refl c, starts-append t rest, skip) (ap (◌∷◌ []) (skip-all (c ∷ t) t rest))
split_by-append c t (x ∷ xs) rest n h =
    let here : starts_with (c ∷ t) (x ∷ xs ++ ((c ∷ t) ++ rest)) ≡ false =
      not_true-of_false _ (starts_with (c ∷ t) (x ∷ xs))
        (λ y. let b = starts_before t xs (t ++ rest) c n (ground arith) in ground arith)
        (ground arith) in
    rw (here, split_by-append c t xs rest n (ground arith)) refl

pub split_by-single :
    (c : ℕ) (t segment : List ℕ)
    → occurs (c ∷ t) segment ≡ false
    → split_by (c ∷ t) 0 segment ≡ segment ∷ []
unfolding split_by occurs
split_by-single c t [] h = refl
split_by-single c t (x ∷ xs) h =
    let here : starts_with (c ∷ t) (x ∷ xs) ≡ false = ground arith in
    rw (here, split_by-single c t xs (ground arith)) refl

-- A prefix that fits is one of the whole text exactly if it is one of the part.
starts_fits : (u v w : List ℕ) → length u ≤ length v → starts_with u (v ++ w) ≡ starts_with u v
unfolding starts_with
starts_fits [] v w h = refl
starts_fits (x ∷ u) [] w h = absurd (omega (arith, h))
starts_fits (x ∷ u) (y ∷ v) w h = rw (starts_fits u v w (omega (arith, h))) refl

pub slice_from-append : (xs ys : List ℕ) → slice_from (length xs) (xs ++ ys) ≡ ys
slice_from-append [] ys = refl
slice_from-append (x ∷ xs) ys = slice_from-append xs ys

pub append_assoc : (xs ys zs : List ℕ) → ((xs ++ ys) ++ zs) ≡ (xs ++ (ys ++ zs))
append_assoc [] ys zs = refl
append_assoc (x ∷ xs) ys zs = ap (◌∷◌ x) (append_assoc xs ys zs)

-- Headers are cut off at the empty line behind them, if that is the first one.
pub partition_by-append :
    (head payload : List ℕ)
    → occurs empty_line (head ++ (13 ∷ 10 ∷ 13 ∷ [])) ≡ false
    → partition_by empty_line (head ++ (empty_line ++ payload)) ≡ some (head, payload)
unfolding partition_by occurs starts_with
partition_by-append [] payload h = refl
partition_by-append (x ∷ xs) payload h =
    let here : starts_with empty_line ((x ∷ xs) ++ (empty_line ++ payload)) ≡ false =
      ap (starts_with empty_line) (sym (append_assoc (x ∷ xs) (13 ∷ 10 ∷ 13 ∷ []) (10 ∷ payload)))
      ∙ starts_fits empty_line ((x ∷ xs) ++ (13 ∷ 10 ∷ 13 ∷ [])) (10 ∷ payload)
          (omega (arith, length-append xs (13 ∷ 10 ∷ 13 ∷ [])))
      ∙ (ground arith) in
    rw (here, partition_by-append xs payload (ground arith)) refl

pub occurs-append : (s xs ys : List ℕ) → occurs s ys ≡ true → occurs s (xs ++ ys) ≡ true
unfolding occurs
occurs-append s [] ys h = h
occurs-append s (x ∷ xs) ys h = ground (arith, occurs-append s xs ys h)

pub occurs-prefix :
    (c : ℕ) (t xs s : List ℕ) → has c xs ≡ false → occurs (c ∷ t) (xs ++ s) ≡ occurs (c ∷ t) s
unfolding occurs starts_with
occurs-prefix c t [] s n = refl
occurs-prefix c t (x ∷ xs) s n =
    let apart : (c == x) ≡ false = ground arith in rw apart (occurs-prefix c t xs s (ground arith))
