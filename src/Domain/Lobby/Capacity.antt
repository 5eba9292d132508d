-- ===== src/Domain/Lobby/Capacity.antt =====
-- `join_room`: the room's capacity and its colours.
use mathlib.Core.List.{map-append}
use emoselfie_be.Prelude.{
  ℕ, zero, suc, ◌+◌, ◌≤◌, ◌<◌, ◌≡◌, refl, sym, ◌∙◌, true, false, ◌&&◌, Option, none, some, List, [],
  ◌∷◌, ◌++◌, map, arith, ◌==◌, ==_iff, ap, ◌||◌, length-append, length, All, Bool-cases, inl, inr,
}
use emoselfie_be.Prelude.Sets.{has, discard, has-discard, IsDistinct}
use emoselfie_be.Db.{Participant}
use emoselfie_be.Domain.Store.{put_member}
use emoselfie_be.Domain.Lobby.{is_occupying, capacity, occupants, colors, first_free, choose_color}

length-discard_le : (x : ℕ) (s : List ℕ) → length (discard x s) ≤ length s
length-discard_le x [] = omega arith
length-discard_le x (y ∷ ys) = ground (arith, length-discard_le x ys)

length-discard_lt : (x : ℕ) (s : List ℕ) → has x s ≡ true → length (discard x s) < length s
length-discard_lt x [] h = absurd (ground arith)
length-discard_lt x (y ∷ ys) h = ground (arith, length-discard_le x ys, length-discard_lt x ys)

first_free-discard :
    (n i j : ℕ) (s : List ℕ) → i < j → first_free n j (discard i s) ≡ first_free n j s
unfolding first_free
first_free-discard zero i j s h = refl
first_free-discard (suc n) i j s h =
    ground (arith, first_free-discard n i (j + 1) s, has-discard j i s)

-- A range with more indices than there are used ones has a free index.
pub first_free-some :
    (n i : ℕ) (s : List ℕ)
    → length s < n
    → (c : ℕ) × (first_free n i s ≡ some c) × (has c s ≡ false) × (i ≤ c) × (c < i + n)
unfolding first_free
first_free-some zero i s h = absurd (omega (arith, h))
first_free-some (suc n) i s h = elim (Bool-cases (has i s)) [
  | inr free ↦ (i, rw free refl, free, omega arith, omega arith)
  | inl used ↦
      let (c, found, new, above, below) =
        first_free-some n (i + 1) (discard i s)
          (let d = length-discard_lt i s used in omega arith) in
      (
        c,
        rw used (sym (first_free-discard n i (i + 1) s (omega arith)) ∙ found),
        (let d = has-discard c i s in ground arith),
        omega arith,
        omega arith,
      )
]

-- With fewer than twelve occupants there is a colour for one more, which nobody has.
pub choose_color-some :
    (old : Option Participant) (s : List ℕ)
    → length s < capacity
    → (c : ℕ) × (choose_color old s ≡ some c) × (has c s ≡ false)
unfolding choose_color
choose_color-some none s h =
    let (c, found, new, _, _) = first_free-some capacity 0 s h in (c, found, new)
choose_color-some (some m) s h = elim (Bool-cases (has m.color_tag s)) [
  | inr free ↦ (m.color_tag, rw free refl, free)
  | inl used ↦ let (c, found, new, _, _) = first_free-some capacity 0 s h in (c, rw used found, new)
]

abbrev pub member_ids : List Participant → List ℕ
member_ids = map (λ m. m.id)

-- The members have different ids, and at most twelve occupy the room, in different colours.
abbrev pub IsSeated : List Participant → Type 0
IsSeated ms =
    IsDistinct (member_ids ms)
    × IsDistinct (colors (occupants ms))
    × (length (occupants ms) ≤ capacity)

has-append : (x y : ℕ) (xs : List ℕ) → has x (xs ++ y ∷ []) ≡ (has x xs || (x == y))
has-append x y [] = ground arith
has-append x y (z ∷ zs) = ground (arith, has-append x y zs)

append-IsDistinct :
    (x : ℕ) (xs : List ℕ) → IsDistinct xs → has x xs ≡ false → IsDistinct (xs ++ x ∷ [])
append-IsDistinct x [] d h = (refl, tt)
append-IsDistinct x (y ∷ ys) d h = ground (arith, append-IsDistinct x ys d.1, has-append y x ys)

occupants-append :
    (m : Participant) (ms : List Participant)
    → is_occupying m ≡ true
    → occupants (ms ++ m ∷ []) ≡ occupants ms ++ m ∷ []
occupants-append m [] h = rw h refl
occupants-append m (x ∷ xs) h = elim (Bool-cases (is_occupying x)) [
  | inl y ↦ rw y (ap (◌∷◌ x) (occupants-append m xs h))
  | inr n ↦ rw n (occupants-append m xs h)
]

pub seat_new :
    (m : Participant) (ms : List Participant)
    → IsSeated ms
    → is_occupying m ≡ true
    → has m.id (member_ids ms) ≡ false
    → has m.color_tag (colors (occupants ms)) ≡ false
    → length (occupants ms) < capacity
    → IsSeated (ms ++ m ∷ [])
seat_new m ms h o new free room =
    rw
      (
        occupants-append m ms o,
        map-append (λ (x : Participant). x.id) ms (m ∷ []),
        map-append (λ (x : Participant). x.color_tag) (occupants ms) (m ∷ []),
        length-append (occupants ms) (m ∷ []),
      )
      (
        append-IsDistinct m.id (member_ids ms) h.0 new,
        append-IsDistinct m.color_tag (colors (occupants ms)) h.1 free,
        (let k = h.2 in omega arith),
      )

pub ids-put :
    (m : Participant) (ms : List Participant) → member_ids (put_member m ms) ≡ member_ids ms
ids-put m [] = refl
ids-put m (x ∷ xs) = elim (Bool-cases (x.id == m.id)) [
  | inl y ↦ rw (y, (==_iff x.id m.id).0 y) (ap (◌∷◌ m.id) (ids-put m xs))
  | inr n ↦ rw n (ap (◌∷◌ x.id) (ids-put m xs))
]

put_absent :
    (m : Participant) (ms : List Participant)
    → has m.id (member_ids ms) ≡ false
    → put_member m ms ≡ ms
put_absent m [] h = refl
put_absent m (x ∷ xs) h = ground (arith, put_absent m xs)

-- The row with this id, if there is one, does not occupy the room.
abbrev pub IsVacant : ℕ → List Participant → Type 0
IsVacant i ms = All (λ x. ((x.id == i) && is_occupying x) ≡ false) ms

has-put :
    (m : Participant) (ms : List Participant) (c : ℕ)
    → has c (colors (occupants (put_member m ms))) ≡ true
    → (has c (colors (occupants ms)) || (c == m.color_tag)) ≡ true
has-put m [] c h = absurd (ground arith)
has-put m (x ∷ xs) c h = ground (arith, has-put m xs c)

pub seat_old :
    (m : Participant) (ms : List Participant)
    → IsDistinct (member_ids ms)
    → IsVacant m.id ms
    → is_occupying m ≡ true
    → IsDistinct (colors (occupants ms))
    → has m.color_tag (colors (occupants ms)) ≡ false
    → IsDistinct (colors (occupants (put_member m ms)))
      × (length (occupants (put_member m ms)) ≤ length (occupants ms) + 1)
seat_old m [] d v o dc free = (tt, omega arith)
seat_old m (x ∷ xs) d v o dc free = elim (Bool-cases (x.id == m.id)) [
  | inl y ↦
      let alone = put_absent m xs (rw (← (==_iff x.id m.id).0 y) d.0) in
      rw (y, alone) (ground arith)
  | inr n ↦ rw n (ground (arith, seat_old m xs d.1 v.1 o, has-put m xs x.color_tag))
]
