-- ===== src/Inference/Largest.antt =====
-- `largest_face` of app/inference/pipeline.py: which face is scored.
use mathlib.Core.List.{Mem, mem-cons_self, mem-cons_of_mem}
use emoselfie_be.Prelude.{
  ℕ, ◌+◌, ◌-◌, ◌*◌, ◌≤◌, ◌≡◌, ◌⊎◌, refl, sym, ◌∙◌, Bool, ◌&&◌, ◌||◌, Option, none, some, List, [],
  ◌∷◌, arith, ltb, leb, Bool-cases, inl, inr, All, ℤ, pos, negsuc, pos_part, neg_part,
}
use emoselfie_be.Inference.Faces.{
  FaceBox, area, near_edge, far_edge, clipped, better, choose_face, largest_face,
}

-- Whether a number lies in the interval of a size from a signed start.
abbrev pub in_span : ℤ → ℕ → ℕ → Bool
in_span x size p = leb (pos_part x) (p + neg_part x) && ltb (p + neg_part x) (pos_part x + size)

-- Whether a pixel belongs to a box.
abbrev pub covers : FaceBox → ℕ → ℕ → Bool
covers b px py = in_span b.x b.width px && in_span b.y b.height py

-- How many pixels of a row or column lie in a span.
abbrev pub overlap : ℤ → ℕ → ℕ → ℕ
overlap x size limit = far_edge x size limit - near_edge x

-- The number of pixels of a box inside the image.
abbrev pub visible_area : ℕ → ℕ → FaceBox → ℕ
visible_area width height b = overlap b.x b.width width * overlap b.y b.height height

abbrev pub area_of : Option FaceBox → ℕ
area_of none = 0
area_of (some b) = area b

-- A face is the visible part of a box: the pixels that both the box and the image have.
abbrev pub IsVisiblePart : ℕ → ℕ → FaceBox → FaceBox → Type 0
IsVisiblePart width height b f =
    (px py : ℕ) → covers f px py ≡ (covers b px py && (ltb px width && ltb py height))

span-clipped :
    (x : ℤ) (size limit p : ℕ)
    → in_span (pos (near_edge x)) (far_edge x size limit - near_edge x) p
      ≡ (in_span x size p && ltb p limit)
span-clipped (pos n) size limit p = ground arith
span-clipped (negsuc n) size limit p = ground arith

shuffle : (a b c d : Bool) → ((a && c) && (b && d)) ≡ ((a && b) && (c && d))
shuffle a b c d = ground arith

clipped-covers :
    (width height : ℕ) (b f : FaceBox)
    → clipped width height b ≡ some f
    → IsVisiblePart width height b f
unfolding clipped
clipped-covers width height b f h px py =
    elim (Bool-cases (
      leb (far_edge b.x b.width width) (near_edge b.x)
      || leb (far_edge b.y b.height height) (near_edge b.y))) [
        | inl y ↦ absurd (let e = rw y at h in cc)
        | inr n ↦
            let e = rw n at h in
            let sx = span-clipped b.x b.width width px in
            let sy = span-clipped b.y b.height height py in
            let same : record {
              x = pos (near_edge b.x);
              y = pos (near_edge b.y);
              width = far_edge b.x b.width width - near_edge b.x;
              height = far_edge b.y b.height height - near_edge b.y;
            }
                ≡ f =
              cc in
            rw (← same, sx, sy)
              (shuffle (in_span b.x b.width px) (in_span b.y b.height py) (ltb px width)
                (ltb py height))
      ]

clipped-area :
    (width height : ℕ) (b : FaceBox)
    → area_of (clipped width height b) ≡ visible_area width height b
unfolding clipped
clipped-area width height b = elim (Bool-cases (leb (far_edge b.x b.width width) (near_edge b.x))) [
  | inl y ↦
      let none_across : overlap b.x b.width width ≡ 0 = ground arith in
      rw (y, none_across) (omega arith)
  | inr n ↦ elim (Bool-cases (leb (far_edge b.y b.height height) (near_edge b.y))) [
    | inl y ↦
        let none_down : overlap b.y b.height height ≡ 0 = ground arith in
        rw (n, y, none_down) (omega arith)
    | inr m ↦ rw (n, m) refl
  ]
]

better-area :
    (o : Option FaceBox) (c : FaceBox)
    → (area_of o ≤ area_of (better o c)) × (area c ≤ area_of (better o c))
better-area none c = (omega arith, omega arith)
better-area (some b) c = elim (Bool-cases (ltb (area b) (area c))) [
  | inl y ↦ rw y (ground arith, omega arith)
  | inr n ↦ rw n (omega arith, ground arith)
]

better-one : (o : Option FaceBox) (c : FaceBox) → (better o c ≡ o) ⊎ (better o c ≡ some c)
better-one none c = inr refl
better-one (some b) c = elim (Bool-cases (ltb (area b) (area c))) [
  | inl y ↦ rw y (inr refl)
  | inr n ↦ rw n (inl refl)
]

-- The chosen face is at least as large as the best so far and as every visible part, and is one of them.
abbrev IsChosen : ℕ → ℕ → Option FaceBox → List FaceBox → Option FaceBox → Type 0
IsChosen width height best boxes r =
    (area_of best ≤ area_of r)
    × All (λ b. area_of (clipped width height b) ≤ area_of r) boxes
    × ((r ≡ best) ⊎ ((b : FaceBox) × Mem b boxes × (clipped width height b ≡ r)))

choose_face-IsChosen :
    (width height : ℕ) (best : Option FaceBox) (boxes : List FaceBox)
    → IsChosen width height best boxes (choose_face width height best boxes)
unfolding choose_face
choose_face-IsChosen width height best [] = (omega arith, tt, inl refl)
choose_face-IsChosen width height best (b ∷ boxes) =
    by_clip (clipped width height b) refl (λ o. choose_face-IsChosen width height o boxes)
  where
    by_clip :
        (o : Option FaceBox)
        → clipped width height b ≡ o
        → ((next : Option FaceBox)
            → IsChosen width height next boxes (choose_face width height next boxes))
        → IsChosen width height best
            (b ∷ boxes)
            (choose_face width height (elim o [ none ↦ best | some c ↦ better best c ]) boxes)
    by_clip none e rest =
        let (more, every, one) = rest best in
        (
          more,
          (rw e (omega arith), every),
          elim one [
            | inl same ↦ inl same
            | inr (x, inside, same) ↦ inr (x, mem-cons_of_mem b inside, same)
          ],
        )
    by_clip (some c) e rest =
        let (more, every, one) = rest (better best c) in
        let (old, new) = better-area best c in
        (
          omega (arith, more, old),
          (rw e (omega (arith, more, new)), every),
          elim one [
            | inl same ↦ elim (better-one best c) [
              | inl k ↦ inl (same ∙ k)
              | inr k ↦ inr (b, mem-cons_self, e ∙ sym (same ∙ k))
            ]
            | inr (x, inside, same) ↦ inr (x, mem-cons_of_mem b inside, same)
          ],
        )

-- What `largest_face` gives: no box has more visible pixels than the face, and the face is the visible
-- part of one of the boxes. Where it gives none, no box has a visible pixel.
abbrev pub IsLargest : ℕ → ℕ → List FaceBox → Option FaceBox → Type 0
IsLargest width height boxes none = All (λ b. visible_area width height b ≡ 0) boxes
IsLargest width height boxes (some f) =
    All (λ b. visible_area width height b ≤ area f) boxes
    × ((b : FaceBox) × Mem b boxes × IsVisiblePart width height b f)

-- The face that is scored is the visible part of a box of the detector, and no box has more visible
-- pixels; there is no face only if no box has a visible pixel.
pub largest_face-IsLargest :
    (boxes : List FaceBox) (width height : ℕ)
    → IsLargest width height boxes (largest_face boxes (width, height))
unfolding largest_face
largest_face-IsLargest boxes width height =
    by_result (choose_face width height none boxes) (choose_face-IsChosen width height none boxes)
  where
    areas :
        (bs : List FaceBox) (n : ℕ)
        → All (λ b. area_of (clipped width height b) ≤ n) bs
        → All (λ b. visible_area width height b ≤ n) bs
    areas [] n a = tt
    areas (b ∷ bs) n a = (rw (sym (clipped-area width height b)) a.0, areas bs n a.1)

    zeros :
        (bs : List FaceBox)
        → All (λ b. visible_area width height b ≤ 0) bs
        → All (λ b. visible_area width height b ≡ 0) bs
    zeros [] a = tt
    zeros (b ∷ bs) a = (omega (arith, a.0), zeros bs a.1)

    by_result :
        (r : Option FaceBox) → IsChosen width height none boxes r → IsLargest width height boxes r
    by_result none (_, every, _) = zeros boxes (areas boxes 0 every)
    by_result (some f) (_, every, one) = (
      areas boxes (area f) every,
      elim one [
        | inl same ↦ absurd cc
        | inr (b, inside, same) ↦ (b, inside, clipped-covers width height b f same)
      ],
    )
