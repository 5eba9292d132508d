-- ===== src/Inference/Faces.antt =====
-- app/inference/pipeline.py: `FaceBox` and `largest_face`.
use emoselfie_be.Prelude.{
  ℕ, ◌+◌, ◌-◌, ◌*◌, min, ◌||◌, ◌==◌, Option, none, some, List, [], ◌∷◌, ltb, leb, if◌then◌else◌, ℤ,
  pos, pos_part, neg_part,
}
use emoselfie_be.Core.Errors.{Result, ok, err, value_error}

pub record FaceBox : Type 0 where
  pub x : ℤ
  pub y : ℤ
  pub width : ℕ
  pub height : ℕ

-- `FaceBox(x, y, width, height)` with its check of the dimensions
unfoldable pub face_box : ℤ → ℤ → ℤ → ℤ → Result FaceBox
face_box x y width height =
    if (pos_part width == 0) || (pos_part height == 0)
    then err value_error
    else ok (record { x = x; y = y; width = pos_part width; height = pos_part height })

abbrev pub area : FaceBox → ℕ
area b = b.width * b.height

-- `max(0, x)` and `min(limit, x + size)`, where a negative edge counts as 0: both are skipped.
abbrev pub near_edge : ℤ → ℕ
near_edge x = pos_part x

abbrev pub far_edge : ℤ → ℕ → ℕ → ℕ
far_edge x size limit = min limit (pos_part x + size - neg_part x)

-- The part of a box inside the image, if there is one.
unfoldable pub clipped : ℕ → ℕ → FaceBox → Option FaceBox
clipped width height b =
    let left = near_edge b.x in
    let top = near_edge b.y in
    let right = far_edge b.x b.width width in
    let bottom = far_edge b.y b.height height in
    if leb right left || leb bottom top
    then none
    else some (record { x = pos left; y = pos top; width = right - left; height = bottom - top })

abbrev pub better : Option FaceBox → FaceBox → Option FaceBox
better none candidate = some candidate
better (some best) candidate =
    if ltb (area best) (area candidate) then some candidate else some best

-- The loop of `largest_face`.
unfoldable pub choose_face : ℕ → ℕ → Option FaceBox → List FaceBox → Option FaceBox
unfolding clipped
choose_face width height best [] = best
choose_face width height best (b ∷ boxes) =
    choose_face width height
      (elim (clipped width height b) [ none ↦ best | some candidate ↦ better best candidate ]) boxes

unfoldable pub largest_face : List FaceBox → ℕ × ℕ → Option FaceBox
unfolding choose_face
largest_face boxes (width, height) = choose_face width height none boxes
