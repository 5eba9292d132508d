-- ===== src/Media/Reading.antt =====
-- `read_part` of app/media/multipart.py on a form that a client writes.
use emoselfie_be.Prelude.{
  ℕ, ◌≤◌, ◌<◌, ◌≡◌, refl, sym, ◌∙◌, ap, true, false, List, [], ◌∷◌, ◌++◌, arith, ltb, if◌then◌else◌,
  length, All, map, length-append, length-map,
}
use emoselfie_be.Prelude.Sets.{has}
use emoselfie_be.Core.Errors.{Result, ok, err, app, unsupported_media}
use emoselfie_be.Media.{
  starts_with, split_by, occurs, empty_line, crlf, disposition_name, is_named, read_segments,
  read_part, delimiter_of, max_parts, max_header_bytes,
}
use emoselfie_be.Media.Parts.{
  starts-append, starts_refl, split_by-append, split_by-single, partition_by-append, occurs-append,
  append_assoc, slice_from-append, occurs-prefix,
}

-- A part of a form: its headers and its bytes.
pub record Part : Type 0 where
  pub head : List ℕ
  pub payload : List ℕ

abbrev pub segment_of : Part → List ℕ
segment_of p = crlf ++ (p.head ++ (empty_line ++ p.payload))

-- The parts that follow the first, and the closing delimiter.
abbrev pub written_rest : List ℕ → List Part → List ℕ
written_rest separator [] = separator ++ (45 ∷ 45 ∷ [])
written_rest separator (p ∷ ps) = separator ++ (segment_of p ++ written_rest separator ps)

-- A form of a first part and others, as a browser writes it.
abbrev pub written : List ℕ → Part → List Part → List ℕ
written boundary p ps =
    delimiter_of boundary ++ (segment_of p ++ written_rest (crlf ++ delimiter_of boundary) ps)

-- The delimiter does not stand inside the part, its headers end at their first empty line, and they are
-- not too long.
pub record IsPart (boundary : List ℕ) (p : Part) : Type 0 where
  pub apart : occurs (crlf ++ delimiter_of boundary) (segment_of p) ≡ false
  pub ends : occurs empty_line (p.head ++ (13 ∷ 10 ∷ 13 ∷ [])) ≡ false
  pub short : length p.head ≤ max_header_bytes

-- What is asked for: the bytes of the first part of that name.
unfoldable pub first_named : List ℕ → List Part → Result (List ℕ)
unfolding disposition_name is_named
first_named field [] = err (app unsupported_media)
first_named field (p ∷ ps) =
    let rest = first_named field ps in
    if is_named field (disposition_name p.head) then ok p.payload else rest

split-rest :
    (boundary segment : List ℕ) (ps : List Part)
    → has 13 boundary ≡ false
    → occurs (crlf ++ delimiter_of boundary) segment ≡ false
    → All (IsPart boundary) ps
    → split_by
        (crlf ++ delimiter_of boundary)
        0
        (segment ++ written_rest (crlf ++ delimiter_of boundary) ps)
      ≡ segment ∷ (map segment_of ps ++ (45 ∷ 45 ∷ []) ∷ [])
unfolding occurs starts_with
split-rest b segment [] n apart h =
    split_by-append 13 (10 ∷ delimiter_of b) segment (45 ∷ 45 ∷ []) (ground arith) apart
    ∙ ap (◌∷◌ segment) (split_by-single 13 (10 ∷ delimiter_of b) (45 ∷ 45 ∷ []) refl)
split-rest b segment (p ∷ ps) n apart h =
    split_by-append 13 (10 ∷ delimiter_of b) segment _ (ground arith) apart
    ∙ ap (◌∷◌ segment) (split-rest b (segment_of p) ps n h.0.apart h.1)

read_segments-first_named :
    (boundary field : List ℕ) (ps : List Part)
    → All (IsPart boundary) ps
    → read_segments (map segment_of ps ++ (45 ∷ 45 ∷ []) ∷ []) field ≡ first_named field ps
unfolding read_segments first_named starts_with
read_segments-first_named b field [] h = refl
read_segments-first_named b field (p ∷ ps) h =
    let fits : ltb max_header_bytes (length p.head) ≡ false = (let s = h.0.short in ground arith) in
    rw
      (
        partition_by-append p.head p.payload h.0.ends,
        fits,
        read_segments-first_named b field ps h.1,
      )
      refl

abbrev closing_of : List ℕ → List ℕ
closing_of boundary = crlf ++ (delimiter_of boundary ++ (45 ∷ 45 ∷ []))

occurs-closing :
    (boundary : List ℕ) (ps : List Part)
    → occurs (closing_of boundary) (written_rest (crlf ++ delimiter_of boundary) ps) ≡ true
unfolding occurs starts_with
occurs-closing b [] = rw (starts_refl (b ++ (45 ∷ 45 ∷ []))) refl
occurs-closing b (p ∷ ps) =
    let rest = written_rest (crlf ++ delimiter_of b) ps in
    occurs-append (closing_of b) (crlf ++ delimiter_of b) (segment_of p ++ rest)
      (occurs-append (closing_of b) (segment_of p) rest (occurs-closing b ps))

-- A form that is written of parts, of which the delimiter stands in none, is read as the bytes of its
-- first part of the wanted name, and refused if there is none. The boundary is a text of one line, each
-- part has headers of at most 8192 bytes that end at their first empty line, and there are at
-- most seven parts.
pub read_part-written :
    (boundary field : List ℕ) (p : Part) (ps : List Part)
    → has 13 boundary ≡ false
    → All (IsPart boundary) (p ∷ ps)
    → length (p ∷ ps) < max_parts
    → read_part (written boundary p ps) boundary field ≡ first_named field (p ∷ ps)
unfolding read_part
read_part-written b field p ps n h few =
    let sep = crlf ++ delimiter_of b in
    let body = written b p ps in
    let starts = starts-append (delimiter_of b) (segment_of p ++ written_rest sep ps) in
    let closing : occurs (closing_of b) body ≡ true =
      occurs-append (closing_of b) (delimiter_of b) (segment_of p ++ written_rest sep ps)
        (occurs-append (closing_of b) (segment_of p) (written_rest sep ps) (occurs-closing b ps)) in
    let apart : occurs sep (delimiter_of b ++ segment_of p) ≡ false =
      occurs-prefix 13 (10 ∷ delimiter_of b) (delimiter_of b) (segment_of p) (ground arith)
      ∙ h.0.apart in
    let parts : split_by sep 0 body
        ≡ (delimiter_of b ++ segment_of p) ∷ (map segment_of ps ++ (45 ∷ 45 ∷ []) ∷ []) =
      ap (split_by sep 0) (sym (append_assoc (delimiter_of b) (segment_of p) (written_rest sep ps)))
      ∙ split-rest b (delimiter_of b ++ segment_of p) ps n apart h.1 in
    let size : ltb max_parts (length (segment_of p ∷ (map segment_of ps ++ (45 ∷ 45 ∷ []) ∷ [])))
        ≡ false =
      ground (
        arith,
        length-append (map segment_of ps) ((45 ∷ 45 ∷ []) ∷ []),
        length-map segment_of ps,
      ) in
    rw (starts, closing, parts, slice_from-append (delimiter_of b) (segment_of p), size)
      (read_segments-first_named b field (p ∷ ps) h)
