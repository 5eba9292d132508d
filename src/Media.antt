-- ===== src/Media.antt =====
-- app/media/multipart.py: the reader of uploads, on lists of bytes.
pub mod Parts
pub mod Reading
use emoselfie_be.Prelude.{
  ℕ, zero, suc, ◌+◌, ◌-◌, Bool, true, false, not, ◌&&◌, ◌||◌, Option, none, some, List, [], ◌∷◌,
  ◌++◌, ltb, leb, ◌==◌, if◌then◌else◌, length, all, any, nonempty, ℤ, ltb_ℤ, pos,
}
use emoselfie_be.Core.Errors.{
  Result, ok, err, app, value_error, payload_too_large, unsupported_media,
}
use emoselfie_be.Core.Security.{text_eq}
use emoselfie_be.Core.Text.{is_digit, int_of, split, partition, strip, is_ascii}

abbrev pub max_parts : ℕ
max_parts = 8

abbrev pub max_header_bytes : ℕ
max_header_bytes = 8192

-- `declared.isdigit()` of a header, which is Latin-1: superscripts are digits too.
abbrev pub all_digits : List ℕ → Bool
all_digits text =
    nonempty text && all (λ c. is_digit c || ((c == 178) || ((c == 179) || (c == 185)))) text

-- The loop of `read_capped` over the chunks of the stream.
unfoldable pub read_chunks : ℕ → List ℕ → List (List ℕ) → Result (List ℕ)
read_chunks limit body [] = ok body
read_chunks limit body (chunk ∷ chunks) =
    let rest = read_chunks limit (body ++ chunk) chunks in
    if ltb limit (length (body ++ chunk)) then err (app payload_too_large) else rest

unfoldable pub read_capped : Option (List ℕ) → List (List ℕ) → ℕ → Result (List ℕ)
unfolding int_of read_chunks
read_capped none chunks limit = read_chunks limit [] chunks
read_capped (some declared) chunks limit =
    if all_digits declared
    then elim (int_of declared) [
      | none ↦ err value_error
      | some n ↦
          if ltb_ℤ (pos limit) n then err (app payload_too_large) else read_chunks limit [] chunks
    ]
    else read_chunks limit [] chunks

-- `text.lower()`, for a comparison with ASCII text
abbrev pub lower : List ℕ → List ℕ
lower [] = []
lower (c ∷ cs) = (if leb 65 c && leb c 90 then c + 32 else c) ∷ lower cs

unfoldable pub starts_with : List ℕ → List ℕ → Bool
starts_with [] text = true
starts_with (x ∷ xs) [] = false
starts_with (x ∷ xs) (y ∷ ys) = (x == y) && starts_with xs ys

-- `str.strip` takes these of Latin-1, and `bytes.strip` the second.
abbrev pub is_text_space : ℕ → Bool
is_text_space c = (leb 9 c && leb c 13) || ((leb 28 c && leb c 32) || ((c == 133) || (c == 160)))

abbrev pub is_byte_space : ℕ → Bool
is_byte_space c = (leb 9 c && leb c 13) || (c == 32)

abbrev pub is_quote : ℕ → Bool
is_quote c = c == 34

abbrev pub tail : List (List ℕ) → List (List ℕ)
tail [] = []
tail (x ∷ xs) = xs

abbrev pub multipart_type : List ℕ
multipart_type =
    b'm' ∷ b'u' ∷ b'l' ∷ b't' ∷ b'i' ∷ b'p' ∷ b'a' ∷ b'r' ∷ b't' ∷ b'/' ∷ b'f' ∷ b'o' ∷ b'r' ∷ b'm'
    ∷ b'-' ∷ b'd' ∷ b'a' ∷ b't' ∷ b'a' ∷ []

abbrev pub boundary_name : List ℕ
boundary_name = b'b' ∷ b'o' ∷ b'u' ∷ b'n' ∷ b'd' ∷ b'a' ∷ b'r' ∷ b'y' ∷ []

abbrev pub field_name : List ℕ
field_name = b'n' ∷ b'a' ∷ b'm' ∷ b'e' ∷ []

abbrev pub disposition : List ℕ
disposition =
    b'c' ∷ b'o' ∷ b'n' ∷ b't' ∷ b'e' ∷ b'n' ∷ b't' ∷ b'-' ∷ b'd' ∷ b'i' ∷ b's' ∷ b'p' ∷ b'o' ∷ b's'
    ∷ b'i' ∷ b't' ∷ b'i' ∷ b'o' ∷ b'n' ∷ []

-- The first `name=value` parameter of the name, without blanks and quotes.
unfoldable pub parameter : List ℕ → List (List ℕ) → Option (List ℕ)
unfolding partition strip text_eq
parameter wanted [] = none
parameter wanted (p ∷ ps) =
    let rest = parameter wanted ps in
    let (name, value) = partition b'=' (strip is_text_space p) in
    if text_eq (lower (strip is_text_space name)) wanted
    then some (strip is_quote (strip is_text_space value))
    else rest

unfoldable pub boundary_of : Option (List ℕ) → Result (List ℕ)
unfolding starts_with split parameter
boundary_of none = err (app unsupported_media)
boundary_of (some content_type) =
    if not (starts_with multipart_type (lower content_type))
    then err (app unsupported_media)
    else elim (parameter boundary_name (tail (split b';' content_type))) [
      | none ↦ err (app unsupported_media)
      | some value ↦
          if not (leb 1 (length value) && leb (length value) 70) || not (is_ascii value)
          then err (app unsupported_media)
          else ok value
    ]

-- `text.split(separator)` and `text.partition(separator)`; a match is skipped byte by byte.
abbrev pub cons_head : ℕ → List (List ℕ) → List (List ℕ)
cons_head x [] = (x ∷ []) ∷ []
cons_head x (xs ∷ xss) = (x ∷ xs) ∷ xss

unfoldable pub split_by : List ℕ → ℕ → List ℕ → List (List ℕ)
unfolding starts_with
split_by separator skip [] = [] ∷ []
split_by separator (suc n) (x ∷ xs) = split_by separator n xs
split_by separator zero (x ∷ xs) =
    let found = split_by separator (length separator - 1) xs in
    let rest = split_by separator 0 xs in
    if starts_with separator (x ∷ xs) then [] ∷ found else cons_head x rest

abbrev pub slice_from : ℕ → List ℕ → List ℕ
slice_from zero xs = xs
slice_from (suc n) [] = []
slice_from (suc n) (x ∷ xs) = slice_from n xs

unfoldable pub partition_by : List ℕ → List ℕ → Option (List ℕ × List ℕ)
unfolding starts_with
partition_by separator [] = none
partition_by separator (x ∷ xs) =
    let rest = partition_by separator xs in
    if starts_with separator (x ∷ xs)
    then some ([], slice_from (length separator) (x ∷ xs))
    else elim rest [ none ↦ none | some (head, payload) ↦ some (x ∷ head, payload) ]

-- `separator in text`
unfoldable pub occurs : List ℕ → List ℕ → Bool
unfolding starts_with
occurs separator [] = not (nonempty separator)
occurs separator (x ∷ xs) = starts_with separator (x ∷ xs) || occurs separator xs

abbrev pub crlf : List ℕ
crlf = 13 ∷ 10 ∷ []

abbrev pub empty_line : List ℕ
empty_line = 13 ∷ 10 ∷ 13 ∷ 10 ∷ []

-- The loop of `_disposition_name` over the lines of the headers.
unfoldable pub name_in : List (List ℕ) → Option (List ℕ)
unfolding partition strip text_eq split parameter
name_in [] = none
name_in (line ∷ lines) =
    let rest = name_in lines in
    let (name, value) = partition b':' line in
    if not (text_eq (lower (strip is_byte_space name)) disposition)
    then rest
    else elim (parameter field_name (tail (split b';' value))) [
      | none ↦ rest
      | some found ↦ some found
    ]

unfoldable pub disposition_name : List ℕ → Option (List ℕ)
unfolding split_by name_in
disposition_name headers = name_in (split_by crlf 0 headers)

unfoldable pub is_named : List ℕ → Option (List ℕ) → Bool
unfolding text_eq
is_named field none = false
is_named field (some name) = text_eq name field

-- The loop of `read_part` over the segments.
unfoldable pub read_segments : List (List ℕ) → List ℕ → Result (List ℕ)
unfolding starts_with partition_by disposition_name is_named
read_segments [] field = err (app unsupported_media)
read_segments (segment ∷ segments) field =
    let rest = read_segments segments field in
    if starts_with (b'-' ∷ b'-' ∷ []) segment
    then err (app unsupported_media)
    else if not (starts_with crlf segment)
    then err (app unsupported_media)
    else elim (partition_by empty_line (slice_from 2 segment)) [
      | none ↦ err (app unsupported_media)
      | some (head, payload) ↦
          if ltb max_header_bytes (length head)
          then err (app unsupported_media)
          else if is_named field (disposition_name head)
          then ok payload
          else rest
    ]

-- `segments[0] = segments[0][len(delimiter):]`
abbrev pub trim_first : ℕ → List (List ℕ) → List (List ℕ)
trim_first n [] = []
trim_first n (x ∷ xs) = slice_from n x ∷ xs

abbrev pub delimiter_of : List ℕ → List ℕ
delimiter_of boundary = b'-' ∷ b'-' ∷ boundary

unfoldable pub read_part : List ℕ → List ℕ → List ℕ → Result (List ℕ)
unfolding starts_with occurs split_by read_segments
read_part body boundary field =
    let delimiter = delimiter_of boundary in
    let closing = crlf ++ delimiter ++ (b'-' ∷ b'-' ∷ []) in
    let segments = trim_first (length delimiter) (split_by (crlf ++ delimiter) 0 body) in
    if not (starts_with delimiter body) || not (occurs closing body)
    then err (app unsupported_media)
    else if ltb max_parts (length segments)
    then err (app unsupported_media)
    else read_segments segments field
