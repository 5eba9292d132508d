-- ===== src/Tests/Uploads.antt =====
-- Concrete cookies, media tokens, forms, limits and faces.
use emoselfie_be.Prelude.{
  ℕ, ◌+◌, ◌-◌, ◌*◌, ◌%◌, ◌≤◌, ◌≡◌, refl, true, not, Option, none, some, List, [], ◌∷◌, ◌++◌, map,
  keep, arith, ◌==◌, if◌then◌else◌, length, take, ℤ, pos, negsuc,
}
use emoselfie_be.Core.Errors.{ok}
use emoselfie_be.Core.Security.{str, decimal_digits, text_eq}
use emoselfie_be.Core.Text.{is_ascii, partition, strip, lstrip, rstrip, split}
use emoselfie_be.Core.Cookies.{IsUser}
use emoselfie_be.Core.Media.{media_payload, media_token, verify_media_token, repeat}
use emoselfie_be.Core.MediaTokens.{IsBase64, IsSignature, verify-media_token}
use emoselfie_be.Core.Ratelimit.{Bucket, stored, bucket, filled, take_token}
use emoselfie_be.Core.Limits.{calls, calls-bounded}
use emoselfie_be.Media.{
  read_part, disposition_name, occurs, starts_with, is_named, name_in, split_by, parameter,
}
use emoselfie_be.Media.Reading.{Part, IsPart, written, first_named, read_part-written}
use emoselfie_be.Inference.Faces.{FaceBox, largest_face}
use emoselfie_be.Inference.Largest.{IsLargest, largest_face-IsLargest}
use emoselfie_be.Db.{Submission}
use emoselfie_be.Domain.Enums.{SubmissionStatus}
use emoselfie_be.Api.Media.{serve, serve_claims, IsServed, serve-IsServed}
use emoselfie_be.Tests.{plain_digest, pair}

-- Signatures that repeat the first byte of the secret, and one user.
abbrev pub first_byte : List ℕ → List ℕ → List ℕ
first_byte [] text = repeat 65 22
first_byte (c ∷ cs) text = repeat (65 + c % 26) 22

abbrev pub one_user : List ℕ
one_user = repeat 97 36

pub one_user-IsUser : IsUser first_byte (λ _. one_user) (λ _. some 1) (λ _. 4) 1
one_user-IsUser = record {
  reads = refl;
  random = refl;
  size = refl;
  ascii = refl;
  dotless = refl;
  signature_size = (λ secret. sized secret);
  signature_ascii = (λ secret. plain secret);
}
  where
    sized : (secret : List ℕ) → length (first_byte secret one_user) ≡ 22
    sized [] = refl
    sized (c ∷ cs) = refl

    plain : (secret : List ℕ) → is_ascii (first_byte secret one_user) ≡ true
    plain [] = refl
    plain (c ∷ cs) = ground arith

-- A code that moves digits and colons to capital letters, and ends in one sign of padding.
abbrev pub moved_up : List ℕ → List ℕ
moved_up bytes = map (λ c. c + 17) bytes ++ 61 ∷ []

abbrev pub moved_down : List ℕ → Option (List ℕ)
moved_down text = some (map (λ c. c - 17) (keep (λ c. not (c == 61)) text))

-- Round 7, submission 9, viewer 1, until 14000.
payload_7-IsBase64 : IsBase64 moved_up moved_down (media_payload 7 9 1 14000)
unfolding media_payload str decimal_digits
payload_7-IsBase64 = record {
  body = map (λ c. c + 17) (media_payload 7 9 1 14000);
  pads = 1;
  shape = refl;
  few = omega arith;
  whole = refl;
  unpadded = refl;
  dotless = refl;
  ascii = refl;
  decodes = refl;
}

payload_7-IsSignature : IsSignature (take 32 (plain_digest (83 ∷ []) (media_payload 7 9 1 14000)))
unfolding media_payload str decimal_digits
payload_7-IsSignature = record { dotless = refl; ascii = refl }

verify-media_token_example :
    verify_media_token plain_digest moved_up moved_down
      (media_token plain_digest moved_up moved_down 7 9 1 14000 (83 ∷ []))
      (83 ∷ [])
    ≡ some (pos 7, pos 9, pos 1, pos 14000)
unfolding media_token media_payload str decimal_digits
verify-media_token_example =
    verify-media_token plain_digest moved_up moved_down 7 9 1 14000 (83 ∷ []) payload_7-IsBase64
      payload_7-IsSignature (omega arith)

-- `Content-Disposition: form-data; name="f"`
abbrev head_f : List ℕ
head_f =
    b'C' ∷ b'o' ∷ b'n' ∷ b't' ∷ b'e' ∷ b'n' ∷ b't' ∷ b'-' ∷ b'D' ∷ b'i' ∷ b's' ∷ b'p' ∷ b'o' ∷ b's'
    ∷ b'i' ∷ b't' ∷ b'i' ∷ b'o' ∷ b'n' ∷ b':' ∷ 32 ∷ b'f' ∷ b'o' ∷ b'r' ∷ b'm' ∷ b'-' ∷ b'd' ∷ b'a'
    ∷ b't' ∷ b'a' ∷ b';' ∷ 32 ∷ b'n' ∷ b'a' ∷ b'm' ∷ b'e' ∷ b'=' ∷ 34 ∷ b'f' ∷ 34 ∷ []

abbrev part_f : Part
part_f = record { head = head_f; payload = 255 ∷ 216 ∷ 13 ∷ 10 ∷ 0 ∷ [] }

part_f-IsPart : IsPart (b'X' ∷ b'Y' ∷ []) part_f
unfolding occurs starts_with
part_f-IsPart = record { apart = refl; ends = refl; short = omega arith }

read_part-written_example :
    read_part (written (b'X' ∷ b'Y' ∷ []) part_f []) (b'X' ∷ b'Y' ∷ []) (b'f' ∷ [])
    ≡ first_named (b'f' ∷ []) (part_f ∷ [])
read_part-written_example =
    read_part-written (b'X' ∷ b'Y' ∷ []) (b'f' ∷ []) part_f [] refl (part_f-IsPart, tt)
      (omega arith)

-- The payload comes out, byte for byte.
first_named_run : first_named (b'f' ∷ []) (part_f ∷ []) ≡ ok (255 ∷ 216 ∷ 13 ∷ 10 ∷ 0 ∷ [])
unfolding first_named disposition_name is_named name_in split_by starts_with partition strip lstrip
    rstrip text_eq split parameter
first_named_run = refl

-- Two calls in ten seconds, asked for four times after a minute.
abbrev idle : Bucket
idle = record { parts = 15000; at = 0 }

calls-bounded_example :
    let b = filled idle 2 10000 60000 in
    let (allowed, last) = calls b 2 10000 (60000 ∷ 60010 ∷ 60020 ∷ 65000 ∷ []) in
    allowed * 10000 ≤ 2 * 10000 + (last.at - b.at) * 2
calls-bounded_example =
    calls-bounded (some idle) 2 10000 60000 (60000 ∷ 60010 ∷ 60020 ∷ 65000 ∷ []) (omega arith)

calls_run : (calls (stored none 2 10000 0) 2 10000 (0 ∷ 10 ∷ 20 ∷ 5000 ∷ [])).0 ≡ 3
unfolding calls bucket filled take_token
calls_run = refl

abbrev two_boxes : List FaceBox
two_boxes =
    record { x = negsuc 4; y = pos 2; width = 10; height = 6 }
    ∷ record { x = pos 90; y = pos 90; width = 40; height = 40 }
    ∷ []

largest_face-IsLargest_example : IsLargest 100 100 two_boxes (largest_face two_boxes (100, 100))
largest_face-IsLargest_example = largest_face-IsLargest two_boxes 100 100

-- Participant 1 of user 101 looks at the image of participant 2.
abbrev row_9 : Submission
row_9 = record {
  id = 9;
  round_id = 7;
  participant_id = 2;
  status = SubmissionStatus.submitted;
  received_at = some 5000;
  target_score = none;
  top_emotions = none;
  rank = none;
  rank_points = 0;
  like_count = 0;
  question_count = 0;
}

abbrev jpeg : List ℕ
jpeg = 255 ∷ 216 ∷ []

abbrev images_of : ℤ → ℕ → Option (List ℕ)
images_of round_id owner_id = if owner_id == 2 then some jpeg else none

short_token : length (media_token plain_digest moved_up moved_down 7 9 1 14000 (83 ∷ [])) ≤ 256
unfolding media_token media_payload str decimal_digits
short_token = omega arith

served :
    serve plain_digest moved_up moved_down pair
      (row_9 ∷ [])
      images_of
      (media_token plain_digest moved_up moved_down 7 9 1 14000 (83 ∷ []))
      (83 ∷ [])
      101
      6000
    ≡ ok jpeg
unfolding serve serve_claims
served =
    rw
      (
        serve,
        verify-media_token plain_digest moved_up moved_down 7 9 1 14000 (83 ∷ []) payload_7-IsBase64
            payload_7-IsSignature short_token,
      )
      refl

serve-IsServed_example :
    IsServed pair (row_9 ∷ []) images_of (pos 7, pos 9, pos 1, pos 14000) 101 6000 jpeg
unfolding media_token media_payload str decimal_digits
serve-IsServed_example =
    serve-IsServed plain_digest moved_up moved_down pair (row_9 ∷ []) images_of 7 9 1 14000
      (83 ∷ []) 101 6000 jpeg payload_7-IsBase64 payload_7-IsSignature (omega arith) served
