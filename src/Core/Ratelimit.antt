-- ===== src/Core/Ratelimit.antt =====
-- app/core/ratelimit.py: `BUCKET_SCRIPT` and `enforce_limit`. The tokens of a bucket are counted in
-- parts, of which a whole token has as many as the window has milliseconds; the source keeps them as a
-- floating point number, whose rounding is not modelled.
use emoselfie_be.Prelude.{
  ℕ, ◌+◌, ◌-◌, ◌*◌, ◌/◌, min, max, Option, none, some, leb, ◌==◌, if◌then◌else◌,
}
use emoselfie_be.Prelude.Dict.{Dict, lookup, insert}

pub record Bucket : Type 0 where
  pub parts : ℕ
  pub at : ℕ

-- `math.ceil(n / d)`
abbrev pub ceil_div : ℕ → ℕ → ℕ
ceil_div n d = (n + (d - 1)) / d

-- The bucket as it is read, a full one where there is none.
abbrev pub stored : Option Bucket → ℕ → ℕ → ℕ → Bucket
stored none capacity window now = record { parts = capacity * window; at = now }
stored (some b) capacity window now = b

-- The bucket after the time since it was last read.
unfoldable pub filled : Bucket → ℕ → ℕ → ℕ → Bucket
filled b capacity window now = record {
  parts = min (capacity * window) (b.parts + (max b.at now - b.at) * capacity);
  at = max b.at now;
}

-- A token is taken, or the milliseconds to wait for one are given.
unfoldable pub take_token : Bucket → ℕ → ℕ → ℕ × Bucket
take_token b capacity window =
    if leb window b.parts
    then (0, record b { parts = b.parts - window })
    else (ceil_div (window - b.parts) capacity, b)

unfoldable pub bucket : Option Bucket → ℕ → ℕ → ℕ → ℕ × Bucket
unfolding filled take_token
bucket o capacity window now =
    take_token (filled (stored o capacity window now) capacity window now) capacity window

-- `enforce_limit`: the seconds of `retry_after` where it raises RATE_LIMITED, and the buckets.
unfoldable pub enforce_limit : Dict Bucket → ℕ → ℕ → ℕ → ℕ → Option ℕ × Dict Bucket
unfolding bucket
enforce_limit buckets key capacity window_sec now =
    let (retry_ms, b) = bucket (lookup key buckets) capacity (window_sec * 1000) now in
    ((if retry_ms == 0 then none else some (max 1 (ceil_div retry_ms 1000))), insert key b buckets)
