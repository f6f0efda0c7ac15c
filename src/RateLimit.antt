-- ===== src/RateLimit.antt =====
-- pkg/common/ratelimit.go: the token bucket that a script keeps in Redis, and its use for uploads in
-- pkg/uploader/http.go.
--
-- Times are whole seconds, and rate, burst and expiration are not negative. `tokens` and `refreshed`
-- hold the two keys of a bucket by the text that the caller gives, each with the time at which Redis
-- drops it. Redis runs a script as one step; the n-th run succeeds, fails, or fails after it was
-- applied, as `works n` says.
pub mod Bounds
pub mod Skew
use nexus_chat.Base.{
  ℕ, suc, ◌+◌, ◌-◌, ◌*◌, min, String, Bool, true, false, Option, none, some, leb, str_eq, ◌==◌,
  if◌then◌else◌,
}
use nexus_chat.Effects.{Result, ok, err}
use nexus_chat.Cassandra.{Outcome, done, failed, failed_applied}
use nexus_chat.Stateful.{Op}

pub record RateLimiter : Type 0 where
  pub rate : ℕ
  pub burst : ℕ
  pub expiration : ℕ

-- a value under a key of Redis, until it expires
pub record Held : Type 0 where
  pub value : ℕ
  pub expires_at : ℕ

pub record Bucket : Type 0 where
  pub tokens : Option Held
  pub refreshed : Option Held

pub record Store : Type 0 where
  pub buckets : String → Bucket
  pub runs : ℕ

pub data Error : Type 0 where
  unavailable invalid_expire : Error

pub record Reservation : Type 0 where
  pub ok : Bool
  pub tokens : ℕ

-- the answers of ChannelUploadRateLimit, `passed` for a request that goes on
pub data Answer : Type 0 where
  passed too_many_requests internal_server_error unauthorized : Answer

abbrev pub empty_bucket : Bucket
empty_bucket = record { tokens = none; refreshed = none }

-- GET, and the value that the script takes for a missing key
abbrev pub get_or : ℕ → ℕ → Option Held → ℕ
get_or default at none = default
get_or default at (some h) = if leb h.expires_at at then default else h.value

unfoldable pub set_bucket : String → Bucket → (String → Bucket) → String → Bucket
set_bucket k b buckets k' = if str_eq k k' then b else buckets k'

module _ (limiter : RateLimiter) where
  unfoldable pub filled_tokens : (at now : ℕ) → Bucket → ℕ
  filled_tokens at now b =
      min limiter.burst
        (get_or limiter.burst at b.tokens + (now - get_or 0 at b.refreshed) * limiter.rate)

  -- rateLimitScript at the time `at` of Redis, which refuses an expiration of 0
  unfoldable pub rate_limit_script : (at now requested : ℕ) → Bucket → Reservation × Bucket
  rate_limit_script at now requested b =
      let filled = filled_tokens at now b in
      let allowed = leb requested filled in
      let left = if allowed then filled - requested else filled in
      (
        record { ok = allowed; tokens = left },
        record {
          tokens = some (record { value = left; expires_at = at + limiter.expiration });
          refreshed = some (record { value = now; expires_at = at + limiter.expiration });
        },
      )

  abbrev pub ended :
      Outcome → String → Store → Reservation × Bucket → Result Error Reservation × Store
  ended done k s (r, b) = (ok r, record { buckets = set_bucket k b s.buckets; runs = suc s.runs })
  ended failed k s (r, b) = (err unavailable, record s { runs = suc s.runs })
  ended failed_applied k s (r, b) =
      (err unavailable, record { buckets = set_bucket k b s.buckets; runs = suc s.runs })

  module _ (works : ℕ → Outcome) where
    unfoldable pub reserve_n : (at : ℕ) → String → (now n : ℕ) → Op Store Error Reservation
    reserve_n at k now n s =
        if limiter.expiration == 0
        then (err invalid_expire, record s { runs = suc s.runs })
        else ended (works s.runs) k s (rate_limit_script at now n (s.buckets k))

    abbrev pub is_ok : Result Error Reservation × Store → Result Error Bool × Store
    is_ok (ok r, s) = (ok r.ok, s)
    is_ok (err e, s) = (err e, s)

    unfoldable pub allow_n : (at : ℕ) → String → (now n : ℕ) → Op Store Error Bool
    allow_n at k now n s = is_ok (reserve_n at k now n s)

    -- Allow
    unfoldable pub allow : (at now : ℕ) → String → Op Store Error Bool
    allow at now k = allow_n at k now 1

    abbrev pub answer_of : Result Error Bool × Store → Answer × Store
    answer_of (ok true, s) = (passed, s)
    answer_of (ok false, s) = (too_many_requests, s)
    answer_of (err e, s) = (internal_server_error, s)

    -- by the channel that the token in the request names, as a decimal, if there is one
    abbrev pub channel_upload_rate_limit : (at now : ℕ) → Option String → Store → Answer × Store
    channel_upload_rate_limit at now none s = (unauthorized, s)
    channel_upload_rate_limit at now (some channel) s = answer_of (allow at now channel s)
