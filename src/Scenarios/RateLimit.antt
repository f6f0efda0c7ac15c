-- ===== src/Scenarios/RateLimit.antt =====
-- A limiter of two uploads a second with a burst of three, as ChannelUploadRateLimit asks it.
use nexus_chat.Base.{◌≡◌, refl, ◌+◌, ◌*◌, ◌≤◌, true, List, [], ◌∷◌, none, arith}
use nexus_chat.Effects.{ok}
use nexus_chat.Cassandra.{done}
use nexus_chat.RateLimit.{
  RateLimiter, Store, empty_bucket, unauthorized, channel_upload_rate_limit, allow_n, set_bucket,
  filled_tokens, rate_limit_script, reserve_n,
}
use nexus_chat.RateLimit.Bounds.{Request, granted, granted-bound}
use nexus_chat.RateLimit.Skew.{allow_n-ahead}

abbrev uploads : RateLimiter
uploads = record { rate = 2; burst = 3; expiration = 60 }

abbrev unused : Store
unused = record { buckets = λ k. empty_bucket; runs = 0 }

abbrev burst_of_six : List Request
burst_of_six =
    record { key = "7"; now = 10; n = 1 }
    ∷ record { key = "7"; now = 10; n = 1 }
    ∷ record { key = "8"; now = 10; n = 3 }
    ∷ record { key = "7"; now = 10; n = 1 }
    ∷ record { key = "7"; now = 10; n = 1 }
    ∷ record { key = "7"; now = 11; n = 2 }
    ∷ []

granted-bound_example : granted uploads (λ i. done) "7" burst_of_six unused ≤ 3 + 1 * 2
granted-bound_example =
    granted-bound uploads (λ i. done) "7" burst_of_six unused 10 11 (omega arith) refl
      (
        omega arith,
        (omega arith, (omega arith, (omega arith, (omega arith, (omega arith, omega arith))))),
      )

granted_all : granted uploads (λ i. done) "7" burst_of_six unused ≡ 5
unfolding granted allow_n reserve_n rate_limit_script filled_tokens set_bucket
granted_all = refl

allow_n-ahead_example :
    (allow_n uploads (λ i. done) 10 "7" 12 3 (allow_n uploads (λ i. done) 10 "7" 10 3 unused).1).0
    ≡ ok true
allow_n-ahead_example =
    allow_n-ahead uploads "7" unused 10 10 2 3 3 (omega arith) (omega arith) (omega arith)

no_channel : (channel_upload_rate_limit uploads (λ i. done) 10 10 none unused).0 ≡ unauthorized
no_channel = refl
