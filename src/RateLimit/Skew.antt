-- ===== src/RateLimit/Skew.antt =====
-- Callers of the limiter whose clocks differ.
use nexus_chat.Base.{
  ◌≡◌, refl, ℕ, ◌+◌, ◌-◌, ◌*◌, ◌≤◌, ◌<◌, String, true, false, ◌==◌, arith, str_eq_iff, ap,
}
use nexus_chat.Effects.{ok}
use nexus_chat.Cassandra.{done}
use nexus_chat.RateLimit.{
  RateLimiter, Bucket, Store, set_bucket, filled_tokens, rate_limit_script, reserve_n, allow_n,
}

module _ (limiter : RateLimiter) where
  refilled :
      (at now d n m : ℕ) (b : Bucket)
      → 0 < limiter.expiration
      → limiter.burst ≤ d * limiter.rate
      → m ≤ limiter.burst
      → (rate_limit_script limiter at (now + d) m (rate_limit_script limiter at now n b).1).0.ok
        ≡ true
  unfolding rate_limit_script filled_tokens
  refilled at now d n m b alive skew few = ground (arith, difference now d)
    where
      difference : (x y : ℕ) → (x + y) - x ≡ y
      difference x y = omega arith

  set_bucket_same : (k : String) (b : Bucket) (f : String → Bucket) → set_bucket k b f k ≡ b
  unfolding set_bucket
  set_bucket_same k b f = rw ((str_eq_iff k k).1 refl) refl

  -- If the clock of one caller is ahead of that of another by so much that the rate fills a bucket in
  -- the difference, and the runs of the script succeed: a request of the second for a key lets the
  -- next request of the first, at the same time of Redis and for no more than the burst, be granted,
  -- whatever was granted before.
  pub allow_n-ahead :
      (k : String) (s : Store) (at now d n m : ℕ)
      → 0 < limiter.expiration
      → limiter.burst ≤ d * limiter.rate
      → m ≤ limiter.burst
      → (allow_n limiter
          (λ i. done)
          at
          k
          (now + d)
          m
          (allow_n limiter (λ i. done) at k now n s).1).0
        ≡ ok true
  unfolding allow_n reserve_n
  allow_n-ahead k s at now d n m alive skew few =
      let on : (limiter.expiration == 0) ≡ false = ground arith in
      rw (on, set_bucket_same k (rate_limit_script limiter at now n (s.buckets k)).1 s.buckets)
        (ap ok (refilled at now d n m (s.buckets k) alive skew few))
