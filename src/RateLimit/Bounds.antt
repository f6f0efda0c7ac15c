-- ===== src/RateLimit/Bounds.antt =====
-- How many tokens the limiter grants for a key.
use nexus_chat.Base.{
  ◌≡◌, ℕ, ◌+◌, ◌-◌, ◌*◌, ◌≤◌, ◌<◌, min, String, Bool, true, false, Option, none, some, List, [],
  ◌∷◌, str_eq, ◌==◌, if◌then◌else◌, arith, Bool-cases, inl, inr, str_eq_iff, ap,
}
use nexus_chat.Effects.{Result, ok, err}
use nexus_chat.Cassandra.{Outcome, done, failed, failed_applied}
use nexus_chat.RateLimit.{
  RateLimiter, Bucket, Held, Store, Error, Reservation, set_bucket, filled_tokens,
  rate_limit_script, empty_bucket, ended, reserve_n, is_ok, allow_n, get_or,
}

-- a call of AllowN
pub record Request : Type 0 where
  pub key : String
  pub now : ℕ
  pub n : ℕ

-- requests in the order in which Redis runs them, the last at the time `finish` or earlier
abbrev pub InOrder : ℕ → List Request → ℕ → Type 0
InOrder start [] finish = start ≤ finish
InOrder start (r ∷ rs) finish = (start ≤ r.now) × InOrder r.now rs finish

InOrder-le : (rs : List Request) (start finish : ℕ) → InOrder start rs finish → start ≤ finish
InOrder-le [] start finish o = o
InOrder-le (r ∷ rs) start finish o = omega (arith, o.0, InOrder-le rs r.now finish o.1)

spread : (a b c r : ℕ) → a ≤ b → b ≤ c → (c - a) * r ≡ (c - b) * r + (b - a) * r
spread a b c r h k =
    let e : c - a ≡ (c - b) + (b - a) = omega arith in rw e (distribute (c - b) (b - a) r)
  where
    distribute : (x y r : ℕ) → (x + y) * r ≡ x * r + y * r
    distribute x y r = omega arith

less_to_more : (a b r : ℕ) → a ≤ b → a * r ≤ b * r
less_to_more a b r h = let e : b ≡ a + (b - a) = omega arith in rw e (more (b - a))
  where
    more : (d : ℕ) → a * r ≤ (a + d) * r
    more d = omega arith

module _ (limiter : RateLimiter) where
  -- both keys are held, or neither, and were set at one earlier time
  abbrev IsTimelyPair : ℕ → Option Held → Option Held → Type 0
  IsTimelyPair t none none = Unit
  IsTimelyPair t (some v) (some w) =
      (w.value ≤ t)
      × (v.expires_at ≡ w.value + limiter.expiration)
      × (w.expires_at ≡ w.value + limiter.expiration)
  IsTimelyPair t _ _ = ◌≡◌ {A = Bool} true false

  abbrev pub IsTimely : ℕ → Bucket → Type 0
  IsTimely t b = IsTimelyPair t b.tokens b.refreshed

  abbrev available : ℕ → Option Held → Option Held → ℕ
  available t v w = min limiter.burst (get_or limiter.burst t v + (t - get_or 0 t w) * limiter.rate)

  available_wait :
      (t t' : ℕ) (v w : Option Held)
      → limiter.burst ≤ limiter.expiration * limiter.rate
      → t ≤ t'
      → IsTimelyPair t v w
      → available t' v w ≤ available t v w + (t' - t) * limiter.rate
  available_wait t t' none none enough later h = omega arith
  available_wait t t' none (some w) enough later h = cc
  available_wait t t' (some v) none enough later h = cc
  available_wait t t' (some v) (some w) enough later h = held
    where
      held :
          available t' (some v) (some w) ≤ available t (some v) (some w) + (t' - t) * limiter.rate
      held = ground (
        arith,
        h,
        spread w.value t t' limiter.rate,
        λ (p : limiter.expiration ≤ t' - w.value).
            less_to_more limiter.expiration (t' - w.value) limiter.rate p,
      )

  pub IsTimely_later :
      (t t' : ℕ) (v w : Option Held) → t ≤ t' → IsTimelyPair t v w → IsTimelyPair t' v w
  IsTimely_later t t' none none l h = tt
  IsTimely_later t t' none (some w) l h = h
  IsTimely_later t t' (some v) none l h = h
  IsTimely_later t t' (some v) (some w) l h = (omega (arith, h.0), h.1, h.2)

  filled_wait :
      (t t' : ℕ) (b : Bucket)
      → limiter.burst ≤ limiter.expiration * limiter.rate
      → t ≤ t'
      → IsTimely t b
      → filled_tokens limiter t' t' b ≤ filled_tokens limiter t t b + (t' - t) * limiter.rate
  unfolding filled_tokens
  filled_wait t t' b = available_wait t t' b.tokens b.refreshed

  full_at : (t : ℕ) → filled_tokens limiter t t empty_bucket ≤ limiter.burst
  unfolding filled_tokens
  full_at t = omega arith

  script_conserves :
      (t n : ℕ) (b : Bucket)
      → 0 < limiter.expiration
      → ((if (rate_limit_script limiter t t n b).0.ok then n else 0)
            + filled_tokens limiter t t (rate_limit_script limiter t t n b).1
          ≤ filled_tokens limiter t t b)
        × IsTimely t (rate_limit_script limiter t t n b).1
  unfolding rate_limit_script filled_tokens
  script_conserves t n b alive = ground arith

module _ (limiter : RateLimiter) (works : ℕ → Outcome) where
  -- the tokens that one answer grants under the key
  abbrev pub given : String → Request → Result Error Bool × Store → ℕ
  given k r (ok true, s) = if str_eq r.key k then r.n else 0
  given k r (ok false, s) = 0
  given k r (err e, s) = 0

  -- the tokens granted under a key, with the clock of Redis that of the callers
  unfoldable pub granted : String → List Request → Store → ℕ
  granted k [] s = 0
  granted k (r ∷ rs) s =
      let a = allow_n limiter works r.now r.key r.now r.n s in given k r a + granted k rs a.1

  Conserves : ℕ → String → Request → Bucket → Result Error Bool × Store → Type 0
  Conserves t k r b a =
      (given k r a + filled_tokens limiter t t (a.1.buckets k) ≤ filled_tokens limiter t t b)
      × IsTimely limiter t (a.1.buckets k)

  Kept : Request → Store → Reservation × Bucket → Type 0
  Kept r s (q, b) =
      ((if q.ok then r.n else 0) + filled_tokens limiter r.now r.now b
        ≤ filled_tokens limiter r.now r.now (s.buckets r.key))
      × IsTimely limiter r.now b

  stored_conserves :
      (k : String) (r : Request) (s : Store)
      → IsTimely limiter r.now (s.buckets k)
      → (x : Reservation × Bucket) → Kept r s (x.0, x.1)
      → (m : ℕ) → (m ≤ (if str_eq r.key k then (if x.0.ok then r.n else 0) else 0))
      → (m + filled_tokens limiter r.now r.now (set_bucket r.key x.1 s.buckets k)
          ≤ filled_tokens limiter r.now r.now (s.buckets k))
        × IsTimely limiter r.now (set_bucket r.key x.1 s.buckets k)
  unfolding Kept set_bucket
  stored_conserves k r s h x kept m few = elim (Bool-cases (str_eq r.key k)) [
    | inl e ↦
        let same : s.buckets r.key ≡ s.buckets k = ap s.buckets ((str_eq_iff r.key k).0 e) in
        let few' : m ≤ (if x.0.ok then r.n else 0) = rw e at few in
        rw (e, ← same) (omega arith, kept.1)
    | inr e ↦ let few' : m ≤ 0 = rw e at few in rw e (omega arith, h)
  ]

  ended-Conserves :
      (k : String) (r : Request) (s : Store)
      → IsTimely limiter r.now (s.buckets k)
      → (x : Reservation × Bucket) → Kept r s x
      → (o : Outcome)
      → Conserves r.now k r (s.buckets k) (is_ok limiter works (ended limiter o r.key s x))
  unfolding Conserves
  ended-Conserves k r s h x kept failed = (omega arith, h)
  ended-Conserves k r s h (q, b) kept failed_applied =
      stored_conserves k r s h (q, b) kept 0 (omega arith)
  ended-Conserves k r s h (q, b) kept done = stored_conserves k r s h (q, b) kept _ (ground arith)

  allow_n-Conserves :
      (k : String) (r : Request) (s : Store)
      → IsTimely limiter r.now (s.buckets k)
      → Conserves r.now k r (s.buckets k) (allow_n limiter works r.now r.key r.now r.n s)
  unfolding Conserves Kept allow_n reserve_n
  allow_n-Conserves k r s h = elim (Bool-cases (limiter.expiration == 0)) [
    | inl e ↦ rw e (omega arith, h)
    | inr e ↦ rw e (
        ended-Conserves k r s h _
          (script_conserves limiter r.now r.n (s.buckets r.key) (ground arith)) (works s.runs))
  ]

  granted-available :
      (k : String) (rs : List Request) (s : Store) (start finish : ℕ)
      → limiter.burst ≤ limiter.expiration * limiter.rate
      → IsTimely limiter start (s.buckets k)
      → InOrder start rs finish
      → granted k rs s
        ≤ filled_tokens limiter start start (s.buckets k) + (finish - start) * limiter.rate
  unfolding granted Conserves
  granted-available k [] s start finish enough h o = omega arith
  granted-available k (r ∷ rs) s start finish enough h o =
      let later =
        IsTimely_later limiter start r.now (s.buckets k).tokens (s.buckets k).refreshed o.0 h in
      let one = allow_n-Conserves k r s later in
      let rest =
        granted-available k rs (allow_n limiter works r.now r.key r.now r.n s).1 r.now finish enough
          one.1 o.1 in
      omega (
        arith,
        one.0,
        rest,
        filled_wait limiter start r.now (s.buckets k) enough o.0 h,
        spread start r.now finish limiter.rate o.0 (InOrder-le rs r.now finish o.1),
      )

  -- If the tokens of a full bucket come back within the expiration, and the callers' clocks agree
  -- with that of Redis and do not go back: the requests of a span of time that are granted under a
  -- key, which has no bucket at its start, ask together for no more than the burst and what the rate
  -- gives for the span, whatever requests come for other keys and whichever runs fail.
  pub granted-bound :
      (k : String) (rs : List Request) (s : Store) (start finish : ℕ)
      → limiter.burst ≤ limiter.expiration * limiter.rate
      → s.buckets k ≡ empty_bucket
      → InOrder start rs finish
      → granted k rs s ≤ limiter.burst + (finish - start) * limiter.rate
  granted-bound k rs s start finish enough e o =
      let timely : IsTimely limiter start (s.buckets k) = rw e tt in
      let full : filled_tokens limiter start start (s.buckets k) ≤ limiter.burst =
        rw e (full_at limiter start) in
      omega (arith, granted-available k rs s start finish enough timely o, full)
