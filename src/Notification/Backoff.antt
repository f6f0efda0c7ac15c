-- ===== src/Notification/Backoff.antt =====
-- retryDelay of pkg/notification/outbox.go. A duration or a count that is not positive is 0 here:
-- the code takes its defaults for all of them.
use nexus_chat.Base.{
  ℕ, zero, suc, ◌-◌, ◌*◌, ◌/◌, ◌^◌, ◌≤◌, min, ◌≡◌, sym, ◌∙◌, ap, ◌==◌, ltb, if◌then◌else◌, arith,
}

abbrev pub second : ℕ
second = 1000000000

-- `if delay > max { return max }; return delay`
abbrev settle_delay : ℕ → ℕ → ℕ
settle_delay limit delay = if ltb limit delay then limit else delay

-- the loop, with the rounds that are left
unfoldable pub double : ℕ → ℕ → ℕ → ℕ
double limit zero delay = settle_delay limit delay
double limit (suc n) delay =
    let rest = double limit n (delay * 2) in
    if ltb delay limit
    then (if ltb (limit / 2) delay then limit else rest)
    else settle_delay limit delay

unfoldable pub retry_delay : ℕ → ℕ → ℕ → ℕ
unfolding double
retry_delay base limit attempts =
    let attempts = if ltb attempts 1 then 1 else attempts in
    let base = if base == 0 then second else base in
    let limit = if limit == 0 then 5 * 60 * second else limit in double limit (attempts - 1) base

power_pos : (n : ℕ) → 1 ≤ 2 ^ n
power_pos zero = omega arith
power_pos (suc n) = omega (arith, power_pos n)

times_pos : (d p : ℕ) → 1 ≤ p → d ≤ d * p
times_pos d p h = grind arith

times-power : (d n : ℕ) → d * 2 ^ suc n ≡ d * 2 * 2 ^ n
times-power d n = grind arith

double-step :
    (limit d p r : ℕ)
    → d ≤ p
    → d * 2 ≤ p
    → r ≡ settle_delay limit p
    → (if ltb d limit then (if ltb (limit / 2) d then limit else r) else settle_delay limit d)
      ≡ settle_delay limit p
double-step limit d p r h k q = ground arith

double-power : (limit n d : ℕ) → double limit n d ≡ settle_delay limit (d * 2 ^ n)
unfolding double
double-power limit zero d = ap (settle_delay limit) (omega arith)
double-power limit (suc n) d =
    let b = times_pos (d * 2) (2 ^ n) (power_pos n) in
    double-step limit d (d * 2 * 2 ^ n) (double limit n (d * 2)) (omega (arith, b)) b
      (double-power limit n (d * 2))
    ∙ ap (settle_delay limit) (sym (times-power d n))

-- With a positive base and a positive limit, the delay before attempt number n + 1 is the base
-- doubled n times, or the limit where that is less.
pub retry_delay-min :
    (base limit n : ℕ)
    → 1 ≤ base
    → 1 ≤ limit
    → retry_delay base limit (suc n) ≡ min limit (base * 2 ^ n)
unfolding retry_delay
retry_delay-min base limit n b l = ground (arith, double-power limit n base)
