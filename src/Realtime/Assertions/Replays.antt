-- ===== src/Realtime/Assertions/Replays.antt =====
-- How often one assertion is accepted (pkg/realtime/assertion.go).
use nexus_chat.Base.{
  ℕ, suc, ◌+◌, ◌*◌, ◌/◌, ◌%◌, ◌≤◌, ◌<◌, String, ◌≡◌, refl, sym, ap, ◌∙◌, subst, ◌⊎◌, inl, inr, Bool,
  true, false, List, [], ◌∷◌, ltb, ltb→lt, if◌then◌else◌, str_eq_iff, arith, Bool-cases,
}
use mathlib.Core.Bool.{false≢true}
use nexus_chat.Effects.{Result, ok, err}
use nexus_chat.Stateful.{
  Keeps, Ends, Ensures-bind, Ensures-if, Ensures-lift, Keeps-return, Keeps-after,
}
use nexus_chat.Realtime.Assertions.{
  Fields, Keys, Assertion, Library, Environment, Error, replay_detected, Int64, int64, plus, two_63,
  two_64, a_second, needs_assertion, read_assertion, in_scope, in_time, bound_to,
}
use nexus_chat.Realtime.Assertions.Acceptance.{accepted_steps, in_time-Vouches, ok-injective}
use nexus_chat.Realtime.Assertions.Memory.{
  Memory, before_1970, is_over, seen, purge, purged, remember, read_clock, verify_signed,
  verify_assertion, Reach, here, next,
}

-- the nanoseconds from the year 1 to the time that time.Unix makes of an expiry, and to 1970, both
-- with those of 2 ^ 63 seconds
abbrev dated : Int64 → ℕ
dated expires = plus expires before_1970 * a_second

abbrev past : ℕ
past = int64 before_1970 * a_second

is_over-dated : (e : Int64) (reading : ℕ) → is_over e reading ≡ true → dated e < past + reading
unfolding is_over
is_over-dated e reading h = ltb→lt _ _ h

-- Where time.Unix does not wrap around, an expiry is compared as it is.
dated-window :
    (e : Int64) (reading : ℕ)
    → e + before_1970 < two_64
    → dated e < past + reading
    → e * a_second < two_63 * a_second + reading
unfolding plus
dated-window e reading small h =
    let whole : (e + before_1970) % two_64 ≡ e + before_1970 = omega (arith, small) in
    omega (arith, subst (λ x. x * a_second < past + reading) whole h)

-- the memory has the nonce with this expiry
abbrev Has : String → ℕ → List (String × ℕ) → Type 0
Has nonce expires [] = ⊥
Has nonce expires ((n, e) ∷ rest) = ((n ≡ nonce) × (e ≡ expires)) ⊎ Has nonce expires rest

Has-seen :
    (nonce : String) (expires : ℕ) (vs : List (String × ℕ))
    → Has nonce expires vs
    → seen nonce vs ≡ true
unfolding seen
Has-seen nonce expires [] h = absurd h
Has-seen nonce expires ((n, e) ∷ rest) (inl (p, q)) = ground (arith, (str_eq_iff n nonce).1 p)
Has-seen nonce expires ((n, e) ∷ rest) (inr h) = ground (arith, Has-seen nonce expires rest h)

module _ (clock : ℕ → ℕ) (onward : (i j : ℕ) → i ≤ j → clock i ≤ clock j) where
  purge-readings : (vs : List (String × ℕ)) (r : ℕ) → r ≤ (purge clock vs r).1
  unfolding purge
  purge-readings [] r = omega arith
  purge-readings ((n, e) ∷ rest) r = omega (arith, purge-readings rest (suc r))

  -- An entry stays, or the clock has passed its expiry.
  purge-Has :
      (nonce : String) (expires : ℕ) (vs : List (String × ℕ)) (r : ℕ)
      → Has nonce expires vs
      → Has nonce expires (purge clock vs r).0 ⊎ (dated expires < past + clock (purge clock vs r).1)
  unfolding purge
  purge-Has nonce expires [] r h = absurd h
  purge-Has nonce expires ((n, e) ∷ rest) r (inl (p, q)) = elim (Bool-cases (is_over e (clock r))) [
    | inl late ↦ inr (
        subst (λ x. dated x < past + clock (purge clock rest (suc r)).1) q
          (omega (
            arith,
            is_over-dated e (clock r) late,
            onward r (purge clock rest (suc r)).1 (omega (arith, purge-readings rest (suc r))),
          )))
    | inr fresh ↦ rw fresh (inl (inl (p, q)))
  ]
  purge-Has nonce expires ((n, e) ∷ rest) r (inr h) =
      kept (is_over e (clock r)) (purge-Has nonce expires rest (suc r) h)
    where
      kept :
          (b : Bool)
          → Has nonce expires (purge clock rest (suc r)).0
            ⊎ (dated expires < past + clock (purge clock rest (suc r)).1)
          → Has nonce expires
              (if b then (purge clock rest (suc r)).0 else (n, e) ∷ (purge clock rest (suc r)).0)
            ⊎ (dated expires < past + clock (purge clock rest (suc r)).1)
      kept true x = x
      kept false (inl x) = inl (inr x)
      kept false (inr x) = inr x

  module _ (nonce : String) (expires : ℕ) where
    -- A nonce is remembered until the clock has passed its expiry.
    abbrev Held : Memory → Type 0
    Held s = Has nonce expires s.values ⊎ (dated expires < past + clock s.readings)

    Held-later : (s : Memory) → Held s → Held (record s { readings = suc s.readings })
    Held-later s (inl x) = inl x
    Held-later s (inr x) = inr (omega (arith, x, onward s.readings (suc s.readings) (omega arith)))

    Held-read : Keeps Held (read_clock clock)
    unfolding read_clock
    Held-read = record { at = Held-later }

    Held-purged : (s : Memory) → Held s → Held (purged clock s)
    Held-purged s (inl x) = purge-Has nonce expires s.values s.readings x
    Held-purged s (inr x) = inr (
        omega (
          arith,
          x,
          onward s.readings (purged clock s).readings (purge-readings s.values s.readings),
        ))

    Held-remember : (n : String) (e : ℕ) → Keeps Held (remember clock n e)
    unfolding remember
    Held-remember n e = record {
      at = λ s h. kept (purged clock s) (seen n (purged clock s).values) (Held-purged s h);
    }
      where
        kept :
            (t : Memory) (b : Bool)
            → Held t
            → Ends
                (λ a. Held)
                Held
                (if b
                  then (err replay_detected, t)
                  else (ok tt, record t { values = (n, e) ∷ t.values }))
        kept t true h = h
        kept t false (inl x) = inl (inr x)
        kept t false (inr x) = inr x

    abbrev answer : Memory → Bool → Result Error (Unit {0}) × Memory
    answer s b =
        let t = purged clock s in
        if b
        then (err replay_detected, t)
        else (ok tt, record t { values = (nonce, expires) ∷ t.values })

    -- An acceptance of the nonce puts it into the memory.
    remember-Held : (s u : Memory) → remember clock nonce expires s ≡ (ok tt, u) → Held u
    unfolding remember
    remember-Held s u e = added (seen nonce (purged clock s).values) e
      where
        added : (b : Bool) → answer s b ≡ (ok tt, u) → Held u
        added true h = cc
        added false h = subst Held (ap (λ x. x.1) h) (inl (inl (refl, refl)))

    -- Where the memory has the nonce, only the end of its time lets it through again.
    remember-again :
        (s u : Memory)
        → Held s
        → remember clock nonce expires s ≡ (ok tt, u)
        → dated expires < past + clock u.readings
    unfolding remember
    remember-again s u h e = again (seen nonce (purged clock s).values) refl (Held-purged s h) e
      where
        again :
            (b : Bool)
            → seen nonce (purged clock s).values ≡ b
            → Held (purged clock s)
            → answer s b ≡ (ok tt, u)
            → dated expires < past + clock u.readings
        again true p x q = cc
        again false p (inl x) q =
            absurd (false≢true (sym p ∙ Has-seen nonce expires (purged clock s).values x))
        again false p (inr x) q =
            subst (λ (v : Memory). dated expires < past + clock v.readings) (ap (λ y. y.1) q) x

    module _ (lib : Library) (environment : Environment) where
      Held-verify_signed :
          (fields : Fields) (headers : List String) (method : String)
          → Keeps Held (verify_signed lib environment clock fields headers method)
      unfolding verify_signed
      Held-verify_signed fields headers method =
          Ensures-lift (read_assertion lib environment headers) _ (λ s h. h)
            λ signed.
              Ensures-lift (in_scope method signed) _ (λ s h. h)
                λ a. Ensures-bind (read_clock clock) _ Held-read λ now.
                  Ensures-lift (in_time (now / a_second) signed.1) _ (λ s h. h)
                    λ b.
                      Ensures-lift (bound_to lib environment fields signed.1) _ (λ s h. h)
                        λ c. Held-remember signed.1.nonce signed.1.expires

      Held-verify_assertion :
          (fields : Fields) (headers : List String) (method : String)
          → Keeps Held (verify_assertion lib environment clock fields headers method)
      unfolding verify_assertion
      Held-verify_assertion fields headers method =
          Ensures-if (needs_assertion fields) _ _ (λ n. Held-verify_signed fields headers method)
            (λ n. Keeps-return tt)

      Held-Reach : {s t : Memory} → Reach lib environment clock s t → Held s → Held t
      Held-Reach here h = h
      Held-Reach (next {t} fields headers method r) h =
          Keeps-after (verify_assertion lib environment clock fields headers method) t
            (Held-verify_assertion fields headers method) (Held-Reach r h)

-- With a clock that never goes back: if the same headers bring in a second request that needs an
-- assertion, after any requests between, it is accepted only if the expiry of the assertion falls
-- between the first and the last reading of the clock in that second verification, or is so great,
-- within 62135596800 of the end of int64, that time.Unix wraps it around.
pub verify_assertion-again :
    (lib : Library) (environment : Environment) (clock : ℕ → ℕ)
    → ((i j : ℕ) → i ≤ j → clock i ≤ clock j)
    → (headers : List String) (f1 f2 : Fields) (m1 m2 : String) (s1 t1 s2 t2 : Memory)
    → needs_assertion f1 ≡ true
    → needs_assertion f2 ≡ true
    → verify_assertion lib environment clock f1 headers m1 s1 ≡ (ok tt, t1)
    → Reach lib environment clock t1 s2
    → verify_assertion lib environment clock f2 headers m2 s2 ≡ (ok tt, t2)
    → (keys : Keys) × ((a : Assertion) × ((read_assertion lib environment headers ≡ ok (keys, a))
          × ((two_64 ≤ a.expires + before_1970)
              ⊎ ((two_63 * a_second + clock s2.readings < a.expires * a_second)
                  × (a.expires * a_second < two_63 * a_second + clock t2.readings)))))
verify_assertion-again lib environment clock onward headers f1 f2 m1 m2 s1 t1 s2 t2 n1 n2 e1 r e2 =
    let ((keys, a), (p, (scope, (time, (bound, q))))) =
      accepted_steps lib environment f1 headers m1 clock s1 t1 n1 e1 in
    let (x, (p', (scope', (time', (bound', q'))))) =
      accepted_steps lib environment f2 headers m2 clock s2 t2 n2 e2 in
    let same : x ≡ (keys, a) = ok-injective (sym p' ∙ p) in
    let held : Held clock onward a.nonce a.expires s2 =
      Held-Reach clock onward a.nonce a.expires lib environment r
        (remember-Held clock onward a.nonce a.expires _ t1 q) in
    let (early, (late, short)) = in_time-Vouches lib environment (clock s2.readings / a_second) a (
      subst (λ (y : Keys × Assertion). in_time (clock s2.readings / a_second) y.1 ≡ ok tt) same
        time') in
    let t : Memory = record s2 { readings = suc s2.readings } in
    let stored =
      subst (λ (y : Keys × Assertion). remember clock y.1.nonce y.1.expires t ≡ (ok tt, t2)) same
        q' in
    let passed : dated a.expires < past + clock t2.readings =
      remember-again clock onward a.nonce a.expires t t2
        (Held-later clock onward a.nonce a.expires s2 held) stored in
    (
      keys,
      (
        a,
        (
          p,
          elim (Bool-cases (ltb (a.expires + before_1970) two_64)) [
            | inr far ↦ inl (ground (arith, far))
            | inl near ↦ inr (
              omega (arith, late),
              dated-window a.expires (clock t2.readings) (ltb→lt _ _ near) passed,
            )
          ],
        ),
      ),
    )
