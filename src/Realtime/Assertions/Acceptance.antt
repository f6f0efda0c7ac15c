-- ===== src/Realtime/Assertions/Acceptance.antt =====
-- What an accepted request shows (verifyAssertion of pkg/realtime/assertion.go).
use nexus_chat.Base.{
  ℕ, suc, ◌+◌, ◌/◌, ◌≤◌, ◌<◌, String, ◌≡◌, ap, subst, ◌⊎◌, true, not, ◌||◌, List, Option, none,
  some, ◌==◌, ltb, leb, str_eq, str_eq_iff, arith, split,
}
use nexus_chat.Effects.{Result, ok}
use nexus_chat.Fallible.{bind-ok, refuse_if-ok, or_refuse-ok, refusal-ok}
use nexus_chat.Stateful.{lift-ok}
use nexus_chat.Realtime.Assertions.{
  Bytes, Fields, Keys, Assertion, Library, Environment, bad_signature, bad_payload, scope_mismatch,
  audience_mismatch, expired, request_mismatch, identity_mismatch, a_second, two_63, int64, plus,
  minus, needs_assertion, read_assertion, in_scope, in_time, bound_to, audience_of,
  canonical_digest, identity_field, assertion_keys, is_digest, one_header, two_parts,
}
use nexus_chat.Realtime.Assertions.Memory.{
  Memory, remember, read_clock, verify_signed, verify_assertion,
}

pub ok-injective : {E A : Type 0} {a b : A} → ◌≡◌ {A = Result E A} (ok a) (ok b) → a ≡ b
ok-injective e = cc

digest-equal : (d : String) (o : Option String) → is_digest d o ≡ true → o ≡ some d
unfolding is_digest
digest-equal d none h = cc
digest-equal d (some x) h = ap some ((str_eq_iff x d).0 h)

plus-bound : (a n b : ℕ) → b ≤ plus a n → b ≤ a + n
unfolding plus
plus-bound a n b h = omega (arith, h)

minus-short : (e i : ℕ) → minus e i ≤ int64 120 → (e ≤ i + 120) ⊎ (i + two_63 ≤ e)
unfolding minus
minus-short e i h = omega (arith, h)

module _ (lib : Library) (environment : Environment) where
  -- the keys of the service and an assertion with a valid signature under them
  pub record IsSigned (keys : Keys) (a : Assertion) : Type 0 where
    pub body : Bytes
    pub signature : Bytes
    pub own_keys : assertion_keys lib environment ≡ ok keys
    pub verified : lib.verify keys.public_key body signature ≡ true
    pub decoded : lib.unmarshal body ≡ some a

  -- The expiry is at most 120 seconds after the issue, or so long after it that the difference is
  -- no int64.
  abbrev pub IsShort : Assertion → Type 0
  IsShort a = (a.expires ≤ a.issued_at + 120) ⊎ (a.issued_at + two_63 ≤ a.expires)

  -- The assertion is one for this request, at this second.
  pub record Vouches (fields : Fields) (method : String) (now : ℕ) (keys : Keys) (a : Assertion)
      : Type 0 where
    pub key : a.key_id ≡ keys.key_id
    pub method_named : a.method ≡ method
    pub audience_named : a.audience ≡ audience_of method
    pub not_early : a.issued_at ≤ int64 now + 30
    pub not_late : int64 now < a.expires
    pub short : IsShort a
    pub request : canonical_digest lib environment fields ≡ some a.digest
    pub user : a.user_id ≡ identity_field lib environment fields "user_id"
    pub channel : a.channel ≡ identity_field lib environment fields "channel_id"

  read_assertion-IsSigned :
      (headers : List String) (signed : Keys × Assertion)
      → read_assertion lib environment headers ≡ ok signed
      → IsSigned signed.0 signed.1
  unfolding read_assertion
  read_assertion-IsSigned headers signed e =
      let (value, (p1, e1)) = bind-ok (one_header headers) _ signed e in
      let (parts, (p2, e2)) = bind-ok (two_parts (split 46 value)) _ signed e1 in
      let (body, (p3, e3)) = or_refuse-ok bad_payload (lib.raw_url_decode parts.0) _ signed e2 in
      let (signature, (p4, e4)) =
        or_refuse-ok bad_signature (lib.raw_url_decode parts.1) _ signed e3 in
      let (keys, (p5, e5)) = bind-ok (assertion_keys lib environment) _ signed e4 in
      let (p6, e6) =
        refuse_if-ok (not (lib.verify keys.public_key body signature)) bad_signature _ signed e5 in
      let (a, (p7, e7)) = or_refuse-ok bad_payload (lib.unmarshal body) _ signed e6 in
      let (p8, e8) = refuse_if-ok (not (a.version == 1)) bad_payload (ok (keys, a)) signed e7 in
      subst (λ (x : Keys × Assertion). IsSigned x.0 x.1) (ok-injective e8)
        (record {
          body = body;
          signature = signature;
          own_keys = p5;
          verified = ground (arith, p6);
          decoded = p7;
        })

  pub accepted_steps :
      (fields : Fields) (headers : List String) (method : String) (clock : ℕ → ℕ) (s u : Memory)
      → needs_assertion fields ≡ true
      → verify_assertion lib environment clock fields headers method s ≡ (ok tt, u)
      → (signed : Keys × Assertion) × ((read_assertion lib environment headers ≡ ok signed)
          × ((in_scope method signed ≡ ok tt)
              × ((in_time (clock s.readings / a_second) signed.1 ≡ ok tt)
                  × ((bound_to lib environment fields signed.1 ≡ ok tt)
                      × (remember clock signed.1.nonce signed.1.expires
                            (record s { readings = suc s.readings })
                          ≡ (ok tt, u))))))
  unfolding verify_assertion verify_signed read_clock
  accepted_steps fields headers method clock s u n e =
      let (signed, (p1, e1)) =
        lift-ok (read_assertion lib environment headers) _ s tt u (rw n at e) in
      let t : Memory = record s { readings = suc s.readings } in
      let (a, (p2, e2)) = lift-ok (in_scope method signed) _ s tt u e1 in
      let (b, (p3, e3)) = lift-ok (in_time (clock s.readings / a_second) signed.1) _ t tt u e2 in
      let (c, (p4, e4)) = lift-ok (bound_to lib environment fields signed.1) _ t tt u e3 in
      (signed, (p1, (p2, (p3, (p4, e4)))))

  in_scope-Vouches :
      (method : String) (keys : Keys) (a : Assertion)
      → in_scope method (keys, a) ≡ ok tt
      → (a.key_id ≡ keys.key_id) × ((a.method ≡ method) × (a.audience ≡ audience_of method))
  unfolding in_scope
  in_scope-Vouches method keys a e =
      let (p, e1) =
        refuse_if-ok (not (str_eq a.key_id keys.key_id) || not (str_eq a.method method))
          scope_mismatch _ tt e in
      let q = refusal-ok (not (str_eq a.audience (audience_of method))) audience_mismatch e1 in
      (
        (str_eq_iff a.key_id keys.key_id).0 (ground (arith, p)),
        (
          (str_eq_iff a.method method).0 (ground (arith, p)),
          (str_eq_iff a.audience (audience_of method)).0 (ground (arith, q)),
        ),
      )

  pub in_time-Vouches :
      (now : ℕ) (a : Assertion)
      → in_time now a ≡ ok tt
      → (a.issued_at ≤ int64 now + 30) × ((int64 now < a.expires) × IsShort a)
  unfolding in_time
  in_time-Vouches now a e =
      let p =
        refusal-ok
          (ltb (plus (int64 now) 30) a.issued_at
            || leb a.expires (int64 now)
            || ltb (int64 120) (minus a.expires a.issued_at))
          expired e in
      let early : a.issued_at ≤ plus (int64 now) 30 = ground (arith, p) in
      (
        plus-bound (int64 now) 30 a.issued_at early,
        (ground (arith, p), minus-short a.expires a.issued_at (ground (arith, p))),
      )

  bound_to-Vouches :
      (fields : Fields) (a : Assertion)
      → bound_to lib environment fields a ≡ ok tt
      → (canonical_digest lib environment fields ≡ some a.digest)
        × ((a.user_id ≡ identity_field lib environment fields "user_id")
            × (a.channel ≡ identity_field lib environment fields "channel_id"))
  unfolding bound_to
  bound_to-Vouches fields a e =
      let user = identity_field lib environment fields "user_id" in
      let channel = identity_field lib environment fields "channel_id" in
      let (p, e1) =
        refuse_if-ok (not (is_digest a.digest (canonical_digest lib environment fields)))
          request_mismatch _ tt e in
      let (q, e2) =
        refuse_if-ok (not (str_eq a.user_id user) || not (str_eq a.channel channel))
          identity_mismatch _ tt e1 in
      (
        digest-equal a.digest (canonical_digest lib environment fields) (ground (arith, p)),
        (
          (str_eq_iff a.user_id user).0 (ground (arith, q)),
          (str_eq_iff a.channel channel).0 (ground (arith, q)),
        ),
      )

  -- A request that needs an assertion and is accepted carries one that is signed under the keys of
  -- the service, was made for this method and service, is not issued more than 30 seconds ahead and
  -- not over, is about this very request, user and channel, and is at most 120 seconds long, unless
  -- it is 2 ^ 63 seconds long or longer.
  pub verify_assertion-Vouches :
      (fields : Fields) (headers : List String) (method : String) (clock : ℕ → ℕ) (s u : Memory)
      → needs_assertion fields ≡ true
      → verify_assertion lib environment clock fields headers method s ≡ (ok tt, u)
      → (keys : Keys) × ((a : Assertion) × ((read_assertion lib environment headers ≡ ok (keys, a))
            × (IsSigned keys a × Vouches fields method (clock s.readings / a_second) keys a)))
  verify_assertion-Vouches fields headers method clock s u n e =
      let ((keys, a), (p, (scope, (time, (bound, r))))) =
        accepted_steps fields headers method clock s u n e in
      let (v1, (v2, v3)) = in_scope-Vouches method keys a scope in
      let (v4, (v5, v6)) = in_time-Vouches (clock s.readings / a_second) a time in
      let (v7, (v8, v9)) = bound_to-Vouches fields a bound in
      (
        keys,
        (
          a,
          (
            p,
            (
              read_assertion-IsSigned headers (keys, a) p,
              record {
                key = v1;
                method_named = v2;
                audience_named = v3;
                not_early = v4;
                not_late = v5;
                short = v6;
                request = v7;
                user = v8;
                channel = v9;
              },
            ),
          ),
        ),
      )
