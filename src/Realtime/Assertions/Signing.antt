-- ===== src/Realtime/Assertions/Signing.antt =====
-- A request that StructAssertionMetadata signs is accepted by verifyAssertion
-- (pkg/realtime/assertion.go).
use Prim.Native.Char.{Char}
use Prim.Native.String.append
use Prim.Native.String.{◌++◌}
use nexus_chat.Base.{
  length, is_space, Bool-cases, inl, inr, ℕ, suc, ◌+◌, ◌/◌, ◌≤◌, ◌<◌, String, ◌≡◌, refl, sym, ap,
  ◌∙◌, subst, true, false, List, [], ◌∷◌, some, str_eq, str_eq_iff, arith, is_empty_text,
  trim_space, split, Lacks, split-Lacks, split-append, before-append, trim_prefix-Lacks,
  trim_space-append,
}
use nexus_chat.Effects.{ok}
use nexus_chat.Fallible.{bind-ok, refuse_if-ok, or_refuse-ok}
use nexus_chat.Realtime.Assertions.{
  Bytes, Fields, Keys, Assertion, Library, Environment, no_private_key, bad_encoding, not_marshaled,
  two_63, int64, plus, minus, a_second, needs_assertion, read_assertion, in_scope, in_time,
  bound_to, audience_of, canonical_digest, identity_field, assertion_keys, private_of, public_or,
  decode_key, one_header, two_parts, full_method, token, sign_assertion, outgoing, assertion_for,
  is_digest,
}
use nexus_chat.Realtime.Assertions.Acceptance.{ok-injective}
use nexus_chat.Realtime.Assertions.Memory.{
  Memory, seen, purge, remember, verify_signed, verify_assertion, read_clock,
}

-- The key is the one that Ed25519 makes of a seed.
abbrev pub IsMade : Library → Bytes → Type 0
IsMade lib k = (seed : Bytes) × ((length seed ≡ 32) × (k ≡ lib.key_from_seed seed))

-- What Go documents of Ed25519, of base64 without padding and of JSON.
pub record IsLawful (lib : Library) : Type 0 where
  pub decode-encode : (b : Bytes) → lib.raw_url_decode (lib.raw_url_encode b) ≡ some b
  pub no_dot : (b : Bytes) → Lacks 46 (lib.raw_url_encode b)
  pub not_empty : (x : ℕ) (b : Bytes) → is_empty_text (lib.raw_url_encode (x ∷ b)) ≡ false
  pub unmarshal-marshal :
      (a : Assertion) (b : Bytes) → lib.marshal a ≡ some b → lib.unmarshal b ≡ some a
  pub verify-sign :
      (k m : Bytes) → IsMade lib k → lib.verify (lib.public_of k) m (lib.sign k m) ≡ true

abbrev dot_char : Char
dot_char = "."

abbrev slash_char : Char
slash_char = "/"

str_eq_refl : (s : String) → str_eq s s ≡ true
str_eq_refl s = (str_eq_iff s s).1 refl

audience_of-full_method :
    (service method : String)
    → Lacks 47 service
    → audience_of (full_method service method) ≡ service
unfolding audience_of full_method
audience_of-full_method service method h = rw (
  slash (service ++ ("/" ++ method)),
  slash method,
  before-append 47 slash_char service method refl h,
  trim_prefix-Lacks 47 service h,
)
  where
    slash : (s : String) → "/" ++ s ≡ String.◌∷◌ slash_char s
    slash s = append.cons slash_char "" s ∙ ap (λ x. String.◌∷◌ slash_char x) (append.nil s)

purge-seen :
    (clock : ℕ → ℕ) (nonce : String) (vs : List (String × ℕ)) (r : ℕ)
    → seen nonce vs ≡ false
    → seen nonce (purge clock vs r).0 ≡ false
unfolding purge seen
purge-seen clock nonce [] r h = refl
purge-seen clock nonce ((n, e) ∷ rest) r h = ground (arith, purge-seen clock nonce rest (suc r))

public_or-blank :
    (lib : Library) (environment : Environment) (encoded : String) (own : Bytes)
    → is_empty_text encoded ≡ true
    → public_or lib environment encoded own ≡ ok own
unfolding public_or
public_or-blank lib environment encoded own h = rw h

plus-int64 : (s n : ℕ) → s + n < two_63 → plus (int64 s) n ≡ int64 (s + n)
unfolding plus
plus-int64 s n h = omega (arith, h)

minus-plus-int64 : (s n : ℕ) → s + n < two_63 → minus (int64 (s + n)) (int64 s) ≡ int64 n
unfolding minus
minus-plus-int64 s n h = omega (arith, h)

-- An assertion of 120 seconds is in time at a second that is near the one of its issue.
fresh-in_time :
    (a : Assertion) (issue now : ℕ)
    → a.issued_at ≡ int64 issue
    → a.expires ≡ plus (int64 issue) 120
    → issue + 150 < two_63
    → issue ≤ now + 30
    → now < issue + 120
    → in_time now a ≡ ok tt
unfolding in_time
fresh-in_time a issue now i e b h k =
    let expiry : a.expires ≡ int64 (issue + 120) = e ∙ plus-int64 issue 120 (omega (arith, b)) in
    let length_of : minus a.expires a.issued_at ≡ int64 120 =
      rw (expiry, i) (minus-plus-int64 issue 120 (omega (arith, b))) in
    let soon : plus (int64 now) 30 ≡ int64 (now + 30) = plus-int64 now 30 (omega (arith, b, k)) in
    ground (arith, expiry, i, length_of, soon, h, k)

module _ (lib : Library) (environment : Environment) (lawful : IsLawful lib) where
  -- without a public key of its own in the environment, the service uses that of its private key
  assertion_keys-public :
      (keys : Keys)
      → is_empty_text (trim_space environment.public_key) ≡ true
      → assertion_keys lib environment ≡ ok keys
      → keys.public_key ≡ lib.public_of keys.private_key
  unfolding assertion_keys public_or
  assertion_keys-public keys blank e =
      let (p1, e1) =
        refuse_if-ok (is_empty_text (trim_space environment.private_key)) no_private_key _ keys e in
      let (bytes, (p2, e2)) =
        or_refuse-ok bad_encoding (decode_key lib environment (trim_space environment.private_key))
          _ keys e1 in
      let (own, (p3, e3)) = bind-ok (private_of lib environment bytes) _ keys e2 in
      let (public, (p4, e4)) =
        bind-ok (public_or lib environment (trim_space environment.public_key) (lib.public_of own))
          _ keys e3 in
      let (p5, p6) : (own ≡ keys.private_key) × (public ≡ keys.public_key) = (cc, cc) in
      let q : public ≡ lib.public_of own = ok-injective (
        sym p4
        ∙ public_or-blank lib environment (trim_space environment.public_key) (lib.public_of own)
            blank) in
      sym p6 ∙ q ∙ ap lib.public_of p5

  module _ (keys : Keys) (body : Bytes) (a : Assertion) where
    abbrev value : String
    value = token (lib.raw_url_encode body) (lib.raw_url_encode (lib.sign keys.private_key body))

    abbrev tail : String
    tail = lib.raw_url_encode (lib.sign keys.private_key body)

    dotted : value ≡ lib.raw_url_encode body ++ String.◌∷◌ dot_char tail
    dotted =
        ap (λ x. lib.raw_url_encode body ++ x)
          (append.cons dot_char "" tail ∙ ap (λ x. String.◌∷◌ dot_char x) (append.nil tail))

    value_parts : split 46 value ≡ lib.raw_url_encode body ∷ tail ∷ []
    value_parts =
        ap (split 46) dotted
        ∙ split-append 46 dot_char (lib.raw_url_encode body) tail refl (lawful.no_dot body)
        ∙ ap (λ x. lib.raw_url_encode body ∷ x) (split-Lacks 46 tail (lawful.no_dot _))

    value_shown : is_empty_text (trim_space value) ≡ false
    unfolding is_space
    value_shown =
        ap (λ x. is_empty_text (trim_space x)) dotted
        ∙ trim_space-append dot_char (lib.raw_url_encode body) tail refl

    -- what the reader finds in a token
    read_assertion-token :
        assertion_keys lib environment ≡ ok keys
        → keys.public_key ≡ lib.public_of keys.private_key
        → IsMade lib keys.private_key
        → lib.unmarshal body ≡ some a
        → a.version ≡ 1
        → read_assertion lib environment (value ∷ []) ≡ ok (keys, a)
    unfolding read_assertion one_header two_parts
    read_assertion-token k p made u v = rw (
      value_shown,
      value_parts,
      lawful.decode-encode body,
      lawful.decode-encode (lib.sign keys.private_key body),
      k,
      p,
      lawful.verify-sign keys.private_key body made,
      u,
      v,
    )

  module _ (fields : Fields) (service method : String) (x : ℕ) (bytes : Bytes) (reading : ℕ) where
    abbrev signed : Keys → String → Assertion
    signed keys digest =
        assertion_for lib environment keys fields service (full_method service method) digest
          (x ∷ bytes) (reading / a_second)

    outgoing_steps :
        (headers : List String)
        → needs_assertion fields ≡ true
        → outgoing lib environment fields service method (some (x ∷ bytes)) reading ≡ ok headers
        → (keys : Keys) × ((digest : String) × ((body : Bytes) × ((assertion_keys lib environment
                  ≡ ok keys)
                × ((canonical_digest lib environment fields ≡ some digest)
                    × ((lib.marshal (signed keys digest) ≡ some body)
                        × (value keys body (signed keys digest) ∷ [] ≡ headers))))))
    unfolding outgoing sign_assertion
    outgoing_steps headers n e =
        let (text, (p0, e0)) =
          bind-ok
            (sign_assertion lib environment fields service (full_method service method)
              (some (x ∷ bytes)) reading)
            _ headers (rw n at e) in
        let (keys, (p1, e1)) = bind-ok (assertion_keys lib environment) _ text p0 in
        let (digest, (p2, e2)) =
          or_refuse-ok not_marshaled (canonical_digest lib environment fields) _ text e1 in
        let (body, (p3, e3)) =
          or_refuse-ok not_marshaled (lib.marshal (signed keys digest)) _ text e2 in
        (
          keys,
          (digest, (body, (p1, (p2, (p3, ap (λ y. y ∷ []) (ok-injective e3) ∙ ok-injective e0))))),
        )

    signed-in_scope :
        (keys : Keys) (digest : String)
        → Lacks 47 service
        → in_scope (full_method service method) (keys, signed keys digest) ≡ ok tt
    unfolding in_scope
    signed-in_scope keys digest h = rw (
      audience_of-full_method service method h,
      str_eq_refl keys.key_id,
      str_eq_refl (full_method service method),
      str_eq_refl service,
    )

    signed-in_time :
        (keys : Keys) (digest : String) (now : ℕ)
        → reading / a_second + 150 < two_63
        → reading / a_second ≤ now + 30
        → now < reading / a_second + 120
        → in_time now (signed keys digest) ≡ ok tt
    unfolding in_time
    signed-in_time keys digest now b h k =
        fresh-in_time (signed keys digest) (reading / a_second) now refl refl b h k

    signed-bound_to :
        (keys : Keys) (digest : String)
        → canonical_digest lib environment fields ≡ some digest
        → bound_to lib environment fields (signed keys digest) ≡ ok tt
    unfolding bound_to is_digest
    signed-bound_to keys digest h = rw (
      h,
      str_eq_refl digest,
      str_eq_refl (identity_field lib environment fields "user_id"),
      str_eq_refl (identity_field lib environment fields "channel_id"),
      lawful.not_empty x bytes,
    )

    remember-new :
        (clock : ℕ → ℕ) (nonce : String) (expires : ℕ) (s : Memory)
        → seen nonce s.values ≡ false
        → (remember clock nonce expires s).0 ≡ ok tt
    unfolding remember
    remember-new clock nonce expires s h = rw (purge-seen clock nonce s.values s.readings h)

    verify_assertion-signed :
        (clock : ℕ → ℕ) (keys : Keys) (a : Assertion) (headers : List String) (s : Memory)
        → needs_assertion fields ≡ true
        → read_assertion lib environment headers ≡ ok (keys, a)
        → in_scope (full_method service method) (keys, a) ≡ ok tt
        → in_time (clock s.readings / a_second) a ≡ ok tt
        → bound_to lib environment fields a ≡ ok tt
        → seen a.nonce s.values ≡ false
        → (verify_assertion lib environment clock fields headers (full_method service method) s).0
          ≡ ok tt
    unfolding verify_assertion verify_signed read_clock
    verify_assertion-signed clock keys a headers s n p scope time bound new = rw (
      n,
      p,
      scope,
      time,
      bound,
      remember-new clock a.nonce a.expires (record s { readings = suc s.readings }) new,
    )

-- With lawful libraries, a private key that Ed25519 makes of a seed, no public key of its own in the
-- environment, a service whose name has no slash, and a sender's clock before second 2 ^ 63 - 150: the
-- header values that a request is sent with let it through at the method it is sent to, if the
-- receiver's clock is at most 30 seconds behind the sender's and less than 120 seconds ahead, and the
-- nonce, which is not the empty byte slice, is not in its memory.
pub outgoing-verify_assertion :
    (lib : Library) (environment : Environment) (clock : ℕ → ℕ) (fields : Fields)
    (service method : String) (x : ℕ) (bytes : Bytes) (reading : ℕ) (headers : List String)
    (s : Memory)
    → IsLawful lib
    → is_empty_text (trim_space environment.public_key) ≡ true
    → ((keys : Keys) → assertion_keys lib environment ≡ ok keys → IsMade lib keys.private_key)
    → Lacks 47 service
    → reading / a_second + 150 < two_63
    → outgoing lib environment fields service method (some (x ∷ bytes)) reading ≡ ok headers
    → reading / a_second ≤ clock s.readings / a_second + 30
    → clock s.readings / a_second < reading / a_second + 120
    → seen (lib.raw_url_encode (x ∷ bytes)) s.values ≡ false
    → (verify_assertion lib environment clock fields headers (full_method service method) s).0
      ≡ ok tt
unfolding verify_assertion
outgoing-verify_assertion lib environment clock fields service method x bytes reading headers s
      lawful blank made slashless b e h k new =
    elim (Bool-cases (needs_assertion fields)) [
      | inr n ↦ rw n
      | inl n ↦
          let (keys, (digest, (body, (p1, (p2, (p3, p4)))))) =
            outgoing_steps lib environment lawful fields service method x bytes reading headers n
              e in
          let a : Assertion =
            signed lib environment lawful fields service method x bytes reading keys digest in
          verify_assertion-signed lib environment lawful fields service method x bytes reading clock
            keys a headers s n
            (subst (λ y. read_assertion lib environment y ≡ ok (keys, a)) p4
              (read_assertion-token lib environment lawful keys body a p1
                (assertion_keys-public lib environment lawful keys blank p1) (made keys p1)
                (lawful.unmarshal-marshal a body p3) refl))
            (signed-in_scope lib environment lawful fields service method x bytes reading keys
              digest slashless)
            (signed-in_time lib environment lawful fields service method x bytes reading keys digest
              (clock s.readings / a_second) b h k)
            (signed-bound_to lib environment lawful fields service method x bytes reading keys
              digest p2)
            new
    ]
