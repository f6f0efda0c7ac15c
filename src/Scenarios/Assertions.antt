-- ===== src/Scenarios/Assertions.antt =====
-- One request that is signed, accepted, and sent again.
use Prim.Native.Char.{code}
use nexus_chat.Base.{
  ℕ, zero, suc, ◌+◌, ◌*◌, ◌/◌, ◌<◌, ◌≤◌, ◌⊎◌, String, ◌≡◌, refl, sym, ap, ◌∙◌, Bool, true, false,
  ◌&&◌, List, [], ◌∷◌, Option, none, some, ◌==◌, ==_iff, str_eq, str_eq_iff, arith, is_empty_text,
  if◌then◌else◌, Lacks, is_space, split, trim_space, trim_left, trim_right, before, trim_prefix,
}
use nexus_chat.Effects.{ok}
use nexus_chat.Realtime.Assertions.{
  Bytes, Fields, Keys, Assertion, text, Library, Environment, two_63, two_64, int64, plus, minus,
  a_second, needs_assertion, outgoing, sign_assertion, full_method, assertion_keys, names_someone,
  field, sprint, private_of, public_or, key_id_or_default, identity_of, read_assertion, one_header,
  two_parts, in_scope, in_time, bound_to, is_digest, audience_of, first_of,
}
use nexus_chat.Realtime.Assertions.Memory.{
  Memory, before_1970, is_over, seen, purge, remember, read_clock, verify_signed, verify_assertion,
  here,
}
use nexus_chat.Realtime.Assertions.Replays.{verify_assertion-again}
use nexus_chat.Realtime.Assertions.Acceptance.{
  IsSigned, Vouches, verify_assertion-Vouches, ok-injective,
}
use nexus_chat.Realtime.Assertions.Signing.{IsLawful, IsMade, outgoing-verify_assertion}

-- a byte is as many a's and a b
abbrev encode_byte : ℕ → String → String
encode_byte zero rest = String.◌∷◌ "b" rest
encode_byte (suc n) rest = String.◌∷◌ "a" (encode_byte n rest)

abbrev encode : Bytes → String
encode [] = ""
encode (n ∷ b) = encode_byte n (encode b)

put_byte : ℕ → Option Bytes → Option Bytes
put_byte n none = none
put_byte n (some b) = some (n ∷ b)

decode_from : ℕ → String → Option Bytes
unfolding put_byte
decode_from n String.[] = some []
decode_from n (String.◌∷◌ c s) =
    let more = decode_from (suc n) s in
    let next = decode_from 0 s in if code c == 98 then put_byte n next else more

decode_from-encode_byte :
    (acc n : ℕ) (rest : String)
    → decode_from acc (encode_byte n rest) ≡ put_byte (acc + n) (decode_from 0 rest)
unfolding decode_from
decode_from-encode_byte acc zero rest = ap (λ k. put_byte k (decode_from 0 rest)) (omega arith)
decode_from-encode_byte acc (suc n) rest =
    decode_from-encode_byte (suc acc) n rest
    ∙ ap (λ k. put_byte k (decode_from 0 rest)) (omega arith)

decode_from-encode : (b : Bytes) → decode_from 0 (encode b) ≡ some b
unfolding decode_from put_byte
decode_from-encode [] = refl
decode_from-encode (n ∷ b) =
    decode_from-encode_byte 0 n (encode b)
    ∙ rw (decode_from-encode b) (ap (λ k. some (k ∷ b)) (omega arith))

encode_byte-Lacks : (n : ℕ) (rest : String) → Lacks 46 rest → Lacks 46 (encode_byte n rest)
encode_byte-Lacks zero rest h = (refl, h)
encode_byte-Lacks (suc n) rest h = (refl, encode_byte-Lacks n rest h)

encode-Lacks : (b : Bytes) → Lacks 46 (encode b)
encode-Lacks [] = tt
encode-Lacks (n ∷ b) = encode_byte-Lacks n (encode b) (encode-Lacks b)

encode-not_empty : (x : ℕ) (b : Bytes) → is_empty_text (encode (x ∷ b)) ≡ false
unfolding is_empty_text
encode-not_empty zero b = refl
encode-not_empty (suc x) b = refl

abbrev demo : Assertion
demo = record {
  version = 1;
  key_id = "default";
  user_id = "7";
  channel = "";
  audience = "svc";
  method = "/svc/Do";
  digest = "ab";
  issued_at = int64 5;
  expires = int64 125;
  nonce = "ab";
}

is_demo : Assertion → Bool
is_demo a =
    a.version == 1
    && str_eq a.key_id "default"
    && str_eq a.user_id "7"
    && str_eq a.channel ""
    && str_eq a.audience "svc"
    && str_eq a.method "/svc/Do"
    && str_eq a.digest "ab"
    && a.issued_at == int64 5
    && a.expires == int64 125
    && str_eq a.nonce "ab"

is_demo-demo : (a : Assertion) → is_demo a ≡ true → demo ≡ a
unfolding is_demo
is_demo-demo a h = λ i. record {
  version = sym ((==_iff a.version 1).0 (ground (arith, h))) i;
  key_id = sym ((str_eq_iff a.key_id "default").0 (ground (arith, h))) i;
  user_id = sym ((str_eq_iff a.user_id "7").0 (ground (arith, h))) i;
  channel = sym ((str_eq_iff a.channel "").0 (ground (arith, h))) i;
  audience = sym ((str_eq_iff a.audience "svc").0 (ground (arith, h))) i;
  method = sym ((str_eq_iff a.method "/svc/Do").0 (ground (arith, h))) i;
  digest = sym ((str_eq_iff a.digest "ab").0 (ground (arith, h))) i;
  issued_at = sym ((==_iff a.issued_at (int64 5)).0 (ground (arith, h))) i;
  expires = sym ((==_iff a.expires (int64 125)).0 (ground (arith, h))) i;
  nonce = sym ((str_eq_iff a.nonce "ab").0 (ground (arith, h))) i;
}

same : Bytes → Bytes → Bool
same [] [] = true
same [] (y ∷ ys) = false
same (x ∷ xs) [] = false
same (x ∷ xs) (y ∷ ys) = x == y && same xs ys

same_refl : (b : Bytes) → same b b ≡ true
unfolding same
same_refl [] = refl
same_refl (x ∷ xs) = ground (arith, ==_iff x x, same_refl xs)

abbrev seed : Bytes
seed =
    0 ∷ 0 ∷ 0 ∷ 0 ∷ 0 ∷ 0 ∷ 0 ∷ 0 ∷ 0 ∷ 0 ∷ 0 ∷ 0 ∷ 0 ∷ 0 ∷ 0 ∷ 0 ∷ 0 ∷ 0 ∷ 0 ∷ 0 ∷ 0 ∷ 0 ∷ 0 ∷ 0
    ∷ 0 ∷ 0 ∷ 0 ∷ 0 ∷ 0 ∷ 0 ∷ 0 ∷ 0 ∷ []

-- A library that writes one assertion only; a signature is the key.
abbrev library : Library
library = record {
  raw_std_decode = λ s. some seed;
  std_decode = λ s. none;
  raw_url_decode = decode_from 0;
  raw_url_encode = encode;
  key_from_seed = λ b. 5 ∷ [];
  pkcs8_key = λ b. b;
  public_of = λ k. k;
  sign = λ k m. k;
  verify = λ k m s. same k s;
  sha256 = λ b. b;
  marshal_fields = λ f. some (1 ∷ []);
  marshal = λ a. if is_demo a then some (9 ∷ []) else none;
  unmarshal = λ b. some demo;
  format_uint = λ n. "";
}

written : (a : Assertion) (b : Bytes) → library.marshal a ≡ some b → is_demo a ≡ true
written a b h = ground arith

library-IsLawful : IsLawful library
library-IsLawful = record {
  decode-encode = decode_from-encode;
  no_dot = encode-Lacks;
  not_empty = encode-not_empty;
  unmarshal-marshal = λ a b h. ap some (is_demo-demo a (written a b h));
  verify-sign = λ k m made. same_refl k;
}

abbrev environment : Environment
environment = record { key_id = ""; private_key = "k"; public_key = "" }

abbrev fields : Fields
fields = ("user_id", text "7") ∷ []

-- what outgoing puts into the header
abbrev headers : List String
headers = "aaaaaaaaab.aaaaab" ∷ []

abbrev clock : ℕ → ℕ
clock n = n * 60 * a_second + 6 * a_second

abbrev empty_memory : Memory
empty_memory = record { values = []; readings = 0 }

abbrev after : Memory
after = record { values = ("ab", int64 125) ∷ []; readings = 1 }

sent : outgoing library environment fields "svc" "Do" (some (1 ∷ [])) (5 * a_second) ≡ ok headers
unfolding outgoing needs_assertion sign_assertion plus assertion_keys first_of private_of public_or
    is_demo key_id_or_default identity_of full_method is_empty_text trim_space names_someone field
sent = refl

let_through :
    verify_assertion library environment clock fields headers "/svc/Do" empty_memory
    ≡ (ok tt, after)
unfolding verify_assertion needs_assertion verify_signed read_assertion one_header two_parts split
    decode_from put_byte assertion_keys first_of private_of public_or same in_scope
    key_id_or_default read_clock in_time plus minus bound_to before is_empty_text is_space trim_left
    trim_prefix trim_right trim_space purge is_over remember seen audience_of field identity_of
    is_digest names_someone sprint
let_through = refl

-- the key of the environment is made of the seed
seeded :
    (keys : Keys) → assertion_keys library environment ≡ ok keys → IsMade library keys.private_key
unfolding assertion_keys first_of private_of public_or is_empty_text trim_space key_id_or_default
seeded keys e = (seed, (refl, ap (λ (k : Keys). k.private_key) (sym (ok-injective e))))

outgoing-verify_assertion_example :
    (verify_assertion library environment clock fields headers
      (full_method "svc" "Do")
      empty_memory).0
    ≡ ok tt
unfolding is_empty_text trim_space seen
outgoing-verify_assertion_example =
    outgoing-verify_assertion library environment clock fields "svc" "Do" 1 [] (5 * a_second)
      headers empty_memory library-IsLawful refl seeded (refl, (refl, (refl, tt))) (omega arith)
      sent (omega arith) (omega arith) refl

abbrev after_replay : Memory
after_replay = record { values = ("ab", int64 125) ∷ []; readings = 3 }

-- the second verification begins before second 125 and ends after it
replayed :
    verify_assertion library environment clock fields headers "/svc/Do" after
    ≡ (ok tt, after_replay)
unfolding verify_assertion needs_assertion verify_signed read_assertion one_header two_parts split
    decode_from put_byte assertion_keys first_of private_of public_or same in_scope
    key_id_or_default read_clock in_time plus minus bound_to before is_empty_text is_space trim_left
    trim_prefix trim_right trim_space purge is_over remember seen audience_of field identity_of
    is_digest names_someone sprint
replayed = refl

verify_assertion-again_example :
    (keys : Keys) × ((a : Assertion) × ((read_assertion library environment headers ≡ ok (keys, a))
        × ((two_64 ≤ a.expires + before_1970)
            ⊎ ((two_63 * a_second + clock after.readings < a.expires * a_second)
                × (a.expires * a_second < two_63 * a_second + clock after_replay.readings)))))
unfolding needs_assertion
verify_assertion-again_example =
    verify_assertion-again library environment clock (λ i j h. omega (arith, h)) headers fields
      fields "/svc/Do" "/svc/Do" empty_memory after after after_replay refl refl let_through here
      replayed

verify_assertion-Vouches_example :
    (keys : Keys) × ((a : Assertion) × ((read_assertion library environment headers ≡ ok (keys, a))
        × (IsSigned library environment keys a
            × Vouches library environment fields "/svc/Do" (clock 0 / a_second) keys a)))
unfolding needs_assertion
verify_assertion-Vouches_example =
    verify_assertion-Vouches library environment fields headers "/svc/Do" clock empty_memory after
      refl let_through

-- issued at -2 ^ 63, to expire at the second 2000
abbrev boundless : Assertion
boundless = record demo { issued_at = 0; expires = int64 2000 }

-- it is in time from the year 1970 on, as its length is no int64
boundless-in_time : in_time 1 boundless ≡ ok tt
unfolding in_time plus minus
boundless-in_time = refl
