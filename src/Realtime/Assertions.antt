-- ===== src/Realtime/Assertions.antt =====
-- pkg/realtime/assertion.go: the signed assertion that a request between services carries for its
-- end user, and the memory of the nonces that were used.
--
-- Go's crypto, base64 and JSON are the parameter `Library`, a byte slice is a list of numbers, a
-- text that the code prints with %v is a field of the value. A clock reading is in nanoseconds from
-- 1970; the n-th call of time.Now() reads `clock n`. The times of an assertion are of int64, where
-- sums and differences wrap around; a clock reads less than 2 ^ 63 seconds.
pub mod Memory
pub mod Acceptance
pub mod Replays
pub mod Signing
use Prim.Native.String.{◌++◌}
use nexus_chat.Base.{
  ℕ, suc, ◌+◌, ◌-◌, ◌*◌, ◌/◌, ◌%◌, String, Bool, true, false, not, ◌&&◌, ◌||◌, List, [], ◌∷◌,
  Option, none, some, ◌==◌, ltb, leb, if◌then◌else◌, length, str_eq, trim_space, is_empty_text,
  before, trim_prefix, split,
}
use nexus_chat.Effects.{Result, ok, err}
use nexus_chat.Fallible.{◌>>=◌, ◌>>◌, refuse_if, or_refuse}

abbrev pub Bytes : Type 0
Bytes = List ℕ

pub data Value : Type 0 where
  text number : String → Value
  -- what %v prints of it, and its conversion to uint64
  float : (printed : String) (whole : ℕ) → Value
  other : (printed : String) → Value

-- map[string]any
abbrev pub Fields : Type 0
Fields = List (String × Value)

abbrev pub two_63 : ℕ
two_63 = 9223372036854775808

abbrev pub two_64 : ℕ
two_64 = 18446744073709551616

-- An int64 is held as its value and 2 ^ 63, below 2 ^ 64: the order of these numbers is that of the
-- values.
abbrev pub Int64 : Type 0
Int64 = ℕ

-- the int64 of a number below 2 ^ 63
abbrev pub int64 : ℕ → Int64
int64 n = two_63 + n

-- the sum with a number, and the difference
unfoldable pub plus : Int64 → ℕ → Int64
plus a n = (a + n) % two_64

unfoldable pub minus : Int64 → Int64 → Int64
minus a b = (a + (two_64 + two_63) - b) % two_64

pub record Assertion : Type 0 where
  pub version : ℕ
  pub key_id : String
  pub user_id : String
  pub channel : String
  pub audience : String
  pub method : String
  pub digest : String
  pub issued_at : Int64
  pub expires : Int64
  pub nonce : String

-- NEXUSCHAT_GRPC_ASSERTION_KEY_ID, _PRIVATE_KEY and _PUBLIC_KEY
pub record Environment : Type 0 where
  pub key_id : String
  pub private_key : String
  pub public_key : String

pub record Keys : Type 0 where
  pub private_key : Bytes
  pub public_key : Bytes
  pub key_id : String

pub data Error : Type 0 where
  no_private_key bad_encoding bad_private_key bad_public_key : Error
  assertion_required bad_format bad_payload bad_signature : Error
  scope_mismatch audience_mismatch expired request_mismatch identity_mismatch : Error
  nonce_missing replay_detected not_marshaled no_random : Error

pub record Library : Type 0 where
  pub raw_std_decode : String → Option Bytes
  pub std_decode : String → Option Bytes
  pub raw_url_decode : String → Option Bytes
  pub raw_url_encode : Bytes → String
  pub key_from_seed : Bytes → Bytes
  -- the Ed25519 key of a PKCS8 document, empty where there is none
  pub pkcs8_key : Bytes → Bytes
  pub public_of : Bytes → Bytes
  pub sign : Bytes → Bytes → Bytes
  pub verify : Bytes → Bytes → Bytes → Bool
  pub sha256 : Bytes → Bytes
  pub marshal_fields : Fields → Option Bytes
  pub marshal : Assertion → Option Bytes
  pub unmarshal : Bytes → Option Assertion
  pub format_uint : ℕ → String

unfoldable pub field : String → Fields → Option Value
field name [] = none
field name ((n, v) ∷ rest) = let later = field name rest in if str_eq n name then some v else later

-- fmt.Sprint
unfoldable pub sprint : Value → String
sprint (text s) = s
sprint (number s) = s
sprint (float printed whole) = printed
sprint (other printed) = printed

unfoldable pub names_someone : Option Value → Bool
unfolding sprint trim_space is_empty_text
names_someone none = false
names_someone (some v) = not (is_empty_text (trim_space (sprint v))) && not (str_eq (sprint v) "0")

-- requestNeedsAssertion
unfoldable pub needs_assertion : Fields → Bool
unfolding names_someone field
needs_assertion fields =
    names_someone (field "user_id" fields) || names_someone (field "channel_id" fields)

abbrev pub a_second : ℕ
a_second = 10 * 1000 * 1000 * 100

unfoldable pub first_of : Option Bytes → Option Bytes → Option Bytes
first_of none o = o
first_of (some b) o = some b

-- len(values) == 1, and not blank
unfoldable pub one_header : List String → Result Error String
unfolding trim_space is_empty_text
one_header (h ∷ []) = if is_empty_text (trim_space h) then err assertion_required else ok h
one_header [] = err assertion_required
one_header (h ∷ i ∷ rest) = err assertion_required

unfoldable pub two_parts : List String → Result Error (String × String)
two_parts (p ∷ q ∷ []) = ok (p, q)
two_parts [] = err bad_format
two_parts (p ∷ []) = err bad_format
two_parts (p ∷ q ∷ r ∷ rest) = err bad_format

-- the service in "/service/method"
unfoldable pub audience_of : String → String
unfolding before trim_prefix
audience_of method = trim_prefix 47 (before 47 (trim_prefix 47 method))

unfoldable pub in_scope : String → Keys × Assertion → Result Error (Unit {0})
unfolding audience_of
in_scope method (keys, assertion) = do
  refuse_if (not (str_eq assertion.key_id keys.key_id) || not (str_eq assertion.method method))
      scope_mismatch
  refuse_if (not (str_eq assertion.audience (audience_of method))) audience_mismatch

-- `now` in seconds
unfoldable pub in_time : ℕ → Assertion → Result Error (Unit {0})
unfolding plus minus
in_time now assertion =
    refuse_if
      (ltb (plus (int64 now) 30) assertion.issued_at
        || leb assertion.expires (int64 now)
        || ltb (int64 120) (minus assertion.expires assertion.issued_at))
      expired

unfoldable pub is_digest : String → Option String → Bool
is_digest digest none = false
is_digest digest (some d) = str_eq d digest

unfoldable pub key_id_or_default : String → String
unfolding is_empty_text
key_id_or_default s = if is_empty_text s then "default" else s

abbrev pub token : String → String → String
token body signature = body ++ ("." ++ signature)

unfoldable pub full_method : String → String → String
full_method service method = "/" ++ (service ++ ("/" ++ method))

module _ (lib : Library) (environment : Environment) where
  abbrev pub decode_key : String → Option Bytes
  decode_key s = first_of (lib.raw_std_decode s) (lib.std_decode s)

  unfoldable pub private_of : Bytes → Result Error Bytes
  private_of b =
      if length b == 32
      then ok (lib.key_from_seed b)
      else if length b == 64
      then ok b
      else if length (lib.pkcs8_key b) == 0
      then err bad_private_key
      else ok (lib.pkcs8_key b)

  unfoldable pub configured_public : String → Result Error Bytes
  unfolding first_of
  configured_public encoded = do
    decoded ← or_refuse bad_public_key (decode_key encoded)
    refuse_if (not (length decoded == 32)) bad_public_key
    ok decoded

  unfoldable pub public_or : String → Bytes → Result Error Bytes
  unfolding configured_public is_empty_text
  public_or encoded own = if is_empty_text encoded then ok own else configured_public encoded

  unfoldable pub assertion_keys : Result Error Keys
  assertion_keys = do
    refuse_if (is_empty_text (trim_space environment.private_key)) no_private_key
    bytes ← or_refuse bad_encoding (decode_key (trim_space environment.private_key))
    own ← private_of bytes
    public ← public_or (trim_space environment.public_key) (lib.public_of own)
    ok (record {
      private_key = own;
      public_key = public;
      key_id = key_id_or_default (trim_space environment.key_id);
    })

  -- canonicalDigest
  abbrev pub canonical_digest : Fields → Option String
  canonical_digest fields = elim (lib.marshal_fields fields) [
    | none ↦ none
    | some body ↦ some (lib.raw_url_encode (lib.sha256 body))
  ]

  unfoldable pub identity_of : Option Value → String
  unfolding trim_space
  identity_of none = ""
  identity_of (some (text s)) = trim_space s
  identity_of (some (number s)) = s
  identity_of (some (float printed whole)) = lib.format_uint whole
  identity_of (some (other printed)) = trim_space printed

  -- identityField
  abbrev pub identity_field : Fields → String → String
  identity_field fields name = identity_of (field name fields)

  -- the assertion that a header carries under a valid signature
  unfoldable pub read_assertion : List String → Result Error (Keys × Assertion)
  read_assertion headers = do
    value ← one_header headers
    parts ← two_parts (split 46 value)
    body ← or_refuse bad_payload (lib.raw_url_decode parts.0)
    signature ← or_refuse bad_signature (lib.raw_url_decode parts.1)
    keys ← assertion_keys
    refuse_if (not (lib.verify keys.public_key body signature)) bad_signature
    assertion ← or_refuse bad_payload (lib.unmarshal body)
    refuse_if (not (assertion.version == 1)) bad_payload
    ok (keys, assertion)

  unfoldable pub bound_to : Fields → Assertion → Result Error (Unit {0})
  unfolding is_digest identity_of is_empty_text
  bound_to fields assertion = do
    refuse_if (not (is_digest assertion.digest (canonical_digest fields))) request_mismatch
    refuse_if
        (not (str_eq assertion.user_id (identity_field fields "user_id"))
          || not (str_eq assertion.channel (identity_field fields "channel_id")))
        identity_mismatch
    refuse_if (is_empty_text assertion.nonce) nonce_missing

  -- `now` in seconds
  abbrev pub assertion_for : Keys → Fields → String → String → String → Bytes → ℕ → Assertion
  assertion_for keys fields audience method digest nonce now = record {
    version = 1;
    key_id = keys.key_id;
    user_id = identity_field fields "user_id";
    channel = identity_field fields "channel_id";
    audience = audience;
    method = method;
    digest = digest;
    issued_at = int64 now;
    expires = plus (int64 now) 120;
    nonce = lib.raw_url_encode nonce;
  }

  -- signEndUserAssertion, with what rand.Read fills in and the reading of the clock
  unfoldable pub sign_assertion : Fields → String → String → Option Bytes → ℕ → Result Error String
  sign_assertion fields audience method random reading = do
    keys ← assertion_keys
    digest ← or_refuse not_marshaled (canonical_digest fields)
    nonce ← or_refuse no_random random
    body ←
        or_refuse not_marshaled (
          lib.marshal (assertion_for keys fields audience method digest nonce (reading / a_second)))
    ok (token (lib.raw_url_encode body) (lib.raw_url_encode (lib.sign keys.private_key body)))

  -- the header values that StructAssertionMetadata and ProtoAssertionMetadata add
  unfoldable pub outgoing : Fields → String → String → Option Bytes → ℕ → Result Error (List String)
  outgoing fields service method random reading =
      if needs_assertion fields
      then (sign_assertion fields service (full_method service method) random reading >>= λ value.
          ok (value ∷ []))
      else ok []
