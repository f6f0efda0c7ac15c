-- ===== src/Realtime/Authentication.antt =====
-- pkg/common/jwt.go and pkg/realtime/auth.go: the tokens of channels, and who a request is from.
--
-- The package jwt is the parameter `Jwt`, which signs and parses the claims of the code; strconv's
-- ParseUint is `parse_uint`, and the query for a member of a channel `is_member`, with the user that
-- it scans. Times are seconds. Auth panics where the error of the parser is no ValidationError.
pub mod Principals
pub mod Tokens
use Prim.Native.Char.{code}
use Prim.Native.String.{String}
use nexus_chat.Base.{
  ℕ, ◌+◌, Bool, true, false, not, ◌&&◌, ◌||◌, Option, none, some, List, [], ◌∷◌, ◌==◌,
  if◌then◌else◌, trim_space, is_empty_text, split,
}
use nexus_chat.Effects.{Result, ok, err}
use nexus_chat.Fallible.{◌>>=◌, ◌>>◌, refuse_if, or_refuse}

-- JWTClaims
pub record Claims : Type 0 where
  pub channel_id : ℕ
  pub expires_at : ℕ

pub data Parsed : Type 0 where
  -- the claims, and whether the token says that it is valid
  token : Claims → Bool → Parsed
  other_claims : Parsed
  -- a ValidationError with its bits
  invalid : ℕ → Parsed
  other_error : Parsed

pub record Jwt : Type 0 where
  -- with the method HS256
  pub sign : String → Claims → Option String
  -- by the key for a method, which is of the kind HMAC or not, at a time
  pub parse : (Bool → Option String) → ℕ → String → Parsed

pub record Settings : Type 0 where
  pub secret : String
  pub expiration : ℕ

pub record AuthResponse : Type 0 where
  pub channel_id : ℕ
  pub expired : Bool

pub data TokenError : Type 0 where
  invalid_token panicked : TokenError

-- the function that parseToken gives to the parser
abbrev pub key_for : String → Bool → Option String
key_for secret true = some secret
key_for secret false = none

abbrev pub expired_bit : ℕ
expired_bit = 16

abbrev pub auth_of : Parsed → Result TokenError AuthResponse
auth_of (token claims true) = ok (record { channel_id = claims.channel_id; expired = false })
auth_of (token claims false) = err invalid_token
auth_of other_claims = err invalid_token
auth_of (invalid bits) =
    if bits == expired_bit
    then ok (record { channel_id = 0; expired = true })
    else err invalid_token
auth_of other_error = err panicked

module _ (jwt : Jwt) (settings : Settings) where
  unfoldable pub parse_token : ℕ → String → Parsed
  parse_token now t = jwt.parse (key_for settings.secret) now t

  unfoldable pub auth : ℕ → String → Result TokenError AuthResponse
  auth now t = auth_of (parse_token now t)

  unfoldable pub new_jwt : ℕ → ℕ → Option String
  new_jwt now channel =
      jwt.sign settings.secret
        (record { channel_id = channel; expires_at = now + settings.expiration })

pub record Identity : Type 0 where
  pub user_id : ℕ
  pub channel_id : ℕ

-- what the code reads of a request: the session cookie, unescaped, two query values, three headers
pub record Request : Type 0 where
  pub session_cookie : Option String
  pub uid : String
  pub access_token : String
  pub user_header : String
  pub authorization : String
  pub protocols : String

pub data Refusal : Type 0 where
  no_validator missing_cookie invalid_session user_mismatch invalid_channel_token : Refusal
  not_a_member : Refusal

abbrev pub unexpired_channel : Result TokenError AuthResponse → Option ℕ
unexpired_channel (ok a) = if a.expired then none else some a.channel_id
unexpired_channel (err e) = none

-- strings.CutPrefix: the text after the prefix
unfoldable pub after_prefix : String → String → Option String
after_prefix String.[] t = some t
after_prefix (String.◌∷◌ c s) String.[] = none
after_prefix (String.◌∷◌ c s) (String.◌∷◌ d t) =
    let rest = after_prefix s t in if code c == code d then rest else none

abbrev pub or_whole : String → Option String → String
or_whole t none = t
or_whole t (some s) = s

-- the first protocol that carries a token
unfoldable pub protocol_token : List String → String
protocol_token [] = ""
protocol_token (p ∷ ps) =
    first (after_prefix "nexuschat-channel." (trim_space p)) (protocol_token ps)
  where
    first : Option String → String → String
    first none rest = rest
    first (some t) rest = t

unfoldable pub header_token : Request → String
header_token r = trim_space (or_whole r.authorization (after_prefix "Bearer " r.authorization))

unfoldable pub or_else : String → String → String
or_else t u = if is_empty_text t then u else t

unfoldable pub token_of : Request → String
token_of r =
    or_else (or_else r.access_token (header_token r)) (protocol_token (split 44 r.protocols))

-- RedisSessionValidator, over the value of a session as a number
unfoldable pub redis_session_validator : (String → Option ℕ) → String → Option ℕ
redis_session_validator get sid =
    if is_empty_text (trim_space sid) then none else not_zero (get sid)
  where
    not_zero : Option ℕ → Option ℕ
    not_zero none = none
    not_zero (some u) = if u == 0 then none else some u

abbrev pub is_user : ℕ → Option ℕ → Bool
is_user u none = false
is_user u (some v) = v == u

module _ (parse_uint : String → Option ℕ) where
  -- a value that the client gives, which may only repeat the user
  unfoldable pub agrees : ℕ → String → Bool
  agrees u raw = is_empty_text (trim_space raw) || is_user u (parse_uint (trim_space raw))

  module _ (validator : Option (String → Option ℕ)) where
    unfoldable pub authenticated_session_user : Request → Result Refusal ℕ
    authenticated_session_user r = or_refuse no_validator validator >>= λ validate.
        or_refuse missing_cookie r.session_cookie >>= λ sid.
        or_refuse invalid_session (validate sid)

    -- RequireUserID, with the identity that it sets; a refusal is answered with 401
    unfoldable pub require_user_id : Request → Result Refusal Identity
    require_user_id r = authenticated_session_user r >>= λ u.
        refuse_if (not (agrees u r.user_header)) user_mismatch
        >> ok (record { user_id = u; channel_id = 0 })

    module _ (jwt : Jwt) (settings : Settings) (is_member : ℕ → ℕ → Option ℕ) where
      unfoldable pub in_channel : ℕ → ℕ → Result Refusal Identity
      in_channel u c =
          refuse_if (not (is_user u (is_member c u))) not_a_member
          >> ok (record { user_id = u; channel_id = c })

      unfoldable pub authenticate : ℕ → Request → Result Refusal Identity
      authenticate now r = authenticated_session_user r >>= λ u.
          refuse_if (not (agrees u r.uid)) user_mismatch >>= λ a.
          refuse_if (not (agrees u r.user_header)) user_mismatch >>= λ b.
          or_refuse invalid_channel_token (unexpired_channel (auth jwt settings now (token_of r)))
          >>= in_channel u
