-- ===== src/Scenarios/Authentication.antt =====
-- A user with a session who asks for a channel. The package jwt signs here only the claims for the
-- channel 3 until the time 100, with the secret as the token.
use Prim.Native.String.{String}
use nexus_chat.Base.{
  ◌≡◌, refl, ℕ, Bool, true, false, Option, none, some, ltb, ◌==◌, ◌&&◌, str_eq, arith, ap,
  if◌then◌else◌, trim_space, trim_left, trim_right, is_empty_text, split,
}
use nexus_chat.Effects.{ok}
use nexus_chat.Realtime.Authentication.{
  Jwt, Claims, Parsed, token, invalid, other_error, Settings, Request, auth, authenticate,
  authenticated_session_user, agrees, in_channel, token_of, or_else, header_token, protocol_token,
  after_prefix, parse_token, new_jwt, expired_bit,
}
use nexus_chat.Realtime.Authentication.Principals.{IsAccepted, authenticate-IsAccepted}
use nexus_chat.Realtime.Authentication.Tokens.{IsLawful, auth-new_jwt}

abbrev claims : Claims
claims = record { channel_id = 3; expires_at = 100 }

abbrev is_claims : Claims → Bool
is_claims c = c.channel_id == 3 && c.expires_at == 100

abbrev parsed : ℕ → Option String → Parsed
parsed now none = other_error
parsed now (some k) = if ltb now 100 then token claims true else invalid expired_bit

abbrev jwt : Jwt
jwt = record {
  sign = λ secret c. if is_claims c then some secret else none;
  parse = λ key now t. parsed now (key true);
}

claims_only : (c : Claims) → is_claims c ≡ true → claims ≡ c
claims_only c e =
    let channel : 3 ≡ c.channel_id = ground arith in
    let expiry : 100 ≡ c.expires_at = ground arith in rw (channel, expiry) refl

signed_alike :
    (now : ℕ) (secret t : String) (c : Claims) (b : Bool)
    → is_claims c ≡ b
    → (if b then some secret else none) ≡ some t
    → (if ltb now 100 then token claims true else invalid expired_bit)
      ≡ (if ltb now c.expires_at then token c true else invalid expired_bit)
signed_alike now secret t c false e s = absurd cc
signed_alike now secret t c true e s =
    ap (λ (d : Claims). if ltb now d.expires_at then token d true else invalid expired_bit)
      (claims_only c e)

jwt-IsLawful : IsLawful jwt
jwt-IsLawful = record {
  parse_signed = λ key secret t c now k s. rw k (signed_alike now secret t c (is_claims c) refl s);
}

abbrev settings : Settings
settings = record { secret = "key"; expiration = 60 }

auth-new_jwt_example : auth jwt settings 50 "key" ≡ ok (record { channel_id = 3; expired = false })
unfolding new_jwt
auth-new_jwt_example = auth-new_jwt jwt jwt-IsLawful settings 40 50 3 "key" refl

abbrev request : Request
request = record {
  session_cookie = some "sid";
  uid = "";
  access_token = "";
  user_header = " 7";
  authorization = "Bearer key";
  protocols = "";
}

abbrev parse_uint : String → Option ℕ
parse_uint s = if str_eq s "7" then some 7 else none

abbrev validator : Option (String → Option ℕ)
validator = some (λ sid. some 7)

authenticate-IsAccepted_example :
    IsAccepted parse_uint validator jwt settings
      (λ c u. some u)
      50
      request
      (record { user_id = 7; channel_id = 3 })
unfolding authenticate authenticated_session_user agrees in_channel token_of or_else header_token
    protocol_token after_prefix parse_token auth trim_space trim_left trim_right is_empty_text split
authenticate-IsAccepted_example =
    authenticate-IsAccepted parse_uint validator jwt settings (λ c u. some u) 50 request
      (record { user_id = 7; channel_id = 3 }) refl
