-- ===== src/Realtime/Authentication/Tokens.antt =====
-- The tokens that NewJWT makes, as Auth reads them.
use Prim.Native.String.{String}
use nexus_chat.Base.{◌≡◌, refl, ℕ, ◌+◌, Bool, true, false, Option, some, ltb, if◌then◌else◌}
use nexus_chat.Effects.{ok}
use nexus_chat.Realtime.Authentication.{
  Jwt, Claims, token, invalid, Settings, expired_bit, key_for, auth, auth_of, parse_token, new_jwt,
}

-- What the package jwt documents: a token that it signed with a key parses under that key to its
-- claims, valid before the time that they say, and then refused for this reason alone.
pub record IsLawful (jwt : Jwt) : Type 0 where
  pub parse_signed :
      (key : Bool → Option String) (secret t : String) (claims : Claims) (now : ℕ)
      → key true ≡ some secret
      → jwt.sign secret claims ≡ some t
      → jwt.parse key now t
        ≡ (if ltb now claims.expires_at then token claims true else invalid expired_bit)

-- With a lawful package: a token that NewJWT made for a channel is read by Auth, at any time, as a
-- token of that channel until the expiration of the settings is over, and from then on as expired.
pub auth-new_jwt :
    (jwt : Jwt) (lawful : IsLawful jwt) (settings : Settings) (made now channel : ℕ) (t : String)
    → new_jwt jwt settings made channel ≡ some t
    → auth jwt settings now t ≡ (
        if ltb now (made + settings.expiration)
        then ok (record { channel_id = channel; expired = false })
        else ok (record { channel_id = 0; expired = true }))
unfolding auth parse_token new_jwt
auth-new_jwt jwt lawful settings made now channel t e =
    rw (lawful.parse_signed (key_for settings.secret) settings.secret t _ now refl e)
      (read (ltb now (made + settings.expiration)))
  where
    read :
        (b : Bool)
        → auth_of (
            if b
            then token
                (record { channel_id = channel; expires_at = made + settings.expiration })
                true
            else invalid expired_bit)
          ≡ (if b
              then ok (record { channel_id = channel; expired = false })
              else ok (record { channel_id = 0; expired = true }))
    read true = refl
    read false = refl
