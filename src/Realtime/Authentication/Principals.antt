-- ===== src/Realtime/Authentication/Principals.antt =====
-- Whom the services take a request to be from.
use Prim.Native.String.{String}
use nexus_chat.Base.{
  ◌≡◌, refl, ℕ, Bool, true, false, not, ◌||◌, ◌⊎◌, inl, inr, Option, none, some, ◌==◌, ==_iff, ap,
  subst, if◌then◌else◌, is_empty_text, trim_space, List, [], ◌∷◌, split, ◌∙◌, sym, Bool-cases,
  Option-cases,
}
use nexus_chat.Effects.{ok, err}
use nexus_chat.Fallible.{bind-ok, refuse_if-ok, or_refuse, or_refuse-ok}
use nexus_chat.Realtime.Authentication.{
  Jwt, Claims, Parsed, token, invalid, other_claims, other_error, Settings, Identity, expired_bit,
  invalid_token, key_for, auth_of, parse_token, after_prefix, or_else, header_token, protocol_token,
  Request, auth, token_of, is_user, agrees, authenticated_session_user, unexpired_channel,
  in_channel, authenticate,
}

given : {A E : Type 0} (e : E) (o : Option A) (a : A) → or_refuse e o ≡ ok a → o ≡ some a
given e none a h = cc
given e (some b) a h = cc

true_from_not : (b : Bool) → not b ≡ false → b ≡ true
true_from_not true e = refl
true_from_not false e = cc

repeated : (u : ℕ) (o : Option ℕ) → is_user u o ≡ true → o ≡ some u
repeated u none e = cc
repeated u (some v) e = ap (λ (n : ℕ). some n) ((==_iff v u).0 e)

-- The package jwt finds a valid token for the channel, with the secret as the key of HMAC methods and
-- no key for any other.
abbrev pub IsValidFor : Jwt → Settings → ℕ → String → ℕ → Type 0
IsValidFor jwt settings now t c =
    (key : Bool → Option String) × ((claims : Claims) × ((key true ≡ some settings.secret)
        × ((key false ≡ none)
            × ((jwt.parse key now t ≡ token claims true) × (claims.channel_id ≡ c)))))

valid_claims :
    (x : Parsed) (c : ℕ)
    → unexpired_channel (auth_of x) ≡ some c
    → (claims : Claims) × ((x ≡ token claims true) × (claims.channel_id ≡ c))
valid_claims (token claims true) c h = (claims, (refl, cc))
valid_claims (token claims false) c h = absurd cc
valid_claims other_claims c h = absurd cc
valid_claims (invalid bits) c h = absurd (lapsed (bits == expired_bit) h)
  where
    lapsed :
        (b : Bool)
        → unexpired_channel
            (if b then ok (record { channel_id = 0; expired = true }) else err invalid_token)
          ≡ some c
        → ⊥
    lapsed true e = cc
    lapsed false e = cc
valid_claims other_error c h = absurd cc

valid_token :
    (jwt : Jwt) (settings : Settings) (now : ℕ) (t : String) (c : ℕ)
    → unexpired_channel (auth jwt settings now t) ≡ some c
    → IsValidFor jwt settings now t c
unfolding auth parse_token
valid_token jwt settings now t c h =
    let v = valid_claims (jwt.parse (key_for settings.secret) now t) c h in
    (key_for settings.secret, (v.0, (refl, (refl, v.1))))

-- A value of the client is blank, or the number of the user.
abbrev pub Repeats : (String → Option ℕ) → ℕ → String → Type 0
Repeats parse_uint u raw =
    (is_empty_text (trim_space raw) ≡ true) ⊎ (parse_uint (trim_space raw) ≡ some u)

agrees-Repeats :
    (parse_uint : String → Option ℕ) (u : ℕ) (raw : String)
    → not (agrees parse_uint u raw) ≡ false
    → Repeats parse_uint u raw
unfolding agrees
agrees-Repeats parse_uint u raw e = blank_or (is_empty_text (trim_space raw)) refl e
  where
    blank_or :
        (b : Bool)
        → is_empty_text (trim_space raw) ≡ b
        → not (b || is_user u (parse_uint (trim_space raw))) ≡ false
        → Repeats parse_uint u raw
    blank_or true blank n = inl blank
    blank_or false blank n = inr (repeated u (parse_uint (trim_space raw)) (true_from_not _ n))

-- The text of the Authorization header, without "Bearer " before it, is the token.
abbrev pub IsBearer : Request → String → Type 0
IsBearer r t =
    (t ≡ trim_space r.authorization)
    ⊎ ((s : String) × ((after_prefix "Bearer " r.authorization ≡ some s) × (t ≡ trim_space s)))

-- One of the protocols is the token after "nexuschat-channel.".
abbrev pub IsProtocol : List String → String → Type 0
IsProtocol [] t = ⊥
IsProtocol (p ∷ ps) t =
    (after_prefix "nexuschat-channel." (trim_space p) ≡ some t) ⊎ IsProtocol ps t

-- The request carries the token as a query value, in the Authorization header or among the
-- protocols, or no token and this is the empty text.
abbrev pub Carries : Request → String → Type 0
Carries r t =
    (t ≡ r.access_token) ⊎ (IsBearer r t ⊎ (IsProtocol (split 44 r.protocols) t ⊎ (t ≡ "")))

one_of_both : (t u : String) → (or_else t u ≡ t) ⊎ (or_else t u ≡ u)
unfolding or_else
one_of_both t u = elim (Bool-cases (is_empty_text t)) [
  | inl e ↦ inr (rw e refl)
  | inr e ↦ inl (rw e refl)
]

header_token-IsBearer : (r : Request) → IsBearer r (header_token r)
unfolding header_token
header_token-IsBearer r = elim (Option-cases (after_prefix "Bearer " r.authorization)) [
  | inl e ↦ inl (rw e refl)
  | inr (s, e) ↦ inr (s, (e, rw e refl))
]

protocol_token-IsProtocol :
    (ps : List String) → IsProtocol ps (protocol_token ps) ⊎ (protocol_token ps ≡ "")
unfolding protocol_token
protocol_token-IsProtocol [] = inr refl
protocol_token-IsProtocol (p ∷ ps) =
    elim (Option-cases (after_prefix "nexuschat-channel." (trim_space p))) [
      | inl e ↦ rw e (elim (protocol_token-IsProtocol ps) [ inl x ↦ inl (inr x) | inr x ↦ inr x ])
      | inr (s, e) ↦ inl (inl (rw e refl))
    ]

token_of-Carries : (r : Request) → Carries r (token_of r)
unfolding token_of
token_of-Carries r =
    elim (one_of_both (or_else r.access_token (header_token r))
      (protocol_token (split 44 r.protocols))) [
        | inl e ↦ elim (one_of_both r.access_token (header_token r)) [
          | inl f ↦ inl (e ∙ f)
          | inr f ↦ inr (inl (subst (IsBearer r) (sym (e ∙ f)) (header_token-IsBearer r)))
        ]
        | inr e ↦ elim (protocol_token-IsProtocol (split 44 r.protocols)) [
          | inl x ↦ inr (inr (inl (subst (IsProtocol (split 44 r.protocols)) (sym e) x)))
          | inr x ↦ inr (inr (inr (e ∙ x)))
        ]
      ]

module _ (parse_uint : String → Option ℕ) (validator : Option (String → Option ℕ)) (jwt : Jwt)
    (settings : Settings) (is_member : ℕ → ℕ → Option ℕ) where
  -- The validator gives the user for the session cookie of the request.
  abbrev pub IsSessionUser : Request → ℕ → Type 0
  IsSessionUser r u =
      (validate : String → Option ℕ) × ((sid : String) × ((validator ≡ some validate)
          × ((r.session_cookie ≡ some sid) × (validate sid ≡ some u))))

  session_user :
      (r : Request) (u : ℕ)
      → authenticated_session_user parse_uint validator r ≡ ok u
      → IsSessionUser r u
  unfolding authenticated_session_user
  session_user r u e =
      let v = or_refuse-ok _ validator _ u e in
      let c = or_refuse-ok _ r.session_cookie _ u v.1.1 in
      (v.0, (c.0, (v.1.0, (c.1.0, given _ (v.0 c.0) u c.1.1))))

  abbrev pub IsAccepted : ℕ → Request → Identity → Type 0
  IsAccepted now r i =
      IsSessionUser r i.user_id
      × (((t : String) × (Carries r t × IsValidFor jwt settings now t i.channel_id))
          × ((is_member i.channel_id i.user_id ≡ some i.user_id)
              × (Repeats parse_uint i.user_id r.uid × Repeats parse_uint i.user_id r.user_header)))

  -- A request is taken to be from the user of its session alone, and for a channel whose token it
  -- carries and that has the user as a member: an identity of Authenticate has the user whom the
  -- validator gives for the session cookie; it carries a token (as a query value, in the header
  -- Authorization or among the protocols; the empty text where it has none) that the package jwt,
  -- under the secret and with an HMAC method only, finds valid at this time, with the channel of the
  -- identity; the table of channels
  -- has the user in the channel; and each of the two values that a client may give for the user is
  -- blank or, without spaces around it, parses as that user.
  pub authenticate-IsAccepted :
      (now : ℕ) (r : Request) (i : Identity)
      → authenticate parse_uint validator jwt settings is_member now r ≡ ok i
      → IsAccepted now r i
  unfolding authenticate in_channel
  authenticate-IsAccepted now r i e =
      let u = bind-ok (authenticated_session_user parse_uint validator r) _ i e in
      let named = refuse_if-ok (not (agrees parse_uint u.0 r.uid)) _ _ i u.1.1 in
      let headed = refuse_if-ok (not (agrees parse_uint u.0 r.user_header)) _ _ i named.1 in
      let c =
        or_refuse-ok _ (unexpired_channel (auth jwt settings now (token_of r))) _ i headed.1 in
      let joined = refuse_if-ok (not (is_user u.0 (is_member c.0 u.0))) _ _ i c.1.1 in
      let same : record { user_id = u.0; channel_id = c.0 } ≡ i = cc in
      subst (IsAccepted now r) same (
        session_user r u.0 u.1.0,
        (
          (token_of r, (token_of-Carries r, valid_token jwt settings now (token_of r) c.0 c.1.0)),
          (
            repeated u.0 (is_member c.0 u.0) (true_from_not _ joined.0),
            (
              agrees-Repeats parse_uint u.0 r.uid named.0,
              agrees-Repeats parse_uint u.0 r.user_header headed.0,
            ),
          ),
        ),
      )
