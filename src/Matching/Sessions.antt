-- ===== src/Matching/Sessions.antt =====
-- Which WebSocket sessions get the result of a match: the filters that deliverMatchResult of
-- pkg/match/http_api.go and sendMatchResult of pkg/match/match_sub.go hand to melody's
-- BroadcastFilter, which writes the result to the sessions for which the filter answers true.
--
-- A session is what its keys hold; AddUserToChannel is a call of the outside.
use nexus_chat.Base.{
  ℕ, suc, ap, ◌∙◌, sym, ◌≤◌, ◌≡◌, refl, Bool, true, false, ◌||◌, List, [], ◌∷◌, Option, none, some,
  arith, ◌==◌, if◌then◌else◌,
}
use mathlib.Core.Bool.{false≢true}
use nexus_chat.Effects.{World, Env}
use nexus_chat.Matching.{MatchResult}

pub record Session : Type 0 where
  pub uid : Option ℕ
  pub is_matched : Bool

pub data Call : Type 0 where
  add_user : (channel user : ℕ) → Call

module _ (env : Env Call) where
  -- the end of both filters: the answer and the session, after the call
  unfoldable pub join_channel :
      MatchResult → ℕ → Session → World Call → Bool × (Session × World Call)
  join_channel r u s w =
      let c = add_user r.channel_id u in
      let b = env.accepts w.calls c in
      (b, (if b then record s { is_matched = true } else s, record w { calls = (c, b) ∷ w.calls }))

  abbrev is_party : MatchResult → ℕ → Bool
  is_party r u = u == r.peer_id || u == r.user_id

  -- the filter of deliverMatchResult, for a session under the key `uid`
  unfoldable pub deliver_to :
      Option ℕ → MatchResult → Session → World Call → Bool × (Session × World Call)
  unfolding join_channel
  deliver_to none r s w = (false, (s, w))
  deliver_to (some u) r s w =
      if is_party r u
      then (if s.is_matched then (false, (s, w)) else join_channel r u s w)
      else (false, (s, w))

  abbrev pub deliver : MatchResult → Session → World Call → Bool × (Session × World Call)
  deliver r s = deliver_to s.uid r s

  -- the filter of sendMatchResult
  unfoldable pub send_to :
      Option ℕ → MatchResult → Session → World Call → Bool × (Session × World Call)
  unfolding join_channel
  send_to none r s w = (false, (s, w))
  send_to (some u) r s w =
      if s.is_matched
      then (false, (s, w))
      else (if is_party r u then join_channel r u s w else (false, (s, w)))

  abbrev pub send_result : MatchResult → Session → World Call → Bool × (Session × World Call)
  send_result r s = send_to s.uid r s

  -- the two handlers of a result
  pub data Handler : Type 0 where
    server subscriber : Handler

  abbrev pub filter : Handler → MatchResult → Session → World Call → Bool × (Session × World Call)
  filter server = deliver
  filter subscriber = send_result

  -- how many of these results reach a session, one after the other, through whichever handler
  abbrev pub received : List (Handler × MatchResult) → Session → World Call → ℕ
  received [] s w = 0
  received ((h, r) ∷ rest) s w =
      let (b, (s', w')) = filter h r s w in let n = received rest s' w' in if b then suc n else n

  deliver_to-send_to :
      (o : Option ℕ) (r : MatchResult) (s : Session) (w : World Call)
      → deliver_to o r s w ≡ send_to o r s w
  unfolding deliver_to send_to
  deliver_to-send_to none r s w = refl
  deliver_to-send_to (some u) r s w = ground arith

  -- The filters of the two handlers answer alike, and change the session and call the outside alike.
  pub deliver-send_result :
      (r : MatchResult) (s : Session) (w : World Call) → deliver r s w ≡ send_result r s w
  deliver-send_result r s w = deliver_to-send_to s.uid r s w

  deliver_to-joined :
      (o : Option ℕ) (r : MatchResult) (s : Session) (w : World Call)
      → (deliver_to o r s w).0 ≡ true
      → (s.is_matched ≡ false)
        × ((u : ℕ) × ((o ≡ some u)
              × (((u == r.peer_id || u == r.user_id) ≡ true)
                  × (((deliver_to o r s w).1.0.is_matched ≡ true)
                      × ((deliver_to o r s w).1.1.calls
                          ≡ (add_user r.channel_id u, true) ∷ w.calls)))))
  unfolding deliver_to join_channel
  deliver_to-joined none r s w e = cc
  deliver_to-joined (some u) r s w e =
      (ground (arith, e), (u, (refl, (ground (arith, e), (ground (arith, e), ground (arith, e))))))

  -- Where deliverMatchResult answers true for a session, the session had no result yet and its user
  -- is one of the pair, and the one call that was made put this user into the channel.
  pub deliver-joined :
      (r : MatchResult) (s : Session) (w : World Call)
      → (deliver r s w).0 ≡ true
      → (s.is_matched ≡ false)
        × ((u : ℕ) × ((s.uid ≡ some u)
              × (((u == r.peer_id || u == r.user_id) ≡ true)
                  × (((deliver r s w).1.0.is_matched ≡ true)
                      × ((deliver r s w).1.1.calls ≡ (add_user r.channel_id u, true) ∷ w.calls)))))
  deliver-joined r s w e = deliver_to-joined s.uid r s w e

  deliver_to-matched :
      (o : Option ℕ) (r : MatchResult) (s : Session) (w : World Call)
      → s.is_matched ≡ true
      → deliver_to o r s w ≡ (false, (s, w))
  unfolding deliver_to
  deliver_to-matched none r s w m = refl
  deliver_to-matched (some u) r s w m = ground arith

  -- the facts of both filters, on their one answer
  filter-deliver :
      (h : Handler) (r : MatchResult) (s : Session) (w : World Call)
      → filter h r s w ≡ deliver r s w
  filter-deliver server r s w = refl
  filter-deliver subscriber r s w = sym (deliver-send_result r s w)

  abbrev Bounded : Session → ℕ → Type 0
  Bounded s n = (n ≤ 1) × (s.is_matched ≡ true → n ≡ 0)

  counted :
      (s s' : Session) (b : Bool) (n : ℕ)
      → (b ≡ true → s'.is_matched ≡ true)
      → (s.is_matched ≡ true → (b ≡ false) × (s'.is_matched ≡ true))
      → Bounded s' n
      → Bounded s (if b then suc n else n)
  counted s s' true n joins stays h =
      (ground (arith, h.1 (joins refl)), λ m. absurd (false≢true (sym (stays m).0)))
  counted s s' false n joins stays h = (h.0, λ m. h.1 (stays m).1)

  -- A session receives at most one result, whatever results go through the two handlers, and none
  -- if it has one already.
  pub received-bound :
      (rs : List (Handler × MatchResult)) (s : Session) (w : World Call)
      → (received rs s w ≤ 1) × (s.is_matched ≡ true → received rs s w ≡ 0)
  received-bound [] s w = (omega arith, λ m. refl)
  received-bound ((h, r) ∷ rs) s w =
      let x = deliver r s w in
      rw (filter-deliver h r s w) (
        counted s x.1.0 x.0 (received rs x.1.0 x.1.1) (λ b. (deliver-joined r s w b).1.1.1.1.0)
          (λ m. (
            ap (λ y. y.0) (deliver_to-matched s.uid r s w m),
            ap (λ y. y.1.0.is_matched) (deliver_to-matched s.uid r s w m) ∙ m,
          ))
          (received-bound rs x.1.0 x.1.1))
