-- ===== src/Friends/Requests.antt =====
-- pkg/user/service.go: who may send a friend request, and whom the service tells of it.
--
-- The user lookup and the safety service are parameters: `knows` says whether GetUserByID finds a
-- user, `blocking` what IsUserBlocked answers on a pair. The notification outbox takes a notice as
-- one statement.
use nexus_chat.Base.{
  ℕ, ◌≡◌, refl, Bool, true, false, not, ◌||◌, Option, none, some, ◌∷◌, ◌==◌, if◌then◌else◌, arith,
}
use nexus_chat.Effects.{Result, ok, err}
use nexus_chat.Stateful.{Op, return, throw, throw_if, ◌>>=◌, ◌>>◌}
use nexus_chat.Friends.{
  pending, FriendRequest, Tables, Error, request_exists, cannot_friend_self, user_not_found,
  safety_unavailable, blocked, already_friends, notification_failed, Services, Notice, requested,
  request_accepted, request_declined, is_pending, read, write, now, durable_request, is_friend,
  create_friend_request, accept_friend_request, decline_friend_request,
}

pub data Blocking : Type 0 where
  unchecked unreachable is_blocked is_free : Blocking

pub record Peers : Type 0 where
  pub knows : ℕ → Bool
  pub blocking : ℕ → ℕ → Blocking

module _ (services : Services) (peers : Peers) where
  abbrev attempt : {A : Type 0} → Op Tables Error A → Op Tables Error (Result Error A)
  attempt m t = let (r, t') = m t in (ok r, t')

  abbrev told : Result Error (Unit {0}) → Op Tables Error (Unit {0})
  told (ok a) = return tt
  told (err e) = throw notification_failed

  -- CreateNotification with the outbox, whose error is wrapped
  unfoldable pub notify : ℕ → Notice → Op Tables Error (Unit {0})
  notify user notice =
      attempt (write services λ t. record t { notices = (user, notice) ∷ t.notices }) >>= told

  -- createFriendRequestNotification
  abbrev pub notify_request : FriendRequest → Op Tables Error (Unit {0})
  notify_request r = notify r.to_user (requested r)

  abbrev pub pending_or : Option FriendRequest → Option FriendRequest → Option FriendRequest
  pending_or row mirror = if is_pending row then row else if is_pending mirror then mirror else none

  -- the entry of GetFriendRequests for one sender
  unfoldable pub incoming : ℕ → ℕ → Op Tables Error (Option FriendRequest)
  incoming user sender = do
    row ← durable_request services user sender
    mirror ← read services (λ t. t.requests_to user sender)
    return (pending_or row mirror)

  unfoldable pub check_safety : Blocking → Op Tables Error (Unit {0})
  check_safety unchecked = return tt
  check_safety unreachable = throw safety_unavailable
  check_safety is_blocked = throw blocked
  check_safety is_free = return tt

  -- a request that is there already: its notification once more
  unfoldable pub notify_again : Result Error (Option FriendRequest) → Op Tables Error (Unit {0})
  notify_again (ok (some r)) = notify_request r
  notify_again (ok none) = return tt
  notify_again (err e) = return tt

  unfoldable pub after_create :
      FriendRequest → Result Error (Unit {0}) → Op Tables Error FriendRequest
  after_create r (ok a) = notify_request r >> return r
  after_create r (err e) = elim e [
    | request_exists ↦
        attempt (incoming r.to_user r.from_user) >>= notify_again >> throw request_exists
    | other ↦ throw other
  ]

  -- what SendFriendRequest does once the safety service has let the pair through
  unfoldable pub offer_request : ℕ → ℕ → Op Tables Error FriendRequest
  offer_request from to = do
    friends ← is_friend services from to
    throw_if friends already_friends
    reverse ← incoming from to
    throw_if (is_pending reverse) request_exists
    at ← now services
    let r : FriendRequest = record {
      from_user = from;
      to_user = to;
      status = pending;
      created_at = at;
    }
    created ← attempt (create_friend_request services r)
    after_create r created

  abbrev guarded :
      Bool → Bool → Bool → Blocking → Op Tables Error FriendRequest → Op Tables Error FriendRequest
  guarded to_self knows_from knows_to blocking offer = do
    throw_if to_self cannot_friend_self
    throw_if (not knows_from) user_not_found
    throw_if (not knows_to) user_not_found
    check_safety blocking
    offer

  -- SendFriendRequest
  unfoldable pub send_friend_request : ℕ → ℕ → Op Tables Error FriendRequest
  unfolding check_safety
  send_friend_request from to =
      guarded (from == 0 || from == to) (peers.knows from) (peers.knows to) (peers.blocking from to)
        (offer_request from to)

  -- the service's AcceptFriendRequest and DeclineFriendRequest
  unfoldable pub accept_and_tell : ℕ → ℕ → Op Tables Error (Unit {0})
  accept_and_tell user from = do
    accept_friend_request services user from
    notify from (request_accepted user from)

  unfoldable pub decline_and_tell : ℕ → ℕ → Op Tables Error (Unit {0})
  decline_and_tell user from = do
    decline_friend_request services user from
    notify from (request_declined user from)

  abbrev pub is_refusal : Blocking → Bool
  is_refusal unchecked = false
  is_refusal unreachable = true
  is_refusal is_blocked = true
  is_refusal is_free = false

  -- A friend request from the user 0, to oneself, or between users for whom the safety service reports
  -- a block or cannot be reached, fails and leaves all tables as they are, without a command.
  pub send_friend_request-refused :
      (from to : ℕ) (t : Tables)
      → (from == 0 || from == to || is_refusal (peers.blocking from to)) ≡ true
      → (e : Error) × (send_friend_request from to t ≡ (err e, t))
  unfolding send_friend_request
  send_friend_request-refused from to t h =
      branch (from == 0 || from == to) (peers.knows from) (peers.knows to) (peers.blocking from to)
        (ground (arith, h))
    where
      branch :
          (to_self k1 k2 : Bool) (b : Blocking)
          → (to_self || is_refusal b) ≡ true
          → (e : Error) × (guarded to_self k1 k2 b (offer_request from to) t ≡ (err e, t))
      branch true k1 k2 b h = (_, refl)
      branch false false k2 b h = (_, refl)
      branch false true false b h = (_, refl)
      branch false true true unchecked h = cc
      branch false true true unreachable h = (_, refl)
      branch false true true is_blocked h = (_, refl)
      branch false true true is_free h = cc
