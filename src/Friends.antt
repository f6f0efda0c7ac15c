-- ===== src/Friends.antt =====
-- pkg/user/repo.go: friend requests and friendships over Cassandra and its mirror in Redis.
--
-- The tables are functions of their keys. The n-th command of a database succeeds, fails, or fails
-- after it was applied, as `works n` says; a conditional statement applies if its condition holds.
-- Other instances of the service do not run between two commands of one operation. Times are
-- milliseconds from 1970, `clock n` at the n-th call of time.Now().
pub mod Statements
pub mod Kept
pub mod Decided
pub mod Friendships
pub mod Readmission
pub mod Requests
pub mod Relations
use nexus_chat.Base.{
  ℕ, suc, Bool, true, false, not, ◌&&◌, Option, none, some, List, [], ◌∷◌, ◌==◌, if◌then◌else◌,
}
use nexus_chat.Effects.{Result, ok, err}
use nexus_chat.Stateful.{Op, return, throw, ◌>>=◌, ◌>>◌}

pub data Status : Type 0 where
  pending accepted declined : Status

pub record FriendRequest : Type 0 where
  pub from_user : ℕ
  pub to_user : ℕ
  pub status : Status
  pub created_at : ℕ

-- the notifications of requests, by the request or the two users
pub data Notice : Type 0 where
  requested : FriendRequest → Notice
  request_accepted request_declined : (actor peer : ℕ) → Notice

-- friend_requests_by_recipient and friendships_by_user of Cassandra, and the hashes of Redis
pub record Tables : Type 0 where
  -- by recipient and sender
  pub requests : ℕ → ℕ → Option FriendRequest
  pub friendships : ℕ → ℕ → Option ℕ
  pub requests_to : ℕ → ℕ → Option FriendRequest
  pub requests_from : ℕ → ℕ → Option FriendRequest
  pub friend_hash : ℕ → ℕ → Option ℕ
  -- by sender and recipient
  pub declined_hash : ℕ → ℕ → Option ℕ
  -- what the notification outbox was given, with the user who is told, the newest first
  pub notices : List (ℕ × Notice)
  pub commands : ℕ
  pub readings : ℕ

pub data Outcome : Type 0 where
  done failed failed_applied : Outcome

pub data Error : Type 0 where
  unavailable request_exists request_not_found row_not_found : Error
  cannot_friend_self user_not_found safety_unavailable blocked already_friends : Error
  notification_failed : Error

pub record Services : Type 0 where
  pub works : ℕ → Outcome
  pub clock : ℕ → ℕ

-- a table with one entry replaced
unfoldable pub set_entry : {A : Type 0} → ℕ → ℕ → Option A → (ℕ → ℕ → Option A) → ℕ → ℕ → Option A
set_entry a b v f x y = if x == a && y == b then v else f x y

abbrev pub is_pending : Option FriendRequest → Bool
is_pending none = false
is_pending (some r) = elim r.status [ pending ↦ true | _ ↦ false ]

abbrev pub is_declined : Option FriendRequest → Bool
is_declined none = false
is_declined (some r) = elim r.status [ declined ↦ true | _ ↦ false ]

abbrev pub is_accepted : Option FriendRequest → Bool
is_accepted none = false
is_accepted (some r) = elim r.status [ accepted ↦ true | _ ↦ false ]

abbrev pub is_present : {A : Type 0} → Option A → Bool
is_present none = false
is_present (some a) = true

abbrev pub with_status : Status → Option FriendRequest → Option FriendRequest
with_status s none = none
with_status s (some r) = some (record r { status = s })

-- the end of a statement that returns `a`, and leaves `t` where it is not applied, `u` where it is
abbrev pub ended : {A : Type 0} → Outcome → A → Tables → Tables → Result Error A × Tables
ended done a t u = (ok a, u)
ended failed a t u = (err unavailable, t)
ended failed_applied a t u = (err unavailable, u)

module _ (services : Services) where
  abbrev pub counted : Tables → Tables
  counted t = record t { commands = suc t.commands }

  -- a statement that writes
  unfoldable pub write : (Tables → Tables) → Op Tables Error (Unit {0})
  write f t = ended (services.works t.commands) tt (counted t) (f (counted t))

  -- a conditional statement: whether it was applied
  unfoldable pub write_if : (Tables → Bool) → (Tables → Tables) → Op Tables Error Bool
  write_if p f t =
      ended (services.works t.commands) (p t) (counted t) (if p t then f (counted t) else counted t)

  unfoldable pub read : {A : Type 0} → (Tables → A) → Op Tables Error A
  read f t = ended (services.works t.commands) (f t) (counted t) (counted t)

  unfoldable pub now : Op Tables Error ℕ
  now t = (ok (services.clock t.readings), record t { readings = suc t.readings })

  -- `_ = statement`
  unfoldable pub ignore : {A : Type 0} → Op Tables Error A → Op Tables Error (Unit {0})
  ignore m t = (ok tt, (m t).1)

  -- the statements, by the tables that they write
  unfoldable pub set_request : ℕ → ℕ → Option FriendRequest → Op Tables Error (Unit {0})
  set_request to from v = write (λ t. record t { requests = set_entry to from v t.requests })

  unfoldable pub set_to : ℕ → ℕ → Option FriendRequest → Op Tables Error (Unit {0})
  set_to to from v = write (λ t. record t { requests_to = set_entry to from v t.requests_to })

  unfoldable pub set_from : ℕ → ℕ → Option FriendRequest → Op Tables Error (Unit {0})
  set_from from to v = write (λ t. record t { requests_from = set_entry from to v t.requests_from })

  unfoldable pub set_friend_hash : ℕ → ℕ → Option ℕ → Op Tables Error (Unit {0})
  set_friend_hash a b v = write (λ t. record t { friend_hash = set_entry a b v t.friend_hash })

  unfoldable pub set_declined : ℕ → ℕ → Option ℕ → Op Tables Error (Unit {0})
  set_declined from to v =
      write (λ t. record t { declined_hash = set_entry from to v t.declined_hash })

  -- persistFriendship and deleteFriendship
  unfoldable pub set_friendship : ℕ → ℕ → Option ℕ → Op Tables Error (Unit {0})
  set_friendship a b v = write (λ t. record t { friendships = set_entry a b v t.friendships })

  -- getDurableFriendRequest
  unfoldable pub durable_request : ℕ → ℕ → Op Tables Error (Option FriendRequest)
  durable_request to from = read (λ t. t.requests to from)

  -- a row of a statement that must find one
  unfoldable pub found : Option FriendRequest → Op Tables Error FriendRequest
  found none = throw row_not_found
  found (some r) = return r

  unfoldable pub require : Bool → Error → Op Tables Error (Unit {0})
  require true e = return tt
  require false e = throw e

  -- the conditional statement that sets the status of a row whose status is `s`
  unfoldable pub set_status_if :
      (Option FriendRequest → Bool) → ℕ → ℕ → Option FriendRequest → Op Tables Error Bool
  set_status_if p to from v =
      write_if (λ t. p (t.requests to from))
        λ t. record t { requests = set_entry to from v t.requests }

  unfoldable pub mirror_request : FriendRequest → Op Tables Error (Unit {0})
  mirror_request r = do
    ignore (set_declined r.from_user r.to_user none)
    ignore (set_from r.from_user r.to_user (some r))
    ignore (set_to r.to_user r.from_user (some r))

  -- after `INSERT … IF NOT EXISTS`: a declined request is opened again
  unfoldable pub reopen : FriendRequest → Bool → Op Tables Error (Unit {0})
  reopen r true = return tt
  reopen r false = do
    row ← durable_request r.to_user r.from_user
    old ← found row
    require (is_declined (some old)) request_exists
    applied ← set_status_if is_declined r.to_user r.from_user (some r)
    require applied request_exists

  -- INSERT … IF NOT EXISTS
  unfoldable pub insert_request : FriendRequest → Op Tables Error Bool
  insert_request r = set_status_if (λ o. not (is_present o)) r.to_user r.from_user (some r)

  -- CreateFriendRequest
  unfoldable pub create_friend_request : FriendRequest → Op Tables Error (Unit {0})
  create_friend_request r = do applied ← insert_request r; reopen r applied; mirror_request r

  -- getFriendRequest, where Cassandra has no row
  unfoldable pub mirrored_request : ℕ → ℕ → Op Tables Error (Unit {0})
  mirrored_request to from = do
    row ← read (λ t. t.requests_to to from)
    require (is_pending row) request_not_found

  unfoldable pub with_durable :
      Option FriendRequest → Op Tables Error (Unit {0}) → Op Tables Error (Unit {0})
  with_durable none legacy = legacy
  with_durable (some r) legacy = require (is_pending (some r)) request_not_found

  -- getFriendRequest
  unfoldable pub get_friend_request : ℕ → ℕ → Op Tables Error (Unit {0})
  get_friend_request to from = do
    row ← durable_request to from
    with_durable row (mirrored_request to from)

  -- after the conditional update to 'accepted': it may have been accepted before
  unfoldable pub accepted_already : ℕ → ℕ → Bool → Op Tables Error (Unit {0})
  accepted_already to from true = return tt
  accepted_already to from false = do
    latest ← durable_request to from
    require (is_accepted latest) request_not_found

  unfoldable pub settle_accepted : ℕ → ℕ → Status → FriendRequest → Op Tables Error (Unit {0})
  settle_accepted to from accepted r = return tt
  settle_accepted to from declined r = throw request_not_found
  settle_accepted to from pending r = do
    applied ← set_status_if is_pending to from (some (record r { status = accepted }))
    accepted_already to from applied

  unfoldable pub befriend : ℕ → ℕ → Op Tables Error (Unit {0})
  befriend to from = do
    created_at ← now
    set_friendship to from (some created_at)
    set_friendship from to (some created_at)
    ignore (set_to to from none)
    ignore (set_from from to none)
    ignore (set_friend_hash to from (some created_at))
    ignore (set_friend_hash from to (some created_at))

  unfoldable pub accept_mirrored : ℕ → ℕ → Op Tables Error (Unit {0})
  accept_mirrored to from = do
    get_friend_request to from
    set_to to from none
    set_from from to none
    created_at ← now
    set_friend_hash to from (some created_at)
    set_friend_hash from to (some created_at)
    set_friendship to from (some created_at)
    set_friendship from to (some created_at)

  unfoldable pub accept_found : ℕ → ℕ → Option FriendRequest → Op Tables Error (Unit {0})
  accept_found to from none = accept_mirrored to from
  accept_found to from (some r) = settle_accepted to from r.status r >> befriend to from

  -- AcceptFriendRequest
  unfoldable pub accept_friend_request : ℕ → ℕ → Op Tables Error (Unit {0})
  accept_friend_request to from = durable_request to from >>= accept_found to from

  unfoldable pub settle_declined : ℕ → ℕ → Status → FriendRequest → Op Tables Error (Unit {0})
  settle_declined to from declined r = return tt
  settle_declined to from accepted r = throw request_not_found
  settle_declined to from pending r = do
    applied ← set_status_if is_pending to from (some (record r { status = declined }))
    require applied request_not_found

  unfoldable pub decline_found : ℕ → ℕ → Option FriendRequest → Op Tables Error (Unit {0})
  decline_found to from (some r) = do
    settle_declined to from r.status r
    ignore (set_to to from none)
    ignore (set_from from to none)
    at ← now
    ignore (set_declined from to (some at))
  decline_found to from none = do
    get_friend_request to from
    set_to to from none
    set_from from to none
    at ← now
    set_declined from to (some at)

  -- DeclineFriendRequest
  unfoldable pub decline_friend_request : ℕ → ℕ → Op Tables Error (Unit {0})
  decline_friend_request to from = durable_request to from >>= decline_found to from

  unfoldable pub cancel_found : ℕ → ℕ → Option FriendRequest → Op Tables Error (Unit {0})
  cancel_found to from (some r) = do
    require (is_pending (some r)) request_not_found
    applied ← set_status_if is_pending to from none
    require applied request_not_found
    ignore (set_to to from none)
    ignore (set_from from to none)
  cancel_found to from none = do
    get_friend_request to from
    set_to to from none
    set_from from to none

  -- CancelFriendRequest
  unfoldable pub cancel_friend_request : ℕ → ℕ → Op Tables Error (Unit {0})
  cancel_friend_request from to = durable_request to from >>= cancel_found to from

  -- RemoveFriend
  unfoldable pub remove_friend : ℕ → ℕ → Op Tables Error (Unit {0})
  remove_friend user friend = do
    set_friend_hash user friend none
    set_friend_hash friend user none
    set_friendship user friend none
    set_friendship friend user none

  unfoldable pub friend_in : ℕ → ℕ → Option ℕ → Op Tables Error Bool
  friend_in user peer (some at) = return true
  friend_in user peer none = read (λ t. is_present (t.friend_hash user peer))

  -- IsFriend
  unfoldable pub is_friend : ℕ → ℕ → Op Tables Error Bool
  is_friend user peer = read (λ t. t.friendships user peer) >>= friend_in user peer
