-- ===== src/Scenarios/Friends.antt =====
-- A request that is accepted, the friend removed, and the request accepted again.
use nexus_chat.Base.{[], if◌then◌else◌, ◌≡◌, ◌≢◌, refl, true, false, none, some, ◌==◌, ◌&&◌}
use nexus_chat.Effects.{ok}
use nexus_chat.Friends.{
  accepted, FriendRequest, Tables, done, Services, accept_friend_request, remove_friend, is_friend,
  write, read, now, ignore, set_to, set_from, set_friend_hash, set_friendship, durable_request,
  settle_accepted, befriend, accept_found,
}
use nexus_chat.Friends.Requests.{Peers, is_blocked}
use nexus_chat.Friends.Kept.{IsAccepted}
use nexus_chat.Friends.Decided.{here, next, removes, Reach-IsAccepted}
use nexus_chat.Friends.Friendships.{is_friend-accept_friend_request}
use nexus_chat.Friends.Readmission.{accept_friend_request-remove_friend}

abbrev services : Services
services = record { works = λ n. done; clock = λ n. n }

abbrev request : FriendRequest
request = record { from_user = 1; to_user = 2; status = accepted; created_at = 5 }

-- user 2 has accepted the request of user 1
abbrev decided : Tables
decided = record {
  requests = λ a b. if a == 2 && b == 1 then some request else none;
  friendships = λ a b. none;
  requests_to = λ a b. none;
  requests_from = λ a b. none;
  friend_hash = λ a b. none;
  declined_hash = λ a b. none;
  notices = [];
  commands = 0;
  readings = 0;
}

Reach-IsAccepted_example : IsAccepted 2 1 (remove_friend services 1 2 decided).1
Reach-IsAccepted_example =
    Reach-IsAccepted services 2 1 decided _ (next here (removes 1 2 decided)) refl

accept_friend_request-remove_friend_example :
    ((is_friend services 1 2 (remove_friend services 1 2 decided).1).0 ≡ ok false)
    × (((accept_friend_request services 2 1 (remove_friend services 1 2 decided).1).0 ≡ ok tt)
        × ((is_friend services 1 2
              (accept_friend_request services 2 1 (remove_friend services 1 2 decided).1).1).0
            ≡ ok true))
accept_friend_request-remove_friend_example =
    accept_friend_request-remove_friend services 1 2 request decided (λ n. refl) refl refl

abbrev befriended : Tables
befriended = (accept_friend_request services 2 1 decided).1

accept_succeeds : accept_friend_request services 2 1 decided ≡ (ok tt, befriended)
unfolding accept_friend_request accept_found settle_accepted befriend set_to set_from
    set_friend_hash set_friendship durable_request ignore write read now
accept_succeeds = refl

is_friend-accept_friend_request_example :
    ((is_friend services 2 1 befriended).0 ≢ ok false)
    × ((is_friend services 1 2 befriended).0 ≢ ok false)
is_friend-accept_friend_request_example =
    is_friend-accept_friend_request services 2 1 decided befriended accept_succeeds

abbrev parted : Tables
parted = (remove_friend services 1 2 befriended).1

remove_succeeds : remove_friend services 1 2 befriended ≡ (ok tt, parted)
unfolding remove_friend set_friend_hash set_friendship write
remove_succeeds = refl

abbrev strangers : Peers
strangers = record { knows = λ u. true; blocking = λ a b. is_blocked }
