-- ===== src/Friends/Decided.antt =====
-- An accepted friend request stays accepted, whatever is done and whatever fails (pkg/user/repo.go).
use nexus_chat.Base.{ℕ, Bool, true, false, Option, none, some}
use nexus_chat.Stateful.{Op, Keeps, Keeps-after}
use nexus_chat.Friends.{
  Status, pending, accepted, declined, FriendRequest, Tables, Error, Services, mirror_request,
  reopen, insert_request, create_friend_request, mirrored_request, with_durable, get_friend_request,
  accepted_already, settle_accepted, befriend, accept_mirrored, accept_found, accept_friend_request,
  settle_declined, decline_found, decline_friend_request, cancel_found, cancel_friend_request,
  remove_friend,
}
use nexus_chat.Friends.Kept.{IsAccepted, kept_rules}

module _ (services : Services) (a b : ℕ) where
  kept_mirror_request : (r : FriendRequest) → Keeps (IsAccepted a b) (mirror_request services r)
  unfolding mirror_request
  kept_mirror_request r = search kept_rules

  kept_reopen : (r : FriendRequest) (c : Bool) → Keeps (IsAccepted a b) (reopen services r c)
  unfolding reopen
  kept_reopen r true = search kept_rules
  kept_reopen r false = search kept_rules depth 12

  kept_create : (r : FriendRequest) → Keeps (IsAccepted a b) (create_friend_request services r)
  unfolding create_friend_request insert_request
  kept_create r = search (kept_rules, kept_reopen, kept_mirror_request) depth 12

  kept_mirrored : (x y : ℕ) → Keeps (IsAccepted a b) (mirrored_request services x y)
  unfolding mirrored_request
  kept_mirrored x y = search kept_rules

  kept_with_durable :
      (o : Option FriendRequest) (m : Op Tables Error (Unit {0}))
      → Keeps (IsAccepted a b) m
      → Keeps (IsAccepted a b) (with_durable services o m)
  unfolding with_durable
  kept_with_durable none m k = k
  kept_with_durable (some r) m k = search kept_rules

  kept_get_friend_request : (x y : ℕ) → Keeps (IsAccepted a b) (get_friend_request services x y)
  unfolding get_friend_request
  kept_get_friend_request x y = search (kept_rules, kept_with_durable, kept_mirrored)

  kept_accepted_already :
      (x y : ℕ) (c : Bool) → Keeps (IsAccepted a b) (accepted_already services x y c)
  unfolding accepted_already
  kept_accepted_already x y true = search kept_rules
  kept_accepted_already x y false = search kept_rules

  kept_settle_accepted :
      (x y : ℕ) (s : Status) (r : FriendRequest)
      → Keeps (IsAccepted a b) (settle_accepted services x y s r)
  unfolding settle_accepted
  kept_settle_accepted x y pending r = search (kept_rules, kept_accepted_already)
  kept_settle_accepted x y accepted r = search kept_rules
  kept_settle_accepted x y declined r = search kept_rules

  kept_befriend : (x y : ℕ) → Keeps (IsAccepted a b) (befriend services x y)
  unfolding befriend
  kept_befriend x y = search kept_rules depth 16

  kept_accept_mirrored : (x y : ℕ) → Keeps (IsAccepted a b) (accept_mirrored services x y)
  unfolding accept_mirrored
  kept_accept_mirrored x y = search (kept_rules, kept_get_friend_request) depth 16

  kept_accept_found :
      (x y : ℕ) (o : Option FriendRequest) → Keeps (IsAccepted a b) (accept_found services x y o)
  unfolding accept_found
  kept_accept_found x y none = kept_accept_mirrored x y
  kept_accept_found x y (some r) = search (kept_rules, kept_settle_accepted, kept_befriend)

  kept_accept : (x y : ℕ) → Keeps (IsAccepted a b) (accept_friend_request services x y)
  unfolding accept_friend_request
  kept_accept x y = search (kept_rules, kept_accept_found)

  kept_settle_declined :
      (x y : ℕ) (s : Status) (r : FriendRequest)
      → Keeps (IsAccepted a b) (settle_declined services x y s r)
  unfolding settle_declined
  kept_settle_declined x y pending r = search kept_rules
  kept_settle_declined x y accepted r = search kept_rules
  kept_settle_declined x y declined r = search kept_rules

  kept_decline_found :
      (x y : ℕ) (o : Option FriendRequest) → Keeps (IsAccepted a b) (decline_found services x y o)
  unfolding decline_found
  kept_decline_found x y none = search (kept_rules, kept_get_friend_request) depth 12
  kept_decline_found x y (some r) = search (kept_rules, kept_settle_declined) depth 12

  kept_decline : (x y : ℕ) → Keeps (IsAccepted a b) (decline_friend_request services x y)
  unfolding decline_friend_request
  kept_decline x y = search (kept_rules, kept_decline_found)

  kept_cancel_found :
      (x y : ℕ) (o : Option FriendRequest) → Keeps (IsAccepted a b) (cancel_found services x y o)
  unfolding cancel_found
  kept_cancel_found x y none = search (kept_rules, kept_get_friend_request) depth 12
  kept_cancel_found x y (some r) = search kept_rules depth 12

  kept_cancel : (x y : ℕ) → Keeps (IsAccepted a b) (cancel_friend_request services x y)
  unfolding cancel_friend_request
  kept_cancel x y = search (kept_rules, kept_cancel_found)

  kept_remove : (x y : ℕ) → Keeps (IsAccepted a b) (remove_friend services x y)
  unfolding remove_friend
  kept_remove x y = search kept_rules depth 12

-- any operations, one after the other
pub data Step (services : Services) : Tables → Tables → Type 0 where
  creates :
      (r : FriendRequest) (t : Tables) → Step services t (create_friend_request services r t).1
  accepts :
      (to from : ℕ) (t : Tables) → Step services t (accept_friend_request services to from t).1
  declines :
      (to from : ℕ) (t : Tables) → Step services t (decline_friend_request services to from t).1
  cancels :
      (from to : ℕ) (t : Tables) → Step services t (cancel_friend_request services from to t).1
  removes :
      (user friend : ℕ) (t : Tables) → Step services t (remove_friend services user friend t).1

pub data Reach (services : Services) (s : Tables) : Tables → Type 0 where
  here : Reach services s s
  next : {t u : Tables} → Reach services s t → Step services t u → Reach services s u

Step-IsAccepted :
    (services : Services) (to from : ℕ) {t u : Tables}
    → Step services t u
    → IsAccepted to from t
    → IsAccepted to from u
Step-IsAccepted services to from (creates r t) h =
    Keeps-after _ t (kept_create services to from r) h
Step-IsAccepted services to from (accepts x y t) h =
    Keeps-after _ t (kept_accept services to from x y) h
Step-IsAccepted services to from (declines x y t) h =
    Keeps-after _ t (kept_decline services to from x y) h
Step-IsAccepted services to from (cancels x y t) h =
    Keeps-after _ t (kept_cancel services to from x y) h
Step-IsAccepted services to from (removes x y t) h =
    Keeps-after _ t (kept_remove services to from x y) h

-- Once a friend request is accepted, its row stays accepted, whatever requests are created, accepted,
-- declined and cancelled and whatever friends removed, by anyone, and however the statements end.
pub Reach-IsAccepted :
    (services : Services) (to from : ℕ) (s t : Tables)
    → Reach services s t
    → IsAccepted to from s
    → IsAccepted to from t
Reach-IsAccepted services to from s t here h = h
Reach-IsAccepted services to from s t (next r step) h =
    Step-IsAccepted services to from step (Reach-IsAccepted services to from s _ r h)
