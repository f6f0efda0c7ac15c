-- ===== src/Friends/Readmission.antt =====
-- What remains of an accepted friend request when the friend is removed (pkg/user/repo.go).
use nexus_chat.Base.{ℕ, ◌≡◌, ap, ◌∙◌, true, false, Option, none, some, arith, ==_iff}
use nexus_chat.Effects.{ok}
use nexus_chat.Friends.{
  accepted, FriendRequest, Tables, done, Services, counted, set_entry, write, read, now, ignore,
  set_to, set_from, set_friend_hash, set_friendship, durable_request, settle_accepted, befriend,
  accept_found, accept_friend_request, remove_friend, is_friend, friend_in,
}

pub set_entry-same :
    {A : Type 0} (a b : ℕ) (v : Option A) (f : ℕ → ℕ → Option A) → set_entry a b v f a b ≡ v
unfolding set_entry
set_entry-same a b v f = ground (arith, ==_iff a a, ==_iff b b)

set_entry-removed :
    {A : Type 0} (a b : ℕ) (f : ℕ → ℕ → Option A)
    → set_entry b a none (set_entry a b none f) a b ≡ none
unfolding set_entry
set_entry-removed a b f = ground (arith, ==_iff a a, ==_iff b b)

module _ (services : Services) (up : (n : ℕ) → services.works n ≡ done) where
  write_done :
      (f : Tables → Tables) (t : Tables) → write services f t ≡ (ok tt, f (counted services t))
  unfolding write
  write_done f t = rw (up t.commands)

  read_done :
      {A : Type 0} (f : Tables → A) (t : Tables)
      → read services f t ≡ (ok (f t), counted services t)
  unfolding read
  read_done f t = rw (up t.commands)

  accept-again :
      (to from : ℕ) (r : FriendRequest) (t : Tables)
      → t.requests to from ≡ some r
      → r.status ≡ accepted
      → (accept_friend_request services to from t).0 ≡ ok tt
  unfolding accept_friend_request accept_found settle_accepted befriend now ignore set_to set_from
      set_friend_hash set_friendship durable_request
  accept-again to from r t e h = simp (write_done, read_done, e, h)

  accept-friendships :
      (to from : ℕ) (r : FriendRequest) (t : Tables)
      → t.requests to from ≡ some r
      → r.status ≡ accepted
      → (accept_friend_request services to from t).1.friendships
        ≡ set_entry from to
            (some (services.clock t.readings))
            (set_entry to from (some (services.clock t.readings)) t.friendships)
  unfolding accept_friend_request accept_found settle_accepted befriend now ignore set_to set_from
      set_friend_hash set_friendship durable_request
  accept-friendships to from r t e h = simp (write_done, read_done, e, h)

  remove-tables :
      (user friend : ℕ) (t : Tables)
      → ((remove_friend services user friend t).1.requests ≡ t.requests)
        × (((remove_friend services user friend t).1.friendships
              ≡ set_entry friend user none (set_entry user friend none t.friendships))
            × ((remove_friend services user friend t).1.friend_hash
                ≡ set_entry friend user none (set_entry user friend none t.friend_hash)))
  unfolding remove_friend set_friend_hash set_friendship
  remove-tables user friend t = (simp write_done, (simp write_done, simp write_done))

  is_friend-absent :
      (a b : ℕ) (t : Tables)
      → t.friendships a b ≡ none
      → t.friend_hash a b ≡ none
      → (is_friend services a b t).0 ≡ ok false
  unfolding is_friend friend_in
  is_friend-absent a b t e h = simp (read_done, e, h)

  is_friend-present :
      (a b c : ℕ) (t : Tables) → t.friendships a b ≡ some c → (is_friend services a b t).0 ≡ ok true
  unfolding is_friend friend_in
  is_friend-present a b c t e = simp (read_done, e)

-- From tables where a request is accepted, if all statements succeed: the sender removes the friend and
-- the two are friends no more, but then the recipient accepts the old request again, with success, and
-- the two are friends again.
pub accept_friend_request-remove_friend :
    (services : Services) (sender recipient : ℕ) (r : FriendRequest) (s : Tables)
    → ((n : ℕ) → services.works n ≡ done)
    → s.requests recipient sender ≡ some r
    → r.status ≡ accepted
    → ((is_friend services sender recipient (remove_friend services sender recipient s).1).0
        ≡ ok false)
      × (((accept_friend_request services recipient sender
              (remove_friend services sender recipient s).1).0
            ≡ ok tt)
          × ((is_friend services sender recipient
                (accept_friend_request services recipient sender
                  (remove_friend services sender recipient s).1).1).0
              ≡ ok true))
accept_friend_request-remove_friend services sender recipient r s up e h =
    let t = (remove_friend services sender recipient s).1 in
    let (p, (q, q')) = remove-tables services up sender recipient s in
    let e' : t.requests recipient sender ≡ some r = ap (λ f. f recipient sender) p ∙ e in
    (
      is_friend-absent services up sender recipient t
          (ap (λ f. f sender recipient) q ∙ set_entry-removed sender recipient s.friendships)
          (ap (λ f. f sender recipient) q' ∙ set_entry-removed sender recipient s.friend_hash),
      (
        accept-again services up recipient sender r t e' h,
        is_friend-present services up sender recipient (services.clock t.readings) _ (
            ap (λ f. f sender recipient) (accept-friendships services up recipient sender r t e' h)
            ∙ set_entry-same sender recipient _ _),
      ),
    )
