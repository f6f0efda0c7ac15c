-- ===== src/Friends/Friendships.antt =====
-- Friendships are mutual: what AcceptFriendRequest and RemoveFriend of pkg/user/repo.go reach when
-- they report success, however many of the statements whose error they drop have failed.
use nexus_chat.Base.{ℕ, ◌≡◌, ◌≢◌, ap, subst, true, false, Option, none, some, arith}
use mathlib.Core.Bool.{false≢true}
use nexus_chat.Effects.{Result, ok, err}
use nexus_chat.Stateful.{Op, ◌>>=◌, Ends, Ensures, Keeps, Ensures-bind, Ensures-error, continue}
use nexus_chat.Friends.{
  FriendRequest, Tables, Outcome, done, failed, failed_applied, Error, Services, ended, counted,
  set_entry, is_present, read, now, ignore, set_to, set_from, set_friend_hash, set_friendship,
  durable_request, settle_accepted, befriend, accept_mirrored, accept_found, accept_friend_request,
  get_friend_request, remove_friend, is_friend, friend_in,
}
use nexus_chat.Friends.Statements.{Ensures-write, Keeps-write, Keeps-ignore}
use nexus_chat.Friends.Readmission.{set_entry-same}

set_entry-none :
    {A : Type 0} (a b x y : ℕ) (f : ℕ → ℕ → Option A)
    → f x y ≡ none
    → set_entry a b none f x y ≡ none
unfolding set_entry
set_entry-none a b x y f h = ground (arith, h)

set_entry-present :
    {A : Type 0} (a b x y : ℕ) (v : A) (f : ℕ → ℕ → Option A)
    → is_present (f x y) ≡ true
    → is_present (set_entry a b (some v) f x y) ≡ true
unfolding set_entry
set_entry-present a b x y v f h = ground (arith, h)

abbrev Any : Tables → Type 0
Any t = Unit

module _ (services : Services) (a b : ℕ) where
  abbrev Befriended : Tables → Type 0
  Befriended t = (is_present (t.friendships a b) ≡ true) × (is_present (t.friendships b a) ≡ true)

  abbrev OneWay : Tables → Type 0
  OneWay t = is_present (t.friendships a b) ≡ true

  first_way : (c : ℕ) → Ensures Any (λ x. OneWay) Any (set_friendship services a b (some c))
  unfolding set_friendship
  first_way c =
      Ensures-write services _ (λ t p. tt)
        λ t p. (ap is_present (set_entry-same a b (some c) t.friendships), tt)

  second_way : (c : ℕ) → Ensures OneWay (λ x. Befriended) Any (set_friendship services b a (some c))
  unfolding set_friendship
  second_way c =
      Ensures-write services _ (λ t p. tt)
        λ t p. (
          (
            set_entry-present b a a b c t.friendships p,
            ap is_present (set_entry-same b a (some c) t.friendships),
          ),
          tt,
        )

  abbrev Makes : {A : Type 0} → Op Tables Error A → Type 0
  Makes m = Ensures Any (λ x. Befriended) Any m

  no_matter : {A : Type 0} (m : Op Tables Error A) → Ensures Any (λ x. Any) Any m
  no_matter {A} m = record { at = λ t p. of (m t) }
    where
      of : (x : Result Error A × Tables) → Ends (λ y. Any) Any x
      of (ok y, t) = tt
      of (err e, t) = tt

  abbrev Stays : {A : Type 0} → Op Tables Error A → Type 0
  Stays m = Ensures Befriended (λ x. Befriended) Any m

  mirrored : {A : Type 0} (m : Op Tables Error A) → Keeps Befriended m → Stays (ignore services m)
  mirrored m k = Ensures-error (Keeps-ignore services m k)

  mirror_to : (x y : ℕ) (v : Option FriendRequest) → Stays (ignore services (set_to services x y v))
  unfolding set_to
  mirror_to x y v = mirrored _ (Keeps-write services Befriended (λ t p. p) _ (λ t p. p))

  mirror_from :
      (x y : ℕ) (v : Option FriendRequest) → Stays (ignore services (set_from services x y v))
  unfolding set_from
  mirror_from x y v = mirrored _ (Keeps-write services Befriended (λ t p. p) _ (λ t p. p))

  mirror_hash : (x y : ℕ) (v : Option ℕ) → Stays (ignore services (set_friend_hash services x y v))
  unfolding set_friend_hash
  mirror_hash x y v = mirrored _ (Keeps-write services Befriended (λ t p. p) _ (λ t p. p))

  Makes-bind :
      {A B : Type 0} (m : Op Tables Error A) (f : A → Op Tables Error B)
      → ((x : A) → Makes (f x))
      → Makes (m >>= f)
  Makes-bind m f k = Ensures-bind m f (no_matter m) k

  Makes-befriend : Makes (befriend services a b)
  unfolding befriend
  Makes-befriend = Makes-bind (now services) _ λ c.
      Ensures-bind (set_friendship services a b (some c)) _ (first_way c) λ x1.
        Ensures-bind (set_friendship services b a (some c)) _ (second_way c) λ x2.
          Ensures-bind (ignore services (set_to services a b none)) _ (mirror_to a b none) λ x3.
            Ensures-bind (ignore services (set_from services b a none)) _ (mirror_from b a none)
              λ x4.
                Ensures-bind (ignore services (set_friend_hash services a b (some c))) _
                  (mirror_hash a b (some c)) λ x5. mirror_hash b a (some c)

  Makes-accept_mirrored : Makes (accept_mirrored services a b)
  unfolding accept_mirrored
  Makes-accept_mirrored = Makes-bind (get_friend_request services a b) _ λ x1.
      Makes-bind (set_to services a b none) _ λ x2. Makes-bind (set_from services b a none) _ λ x3.
        Makes-bind (now services) _ λ c. Makes-bind (set_friend_hash services a b (some c)) _ λ x4.
          Makes-bind (set_friend_hash services b a (some c)) _ λ x5.
            Ensures-bind (set_friendship services a b (some c)) _ (first_way c) λ x6. second_way c

  Makes-accept_found : (o : Option FriendRequest) → Makes (accept_found services a b o)
  unfolding accept_found
  Makes-accept_found none = Makes-accept_mirrored
  Makes-accept_found (some r) =
      Makes-bind (settle_accepted services a b r.status r) _ λ x. Makes-befriend

  Makes-accept : Makes (accept_friend_request services a b)
  unfolding accept_friend_request
  Makes-accept = Makes-bind (durable_request services a b) _ Makes-accept_found

is_friend-present :
    (services : Services) (a b : ℕ) (t : Tables)
    → is_present (t.friendships a b) ≡ true
    → (is_friend services a b t).0 ≢ ok false
unfolding is_friend read friend_in
is_friend-present services a b t h = of (services.works t.commands) (t.friendships a b) h
  where
    of :
        (o : Outcome) (x : Option ℕ)
        → is_present x ≡ true
        → (continue
            (friend_in services a b)
            (ended o x (counted services t) (counted services t))).0
          ≢ ok false
    of o none h = absurd (false≢true h)
    of done (some c) h = λ e. cc
    of failed (some c) h = λ e. cc
    of failed_applied (some c) h = λ e. cc

-- After an AcceptFriendRequest that succeeds, IsFriend never denies the friendship in either direction.
pub is_friend-accept_friend_request :
    (services : Services) (to from : ℕ) (s t : Tables)
    → accept_friend_request services to from s ≡ (ok tt, t)
    → ((is_friend services to from t).0 ≢ ok false) × ((is_friend services from to t).0 ≢ ok false)
is_friend-accept_friend_request services to from s t e =
    let (p, q) : Befriended services to from t =
      subst (Ends (λ x. Befriended services to from) Any) e
        ((Makes-accept services to from).at s tt) in
    (is_friend-present services to from t p, is_friend-present services from to t q)

module _ (services : Services) (a b : ℕ) where
  abbrev HashGone : Tables → Type 0
  HashGone t = (t.friend_hash a b ≡ none) × (t.friend_hash b a ≡ none)

  -- neither table has the friendship
  abbrev Gone : Tables → Type 0
  Gone t = HashGone t × ((t.friendships a b ≡ none) × (t.friendships b a ≡ none))

  clear_hash_1 :
      Ensures Any (λ x t. t.friend_hash a b ≡ none) Any (set_friend_hash services a b none)
  unfolding set_friend_hash
  clear_hash_1 =
      Ensures-write services _ (λ t p. tt) λ t p. (set_entry-same a b none t.friend_hash, tt)

  clear_hash_2 :
      Ensures
        (λ t. t.friend_hash a b ≡ none)
        (λ x. HashGone)
        Any
        (set_friend_hash services b a none)
  unfolding set_friend_hash
  clear_hash_2 =
      Ensures-write services _ (λ t p. tt)
        λ t p. ((set_entry-none b a a b t.friend_hash p, set_entry-same b a none t.friend_hash), tt)

  clear_row_1 :
      Ensures HashGone
        (λ x t. HashGone t × (t.friendships a b ≡ none))
        Any
        (set_friendship services a b none)
  unfolding set_friendship
  clear_row_1 =
      Ensures-write services _ (λ t p. tt) λ t p. ((p, set_entry-same a b none t.friendships), tt)

  clear_row_2 :
      Ensures
        (λ t. HashGone t × (t.friendships a b ≡ none))
        (λ x. Gone)
        Any
        (set_friendship services b a none)
  unfolding set_friendship
  clear_row_2 =
      Ensures-write services _ (λ t p. tt)
        λ t p. (
          (p.0, (set_entry-none b a a b t.friendships p.1, set_entry-same b a none t.friendships)),
          tt,
        )

  remove-Gone : Ensures Any (λ x. Gone) Any (remove_friend services a b)
  unfolding remove_friend
  remove-Gone = Ensures-bind (set_friend_hash services a b none) _ clear_hash_1 λ x1.
      Ensures-bind (set_friend_hash services b a none) _ clear_hash_2
        λ x2. Ensures-bind (set_friendship services a b none) _ clear_row_1 λ x3. clear_row_2

  hash_read-gone :
      (o : Outcome) (x : Option ℕ) (u : Tables)
      → x ≡ none
      → (ended o (is_present x) u u).0 ≢ ok true
  hash_read-gone o (some c) u k = cc
  hash_read-gone done none u k = λ e. cc
  hash_read-gone failed none u k = λ e. cc
  hash_read-gone failed_applied none u k = λ e. cc

  friend_in-gone :
      (x : Option ℕ) (t : Tables)
      → x ≡ none
      → t.friend_hash a b ≡ none
      → (friend_in services a b x t).0 ≢ ok true
  unfolding friend_in read
  friend_in-gone (some c) t h k = cc
  friend_in-gone none t h k =
      hash_read-gone (services.works t.commands) (t.friend_hash a b) (counted services t) k

  is_friend-gone :
      (t : Tables)
      → t.friendships a b ≡ none
      → t.friend_hash a b ≡ none
      → (is_friend services a b t).0 ≢ ok true
  unfolding is_friend read
  is_friend-gone t h k = of (services.works t.commands) (t.friendships a b) h
    where
      of :
          (o : Outcome) (x : Option ℕ)
          → x ≡ none
          → (continue
              (friend_in services a b)
              (ended o x (counted services t) (counted services t))).0
            ≢ ok true
      of done x h = friend_in-gone x (counted services t) h k
      of failed x h = λ e. cc
      of failed_applied x h = λ e. cc

-- After a RemoveFriend that succeeds, IsFriend never affirms the friendship in either direction.
pub is_friend-remove_friend :
    (services : Services) (user friend : ℕ) (s t : Tables)
    → remove_friend services user friend s ≡ (ok tt, t)
    → ((is_friend services user friend t).0 ≢ ok true)
      × ((is_friend services friend user t).0 ≢ ok true)
is_friend-remove_friend services user friend s t e =
    let ((h, h'), (f, f')) : Gone services user friend t =
      subst (Ends (λ x. Gone services user friend) Any) e
        ((remove-Gone services user friend).at s tt) in
    (is_friend-gone services user friend t f h, is_friend-gone services friend user t f' h')
