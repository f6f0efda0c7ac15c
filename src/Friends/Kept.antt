-- ===== src/Friends/Kept.antt =====
-- The statements of pkg/user/repo.go leave an accepted friend request accepted.
use nexus_chat.Base.{
  ℕ, suc, ◌≡◌, refl, sym, ◌∙◌, subst, inl, inr, Bool, true, false, not, ◌&&◌, Option, none, some,
  arith, ◌==◌, ==_iff, if◌then◌else◌, Bool-cases,
}
use mathlib.Core.Bool.{false≢true}
use nexus_chat.Stateful.{Op, Keeps, Ensures-bind, Keeps-return, Keeps-throw, Keeps-after, ◌>>=◌}
use nexus_chat.Friends.{
  Status, pending, accepted, declined, FriendRequest, Tables, Error, Services, set_entry,
  is_pending, is_declined, is_accepted, is_present, write, write_if, read, now, ignore, found,
  require, set_status_if, durable_request, set_to, set_from, set_friend_hash, set_declined,
  set_friendship,
}
use nexus_chat.Friends.Statements.{
  Ends-ended, Keeps-write, Keeps-read, Keeps-require, Keeps-found, Keeps-ignore,
}

-- The row of `to` and `from` is there and accepted.
abbrev pub IsAccepted : ℕ → ℕ → Tables → Type 0
IsAccepted to from t = is_accepted (t.requests to from) ≡ true

module _ (services : Services) (a b : ℕ) where
  pub kept_write :
      (f : Tables → Tables)
      → ((t : Tables) → IsAccepted a b t → IsAccepted a b (f t))
      → Keeps (IsAccepted a b) (write services f)
  kept_write f k = Keeps-write services (IsAccepted a b) (λ t h. h) f k

  -- a statement on another table, whose end the code drops or not
  pub kept_mirror :
      (f : Tables → Tables)
      → ((t : Tables) → (f t).requests ≡ t.requests)
      → Keeps (IsAccepted a b) (write services f)
  kept_mirror f e = kept_write f λ t h. subst (λ r. is_accepted (r a b) ≡ true) (sym (e t)) h

  pub kept_read : {A : Type 0} (f : Tables → A) → Keeps (IsAccepted a b) (read services f)
  kept_read f = Keeps-read services (IsAccepted a b) (λ t h. h) f

  pub kept_require : (c : Bool) (e : Error) → Keeps (IsAccepted a b) (require services c e)
  kept_require c e = Keeps-require services (IsAccepted a b) (λ t h. h) c e

  pub kept_now : Keeps (IsAccepted a b) (now services)
  unfolding now
  kept_now = record { at = λ t h. h }

  -- a change of a row that is not accepted
  set_entry-IsAccepted :
      (to from : ℕ) (v : Option FriendRequest) (t : Tables)
      → is_accepted (t.requests to from) ≡ false
      → IsAccepted a b t
      → IsAccepted a b (record t { requests = set_entry to from v t.requests })
  unfolding set_entry
  set_entry-IsAccepted to from v t n h = elim (Bool-cases (a == to && b == from)) [
    | inr off ↦ rw off h
    | inl on ↦ absurd (
        false≢true (
          sym n
          ∙ subst (λ x. is_accepted (t.requests x from) ≡ true)
              ((==_iff a to).0 (ground (arith, on)))
              (subst (λ y. is_accepted (t.requests a y) ≡ true)
                ((==_iff b from).0 (ground (arith, on))) h)))
  ]

  pub kept_status :
      (p : Option FriendRequest → Bool) (to from : ℕ) (v : Option FriendRequest)
      → ((o : Option FriendRequest) → p o ≡ true → is_accepted o ≡ false)
      → Keeps (IsAccepted a b) (set_status_if services p to from v)
  unfolding set_status_if write_if
  kept_status p to from v other = record {
    at = λ t h.
        let k = changed t (p (t.requests to from)) refl h in
        Ends-ended (λ (x : Bool). IsAccepted a b) (IsAccepted a b) (services.works t.commands)
          (p (t.requests to from)) _ _ k h k;
  }
    where
      changed :
          (t : Tables) (c : Bool)
          → p (t.requests to from) ≡ c
          → IsAccepted a b t
          → IsAccepted a b (
              if c
              then record t { requests = set_entry to from v t.requests; commands = suc t.commands }
              else record t { commands = suc t.commands })
      changed t true e h = set_entry-IsAccepted to from v t (other _ e) h
      changed t false e h = h

  pub kept_set_to :
      (x y : ℕ) (v : Option FriendRequest) → Keeps (IsAccepted a b) (set_to services x y v)
  unfolding set_to
  kept_set_to x y v = kept_mirror _ (λ t. refl)

  pub kept_set_from :
      (x y : ℕ) (v : Option FriendRequest) → Keeps (IsAccepted a b) (set_from services x y v)
  unfolding set_from
  kept_set_from x y v = kept_mirror _ (λ t. refl)

  pub kept_set_friend_hash :
      (x y : ℕ) (v : Option ℕ) → Keeps (IsAccepted a b) (set_friend_hash services x y v)
  unfolding set_friend_hash
  kept_set_friend_hash x y v = kept_mirror _ (λ t. refl)

  pub kept_set_friendship :
      (x y : ℕ) (v : Option ℕ) → Keeps (IsAccepted a b) (set_friendship services x y v)
  unfolding set_friendship
  kept_set_friendship x y v = kept_mirror _ (λ t. refl)

  pub kept_set_declined :
      (x y : ℕ) (v : Option ℕ) → Keeps (IsAccepted a b) (set_declined services x y v)
  unfolding set_declined
  kept_set_declined x y v = kept_mirror _ (λ t. refl)

  pub kept_durable : (x y : ℕ) → Keeps (IsAccepted a b) (durable_request services x y)
  unfolding durable_request
  kept_durable x y = kept_read _

  pub kept_ignore :
      {A : Type 0} (m : Op Tables Error A)
      → Keeps (IsAccepted a b) m
      → Keeps (IsAccepted a b) (ignore services m)
  kept_ignore m k = Keeps-ignore services m k

  pub kept_bind :
      {A B : Type 0} (m : Op Tables Error A) (f : A → Op Tables Error B)
      → Keeps (IsAccepted a b) m
      → ((x : A) → Keeps (IsAccepted a b) (f x))
      → Keeps (IsAccepted a b) (m >>= f)
  kept_bind m f k l = Ensures-bind m f k l

  pub kept_found : (o : Option FriendRequest) → Keeps (IsAccepted a b) (found services o)
  kept_found o = Keeps-found services (IsAccepted a b) (λ t h. h) o

  pub not_pending : (o : Option FriendRequest) → is_pending o ≡ true → is_accepted o ≡ false
  not_pending none e = refl
  not_pending (some r) e = of (r.status) e
    where
      of :
          (s : Status)
          → elim s as (λ _. Bool) [ pending ↦ true | _ ↦ false ] ≡ true
          → elim s as (λ _. Bool) [ accepted ↦ true | _ ↦ false ] ≡ false
      of pending e = refl
      of accepted e = sym e
      of declined e = refl

  pub not_declined : (o : Option FriendRequest) → is_declined o ≡ true → is_accepted o ≡ false
  not_declined none e = refl
  not_declined (some r) e = of (r.status) e
    where
      of :
          (s : Status)
          → elim s as (λ _. Bool) [ declined ↦ true | _ ↦ false ] ≡ true
          → elim s as (λ _. Bool) [ accepted ↦ true | _ ↦ false ] ≡ false
      of pending e = refl
      of accepted e = sym e
      of declined e = refl

  pub not_absent : (o : Option FriendRequest) → not (is_present o) ≡ true → is_accepted o ≡ false
  not_absent none e = refl
  not_absent (some r) e = absurd (false≢true e)

  pub ruleset kept_rules = (
    kept_bind, kept_ignore, kept_set_to, kept_set_from, kept_set_friend_hash, kept_set_friendship,
    kept_set_declined, kept_durable, kept_read, kept_require, kept_found, kept_now, Keeps-return,
    Keeps-throw, kept_status, not_pending, not_declined, not_absent,
  )
