-- ===== src/Friends/Statements.antt =====
-- Rules for the statements of pkg/user/repo.go: what holds after one, however it ends.
use nexus_chat.Base.{Bool, true, false, Option, none, some}
use nexus_chat.Stateful.{Op, Ends, Ensures, Keeps, Keeps-return, Keeps-throw, Keeps-after}
use nexus_chat.Friends.{
  FriendRequest, Tables, Outcome, done, failed, failed_applied, Error, Services, ended, counted,
  write, read, ignore, found, require,
}

pub Ends-ended :
    {A : Type 0} (Q : A → Tables → Type 0) (R : Tables → Type 0) (o : Outcome) (a : A)
    (t u : Tables)
    → Q a u
    → R t
    → R u
    → Ends Q R (ended o a t u)
Ends-ended Q R done a t u q r s = q
Ends-ended Q R failed a t u q r s = r
Ends-ended Q R failed_applied a t u q r s = s

module _ (services : Services) where
  pub Ensures-write :
      {P Q R : Tables → Type 0} (f : Tables → Tables)
      → ((t : Tables) → P t → R (counted services t))
      → ((t : Tables) → P t → Q (f (counted services t)) × R (f (counted services t)))
      → Ensures P (λ a. Q) R (write services f)
  unfolding write
  Ensures-write {Q = Q} {R = R} f r k = record {
    at =
        λ t p. Ends-ended (λ a. Q) R (services.works t.commands) tt _ _ (k t p).0 (r t p) (k t p).1;
  }

  module _ (P : Tables → Type 0) (steady : (t : Tables) → P t → P (counted services t)) where
    pub Keeps-write :
        (f : Tables → Tables) → ((t : Tables) → P t → P (f t)) → Keeps P (write services f)
    Keeps-write f k = Ensures-write f steady λ t p. (k _ (steady t p), k _ (steady t p))

    pub Keeps-read : {A : Type 0} (f : Tables → A) → Keeps P (read services f)
    unfolding read
    Keeps-read {A} f = record {
      at = λ t p.
          Ends-ended (λ (x : A). P) P (services.works t.commands) (f t) _ _ (steady t p)
            (steady t p) (steady t p);
    }

    pub Keeps-require : (c : Bool) (e : Error) → Keeps P (require services c e)
    unfolding require
    Keeps-require true e = Keeps-return tt
    Keeps-require false e = Keeps-throw e

    pub Keeps-found : (o : Option FriendRequest) → Keeps P (found services o)
    unfolding found
    Keeps-found none = Keeps-throw _
    Keeps-found (some r) = Keeps-return r

  pub Keeps-ignore :
      {A : Type 0} {P : Tables → Type 0} (m : Op Tables Error A)
      → Keeps P m
      → Keeps P (ignore services m)
  unfolding ignore
  Keeps-ignore m k = record { at = λ t h. Keeps-after m t k h }
