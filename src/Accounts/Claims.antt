-- ===== src/Accounts/Claims.antt =====
-- Who keeps a name: CreateUser and UpdateUser of pkg/user/repo.go and the names of other users.
use nexus_chat.Base.{
  ℕ, ◌≡◌, refl, sym, ap, ◌∙◌, inl, inr, String, Bool, true, false, not, ◌&&◌, Option, none, some,
  ◌==◌, ==_iff, if◌then◌else◌, str_eq, str_eq_iff, arith, Bool-cases,
}
use mathlib.Core.Bool.{false≢true}
use nexus_chat.Stateful.{
  return, throw, Ends, Ensures, Keeps, Ensures-bind, Ensures-if, Keeps-return, Keeps-throw,
}
use nexus_chat.Accounts.{
  Space, usernames, handles, subjects, Keys, Error, Outcome, done, failed, failed_applied, Services,
  is_space_of, set_claim, is_present, is_owner, ended, counted, write, read, set_if_free,
  set_claimed, ignore, own_or_taken, after_set, claim_unique, release,
}

-- the key belongs to the user
abbrev pub IsHeld : Space → String → ℕ → Keys → Type 0
IsHeld s k v t = t.claims s k ≡ some v

pub Ends-ended :
    {A : Type 0} (Q : A → Keys → Type 0) (R : Keys → Type 0) (o : Outcome) (a : A) (t u : Keys)
    → Q a u
    → R t
    → R u
    → Ends Q R (ended o a t u)
Ends-ended Q R done a t u q r s = q
Ends-ended Q R failed a t u q r s = r
Ends-ended Q R failed_applied a t u q r s = s

is_space_of_eq : (s s' : Space) → is_space_of s s' ≡ true → s ≡ s'
is_space_of_eq usernames usernames e = refl
is_space_of_eq usernames handles e = cc
is_space_of_eq usernames subjects e = cc
is_space_of_eq handles usernames e = cc
is_space_of_eq handles handles e = refl
is_space_of_eq handles subjects e = cc
is_space_of_eq subjects usernames e = cc
is_space_of_eq subjects handles e = cc
is_space_of_eq subjects subjects e = refl

is_space_of_refl : (s : Space) → is_space_of s s ≡ true
is_space_of_refl usernames = refl
is_space_of_refl handles = refl
is_space_of_refl subjects = refl

set_claim_same :
    (s : Space) (k : String) (v : Option ℕ) (c : Space → String → Option ℕ)
    → set_claim s k v c s k ≡ v
unfolding set_claim
set_claim_same s k v c = rw (is_space_of_refl s, (str_eq_iff k k).1 refl)

-- a change of a key that holds something else
pub set_claim_other :
    (s s' : Space) (k k' : String) (v w : Option ℕ) (c : Space → String → Option ℕ)
    → c s k ≡ v
    → (c s' k' ≡ v → ⊥)
    → set_claim s' k' w c s k ≡ v
unfolding set_claim
set_claim_other s s' k k' v w c e n = elim (Bool-cases (is_space_of s' s && str_eq k' k)) [
  | inr off ↦ rw off e
  | inl on ↦ absurd (
      n (
        ap (λ x. c x k') (is_space_of_eq s' s (ground (arith, on)))
        ∙ ap (c s) ((str_eq_iff k' k).0 (ground (arith, on)))
        ∙ e))
]

module _ (services : Services) where
  module _ (s : Space) (k : String) (v : ℕ) where
    pub kept_write :
        (f : Keys → Keys)
        → ((t : Keys) → IsHeld s k v t → IsHeld s k v (f t))
        → Keeps (IsHeld s k v) (write services f)
    unfolding write
    kept_write f c = record {
      at = λ t h.
          Ends-ended (λ a. IsHeld s k v) (IsHeld s k v) (services.works t.commands) tt _ _ (c _ h) h
            (c _ h);
    }

    kept_read : {A : Type 0} (f : Keys → A) → Keeps (IsHeld s k v) (read services f)
    unfolding read
    kept_read {A} f = record {
      at = λ t h.
          Ends-ended (λ (x : A). IsHeld s k v) (IsHeld s k v) (services.works t.commands) (f t) _ _
            h h h;
    }

    -- SETNX changes no key that is held
    kept_set_if_free :
        (s' : Space) (k' : String) (u : ℕ) → Keeps (IsHeld s k v) (set_if_free services s' k' u)
    unfolding set_if_free
    kept_set_if_free s' k' u = record {
      at = λ t h.
          let c = changed t (is_present (t.claims s' k')) refl h in
          Ends-ended (λ (x : Bool). IsHeld s k v) (IsHeld s k v) (services.works t.commands)
            (not (is_present (t.claims s' k'))) _ _ c h c;
    }
      where
        changed :
            (t : Keys) (b : Bool)
            → is_present (t.claims s' k') ≡ b
            → IsHeld s k v t
            → IsHeld s k v (
                if b
                then counted services t
                else record (counted services t) { claims = set_claim s' k' (some u) t.claims })
        changed t true e h = h
        changed t false e h =
            set_claim_other s s' k k' (some v) (some u) t.claims h
              λ x. false≢true (sym e ∙ ap is_present x)

    kept_own_or_taken :
        (u : ℕ) (e : Error) (o : Option ℕ) → Keeps (IsHeld s k v) (own_or_taken services u e o)
    unfolding own_or_taken
    kept_own_or_taken u e o =
        Ensures-if (is_owner u o) (return false) (throw e) (λ b. Keeps-return false)
          (λ b. Keeps-throw e)

    kept_after_set :
        (s' : Space) (k' : String) (u : ℕ) (e : Error) (b : Bool)
        → Keeps (IsHeld s k v) (after_set services s' k' u e b)
    unfolding after_set
    kept_after_set s' k' u e true = Keeps-return true
    kept_after_set s' k' u e false =
        Ensures-bind (read services (λ t. t.claims s' k')) _ (kept_read _) (kept_own_or_taken u e)

    pub kept_claim_unique :
        (s' : Space) (k' : String) (u : ℕ) (e : Error)
        → Keeps (IsHeld s k v) (claim_unique services s' k' u e)
    unfolding claim_unique
    kept_claim_unique s' k' u e =
        Ensures-bind (set_if_free services s' k' u) _ (kept_set_if_free s' k' u)
          (kept_after_set s' k' u e)

    -- a key of another user that is given back
    pub kept_release :
        (b : Bool) (s' : Space) (k' : String) (u : ℕ)
        → (v == u) ≡ false
        → Ensures
            (λ t. IsHeld s k v t × (b ≡ true → IsHeld s' k' u t))
            (λ a. IsHeld s k v)
            (IsHeld s k v)
            (release services b s' k')
    unfolding release ignore set_claimed write
    kept_release false s' k' u n = record { at = λ t h. h.0 }
    kept_release true s' k' u n = record {
      at = λ t h. outcome t (services.works t.commands) h.0 (
          set_claim_other s s' k k' (some v) none t.claims h.0
            λ x. false≢true (sym n ∙ (==_iff v u).1 (some-injective (sym x ∙ h.1 refl))));
    }
      where
        some-injective : {a b : ℕ} → some a ≡ some b → a ≡ b
        some-injective e = cc

        outcome :
            (t : Keys) (o : Outcome)
            → IsHeld s k v t
            → set_claim s' k' none t.claims s k ≡ some v
            → IsHeld s k v
                (ended o tt
                  (counted services t)
                  (record (counted services t) { claims = set_claim s' k' none t.claims })).1
        outcome t done h c = c
        outcome t failed h c = h
        outcome t failed_applied h c = c

  -- a claim that succeeds, whether the key was free or the user's own
  set_if_free-IsHeld :
      (s : Space) (k : String) (u : ℕ)
      → Ensures
          (λ t. Unit)
          (λ b t. b ≡ true → IsHeld s k u t)
          (λ t. Unit)
          (set_if_free services s k u)
  unfolding set_if_free
  set_if_free-IsHeld s k u = record {
    at = λ t p.
        Ends-ended (λ b t'. b ≡ true → IsHeld s k u t') (λ x. Unit) (services.works t.commands)
          (not (is_present (t.claims s k))) _ _ (taken t (is_present (t.claims s k))) tt tt;
  }
    where
      taken :
          (t : Keys) (b : Bool)
          → not b ≡ true
          → IsHeld s k u (
              if b
              then counted services t
              else record (counted services t) { claims = set_claim s k (some u) t.claims })
      taken t true e = absurd (false≢true e)
      taken t false e = set_claim_same s k (some u) t.claims

  own_or_taken-IsHeld :
      (s : Space) (k : String) (u : ℕ) (e : Error) (o : Option ℕ)
      → Ensures
          (λ t. o ≡ t.claims s k)
          (λ b. IsHeld s k u)
          (λ t. Unit)
          (own_or_taken services u e o)
  unfolding own_or_taken
  own_or_taken-IsHeld s k u e none = record { at = λ t h. tt }
  own_or_taken-IsHeld s k u e (some w) = record { at = λ t h. decided t (w == u) refl h }
    where
      decided :
          (t : Keys) (b : Bool)
          → (w == u) ≡ b
          → some w ≡ t.claims s k
          → Ends (λ x. IsHeld s k u) (λ y. Unit) ((if b then return false else throw e) t)
      decided t true q h = sym h ∙ ap some ((==_iff w u).0 q)
      decided t false q h = tt

  read_claim :
      (s : Space) (k : String) (P : Keys → Type 0)
      → Ensures P (λ o t. o ≡ t.claims s k) (λ t. Unit) (read services (λ t. t.claims s k))
  unfolding read
  read_claim s k P = record {
    at = λ t h.
        Ends-ended (λ o t'. o ≡ t'.claims s k) (λ x. Unit) (services.works t.commands)
          (t.claims s k) _ _ refl tt tt;
  }

  after_set-IsHeld :
      (s : Space) (k : String) (u : ℕ) (e : Error) (b : Bool)
      → Ensures
          (λ t. b ≡ true → IsHeld s k u t)
          (λ x. IsHeld s k u)
          (λ t. Unit)
          (after_set services s k u e b)
  unfolding after_set
  after_set-IsHeld s k u e true = record { at = λ t h. h refl }
  after_set-IsHeld s k u e false =
      Ensures-bind (read services (λ t. t.claims s k)) _ (read_claim s k _)
        (own_or_taken-IsHeld s k u e)

  pub claim_unique-IsHeld :
      (s : Space) (k : String) (u : ℕ) (e : Error)
      → Ensures (λ t. Unit) (λ b. IsHeld s k u) (λ t. Unit) (claim_unique services s k u e)
  unfolding claim_unique
  claim_unique-IsHeld s k u e =
      Ensures-bind (set_if_free services s k u) _ (set_if_free-IsHeld s k u)
        (after_set-IsHeld s k u e)
