-- ===== src/Accounts/Names.antt =====
-- CreateUser and UpdateUser of pkg/user/repo.go take no name from another user.
use nexus_chat.Base.{
  ℕ, ◌≡◌, refl, sym, ◌∙◌, String, Bool, true, false, not, ◌&&◌, ◌||◌, none, ◌==◌, is_empty_text,
  trim_space,
}
use mathlib.Core.Bool.{false≢true}
use nexus_chat.Effects.{Result, ok, err}
use nexus_chat.Stateful.{
  Op, return, ◌>>=◌, Ends, Ensures, Keeps, Ensures-bind, Ensures-both, Ensures-weaken, Ensures-if,
  Keeps-return, Keeps-after, Ensures-return,
}
use nexus_chat.Accounts.{
  User, Space, usernames, handles, subjects, Keys, Error, username_taken, handle_taken, Outcome,
  done, failed, failed_applied, Services, is_space_of, set_claim, ended, counted, write,
  set_claimed, ignore, username_key, handle_key, claim_unique, release, undone, or_undo,
  claim_username, claim_handle, undo_claims, store_user, store_oauth, store_subject, index_name,
  index_handle, create_user, claim_given, update_user, same_auth, local,
}
use nexus_chat.Accounts.Claims.{
  IsHeld, kept_write, kept_claim_unique, kept_release, claim_unique-IsHeld, Ends-ended,
}

or_undo-Ensures :
    {A : Type 0} {P R R' : Keys → Type 0} {Q : A → Keys → Type 0} (services : Services)
    (m : Op Keys Error A) (undo : Op Keys Error (Unit {0}))
    → Ensures P Q R' m
    → Ensures R' (λ a. R) R undo
    → Ensures P Q R (or_undo services m undo)
unfolding or_undo undone
or_undo-Ensures {A = A} {R = R} {R' = R'} {Q = Q} services m undo k l = record {
  at = λ t p. rest (m t) (k.at t p);
}
  where
    after : (x : Result Error (Unit {0}) × Keys) → Ends {A = Unit {0}} (λ a. R) R x → R x.1
    after (ok a, t) r = r
    after (err e, t) r = r

    rest : (x : Result Error A × Keys) → Ends Q R' x → Ends Q R (undone services undo x)
    rest (ok a, t) q = q
    rest (err e, t) r = after (undo t) (l.at t r)

Keeps-given :
    {A X : Type 0} {P : Keys → Type 0} (m : Op Keys Error A) → Keeps P m → Keeps (λ t. X → P t) m
Keeps-given {A = A} {X = X} {P = P} m k = record { at = λ t h. rest (m t) (λ x. k.at t (h x)) }
  where
    rest :
        (y : Result Error A × Keys)
        → (X → Ends {A = A} (λ a. P) P y)
        → Ends {A = A} (λ a t. X → P t) (λ t. X → P t) y
    rest (ok a, t) f = f
    rest (err e, t) f = f

module _ (services : Services) (user : User) (s : Space) (k : String) (v : ℕ) where
  abbrev Theirs : Keys → Type 0
  Theirs t = IsHeld s k v t

  abbrev u : ℕ
  u = user.id

  abbrev ukey : String
  ukey = username_key services user.username

  abbrev hkey : String
  hkey = handle_key services user.handle

  abbrev OwnName : Keys → Type 0
  OwnName t = is_empty_text user.username ≡ false → IsHeld usernames ukey u t

  abbrev OwnHandle : Keys → Type 0
  OwnHandle t = is_empty_text user.handle ≡ false → IsHeld handles hkey u t

  abbrev Named : Bool → Keys → Type 0
  Named b t = Theirs t × ((b ≡ true → is_empty_text user.username ≡ false) × OwnName t)

  claim_username-Named : Ensures Theirs Named Theirs (claim_username services user)
  unfolding claim_username
  claim_username-Named =
      Ensures-if (is_empty_text user.username) (return false) _
        (λ e.
          Ensures-return false
            λ t p. (p, (λ x. absurd (false≢true x), λ x. absurd (false≢true (sym x ∙ e)))))
        (λ e.
          Ensures-weaken _
            (Ensures-both _ (kept_claim_unique services s k v usernames ukey u username_taken)
              (claim_unique-IsHeld services usernames ukey u username_taken))
            (λ t p. (p, tt)) (λ b t q. (q.0, (λ x. e, λ x. q.1))) (λ t r. r.0))

  module _ (other : (v == u) ≡ false) where
    claim_handle-Named :
        (b : Bool)
        → Ensures
            (Named b)
            (λ c t. Theirs t × (OwnName t × OwnHandle t))
            Theirs
            (claim_handle services user b)
    unfolding claim_handle
    claim_handle-Named b =
        Ensures-if (is_empty_text user.handle) (return b) _
          (λ e. Ensures-return b λ t p. (p.0, (p.1.1, λ x. absurd (false≢true (sym x ∙ e)))))
          (λ e.
            Ensures-bind (or_undo services claim (release services b usernames ukey)) _
              (or_undo-Ensures services claim (release services b usernames ukey) claimed
                (kept_release services s k v b usernames ukey u other))
              λ new. Ensures-return (new || b) λ t q. q)
      where
        claim : Op Keys Error Bool
        claim = claim_unique services handles hkey u handle_taken

        claimed :
            Ensures
              (Named b)
              (λ c t. Theirs t × (OwnName t × OwnHandle t))
              (λ t. Theirs t × (b ≡ true → IsHeld usernames ukey u t))
              claim
        claimed =
            Ensures-weaken claim
              (Ensures-both claim (kept_claim_unique services s k v handles hkey u handle_taken) (
                Ensures-both claim
                  (Keeps-given {X = is_empty_text user.username ≡ false} claim
                    (kept_claim_unique services usernames ukey u handles hkey u handle_taken))
                  (Ensures-both claim
                    (Keeps-given {X = b ≡ true} claim
                      (kept_claim_unique services usernames ukey u handles hkey u handle_taken))
                    (claim_unique-IsHeld services handles hkey u handle_taken))))
              (λ t p. (p.0, (p.1.1, (λ x. p.1.1 (p.1.0 x), tt))))
              (λ c t q. (q.0, (q.1.0, λ x. q.1.1.1))) (λ t r. (r.0, r.1.1.0))

    -- giving back the username leaves the handle alone
    kept_handle : (b : Bool) → Keeps OwnHandle (release services b usernames ukey)
    unfolding release ignore set_claimed write set_claim
    kept_handle true = record { at = λ t h. outcome t (services.works t.commands) h }
      where
        outcome :
            (t : Keys) (o : Outcome)
            → OwnHandle t
            → OwnHandle
                (ended o tt (counted services t) (record (counted services t) {
                  claims = set_claim usernames ukey none t.claims;
                })).1
        outcome t done h = h
        outcome t failed h = h
        outcome t failed_applied h = h
    kept_handle false = Keeps-return tt

    undo_claims-Theirs :
        (c : Bool)
        → Ensures
            (λ t. Theirs t × (OwnName t × OwnHandle t))
            (λ a. Theirs)
            Theirs
            (undo_claims services user c)
    unfolding undo_claims
    undo_claims-Theirs c = Ensures-bind (release services named usernames ukey) _ first λ a.
        Ensures-weaken _
          (kept_release services s k v (not (is_empty_text user.handle)) handles hkey u other)
          (λ t p. (p.0, λ x. p.1 (shown (is_empty_text user.handle) x))) (λ b t q. q) (λ t r. r)
      where
        named : Bool
        named = c && not (is_empty_text user.username)

        shown : (b : Bool) → not b ≡ true → b ≡ false
        shown true x = absurd (false≢true x)
        shown false x = refl

        both : (b d : Bool) → (b && not d) ≡ true → d ≡ false
        both true d x = shown d x
        both false d x = absurd (false≢true x)

        first :
            Ensures
              (λ t. Theirs t × (OwnName t × OwnHandle t))
              (λ a t. Theirs t × OwnHandle t)
              Theirs
              (release services named usernames ukey)
        first =
            Ensures-weaken _
              (Ensures-both _ (kept_release services s k v named usernames ukey u other)
                (kept_handle named))
              (λ t p. ((p.0, λ x. p.1.0 (both c (is_empty_text user.username) x)), p.1.1))
              (λ b t q. q) (λ t r. r.0)

    store_user-Theirs :
        (c : Bool)
        → Ensures
            (λ t. Theirs t × (OwnName t × OwnHandle t))
            (λ a. Theirs)
            Theirs
            (or_undo services (store_user services user) (undo_claims services user c))
    unfolding store_user write
    store_user-Theirs c =
        or_undo-Ensures services (store_user services user) (undo_claims services user c) stored
          (undo_claims-Theirs c)
      where
        stored :
            Ensures
              (λ t. Theirs t × (OwnName t × OwnHandle t))
              (λ a. Theirs)
              (λ t. Theirs t × (OwnName t × OwnHandle t))
              (store_user services user)
        stored = record {
          at = λ t p.
              Ends-ended (λ a. Theirs) (λ x. Theirs x × (OwnName x × OwnHandle x))
                (services.works t.commands) tt _ _ p.0 p p;
        }

    kept_oauth : Keeps Theirs (store_oauth services user)
    unfolding store_oauth
    kept_oauth =
        Ensures-if (same_auth services user.auth_type local || is_empty_text user.email) (return tt)
          _ (λ e. Keeps-return tt) (λ e. kept_write services s k v _ λ t h. h)

    kept_index_name : Keeps Theirs (index_name services user)
    unfolding index_name
    kept_index_name =
        Ensures-if (is_empty_text (services.lower (trim_space user.name))) (return tt) _
          (λ e. Keeps-return tt) (λ e. kept_write services s k v _ λ t h. h)

    kept_index_handle : Keeps Theirs (index_handle services user)
    unfolding index_handle
    kept_index_handle =
        Ensures-if (is_empty_text (services.lower (trim_space user.handle))) (return tt) _
          (λ e. Keeps-return tt) (λ e. kept_write services s k v _ λ t h. h)

    kept_store_user : Keeps Theirs (store_user services user)
    unfolding store_user
    kept_store_user = kept_write services s k v _ λ t h. h

    kept_claim_given :
        (s' : Space) (raw k' : String) (e : Error)
        → Keeps Theirs (claim_given services s' raw k' u e)
    unfolding claim_given
    kept_claim_given s' raw k' e =
        Ensures-if (is_empty_text raw) (return tt) _ (λ x. Keeps-return tt)
          (λ x.
            Ensures-bind (claim_unique services s' k' u e) _
              (kept_claim_unique services s k v s' k' u e) λ c. Keeps-return tt)

    module _ (name : is_space_of subjects s ≡ false) where
      kept_subject : Keeps Theirs (store_subject services user)
      unfolding store_subject set_claimed set_claim
      kept_subject =
          Ensures-if (is_empty_text user.google_subject) (return tt) _ (λ e. Keeps-return tt)
            (λ e. kept_write services s k v _ λ t h. rw name h)

      kept_rest : Keeps Theirs (
          store_oauth services user >>= λ a. store_subject services user >>= λ b.
          index_name services user >>= λ c. index_handle services user)
      kept_rest = Ensures-bind (store_oauth services user) _ kept_oauth λ a.
          Ensures-bind (store_subject services user) _ kept_subject
            λ b. Ensures-bind (index_name services user) _ kept_index_name λ c. kept_index_handle

      kept_create_user : Keeps Theirs (create_user services user)
      unfolding create_user
      kept_create_user = Ensures-bind (claim_username services user) _ claim_username-Named λ first.
          Ensures-bind (claim_handle services user first) _ (claim_handle-Named first) λ claimed.
            Ensures-bind
              (or_undo services (store_user services user) (undo_claims services user claimed)) _
              (store_user-Theirs claimed) λ a. kept_rest

      kept_update_user : Keeps Theirs (update_user services user)
      unfolding update_user
      kept_update_user =
          Ensures-bind (claim_given services usernames user.username ukey u username_taken) _
            (kept_claim_given usernames user.username ukey username_taken)
            λ a.
              Ensures-bind (claim_given services handles user.handle hkey u handle_taken) _
                (kept_claim_given handles user.handle hkey handle_taken)
                λ b. Ensures-bind (store_user services user) _ kept_store_user λ c. kept_rest

-- any calls of CreateUser and UpdateUser for users other than `v`
pub data Reach (services : Services) (v : ℕ) (s : Keys) : Keys → Type 0 where
  here : Reach services v s s
  creates :
      {t : Keys} (user : User)
      → (v == user.id) ≡ false
      → Reach services v s t
      → Reach services v s (create_user services user t).1
  updates :
      {t : Keys} (user : User)
      → (v == user.id) ≡ false
      → Reach services v s t
      → Reach services v s (update_user services user t).1

-- A username or handle that one user holds stays that user's, whatever CreateUser and UpdateUser do
-- for other users, and however their commands end.
pub Reach-IsHeld :
    (services : Services) (space : Space) (key : String) (v : ℕ) (s t : Keys)
    → is_space_of subjects space ≡ false
    → Reach services v s t
    → IsHeld space key v s
    → IsHeld space key v t
Reach-IsHeld services space key v s t name here h = h
Reach-IsHeld services space key v s t name (creates user other r) h =
    Keeps-after (create_user services user) _
      (kept_create_user services user space key v other name)
      (Reach-IsHeld services space key v s _ name r h)
Reach-IsHeld services space key v s t name (updates user other r) h =
    Keeps-after (update_user services user) _
      (kept_update_user services user space key v other name)
      (Reach-IsHeld services space key v s _ name r h)
