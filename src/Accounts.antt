-- ===== src/Accounts.antt =====
-- pkg/user/repo.go: the users and the names that belong to one user each.
--
-- The keys of Redis are functions of their texts, one for each prefix. The n-th command succeeds,
-- fails, or fails after it was applied, as `works n` says; those of other instances of the service do
-- not run between two commands of one operation. `lower` is strings.ToLower.
pub mod Claims
pub mod Names
use Prim.Native.String.{◌++◌}
use nexus_chat.Base.{
  ℕ, suc, ◌%◌, String, Bool, true, false, not, ◌&&◌, ◌||◌, Option, none, some, ◌==◌, if◌then◌else◌,
  str_eq, is_empty_text, trim_space, trim_prefix,
}
use nexus_chat.Effects.{Result, ok, err}
use nexus_chat.Stateful.{Op, return, throw, ◌>>=◌, ◌>>◌}

pub data AuthType : Type 0 where
  local google : AuthType

pub record User : Type 0 where
  pub id : ℕ
  pub email : String
  pub name : String
  pub picture : String
  pub auth_type : AuthType
  pub username : String
  pub handle : String
  pub password_hash : String
  pub google_subject : String

-- the prefixes of the keys that hold a user's number
pub data Space : Type 0 where
  usernames handles subjects : Space

pub record Keys : Type 0 where
  pub claims : Space → String → Option ℕ
  pub users : ℕ → Option User
  pub oauth : AuthType → String → Option User
  -- the members of the two search indexes
  pub names : String → ℕ → Bool
  pub indexed_handles : String → ℕ → Bool
  pub commands : ℕ

pub data Error : Type 0 where
  unavailable username_taken handle_taken : Error

pub data Outcome : Type 0 where
  done failed failed_applied : Outcome

pub record Services : Type 0 where
  pub works : ℕ → Outcome
  pub lower : String → String

abbrev pub is_space_of : Space → Space → Bool
is_space_of usernames usernames = true
is_space_of handles handles = true
is_space_of subjects subjects = true
is_space_of _ _ = false

unfoldable pub set_claim :
    Space → String → Option ℕ → (Space → String → Option ℕ) → Space → String → Option ℕ
set_claim s k v claims s' k' = if is_space_of s s' && str_eq k k' then v else claims s' k'

abbrev pub is_present : {A : Type 0} → Option A → Bool
is_present none = false
is_present (some a) = true

abbrev pub is_owner : ℕ → Option ℕ → Bool
is_owner u none = false
is_owner u (some v) = v == u

abbrev pub ended : {A : Type 0} → Outcome → A → Keys → Keys → Result Error A × Keys
ended done a t u = (ok a, u)
ended failed a t u = (err unavailable, t)
ended failed_applied a t u = (err unavailable, u)

module _ (services : Services) where
  abbrev pub counted : Keys → Keys
  counted t = record t { commands = suc t.commands }

  unfoldable pub write : (Keys → Keys) → Op Keys Error (Unit {0})
  write f t = ended (services.works t.commands) tt (counted t) (f (counted t))

  unfoldable pub read : {A : Type 0} → (Keys → A) → Op Keys Error A
  read f t = ended (services.works t.commands) (f t) (counted t) (counted t)

  -- SETNX: whether the key was free
  unfoldable pub set_if_free : Space → String → ℕ → Op Keys Error Bool
  set_if_free s k u t =
      ended (services.works t.commands) (not (is_present (t.claims s k))) (counted t) (
        if is_present (t.claims s k)
        then counted t
        else record (counted t) { claims = set_claim s k (some u) t.claims })

  unfoldable pub set_claimed : Space → String → Option ℕ → Op Keys Error (Unit {0})
  set_claimed s k v = write (λ t. record t { claims = set_claim s k v t.claims })

  -- `_ = statement`
  unfoldable pub ignore : Op Keys Error (Unit {0}) → Op Keys Error (Unit {0})
  ignore m t = (ok tt, (m t).1)

  -- usernameKey and handleKey
  abbrev pub username_key : String → String
  username_key s = services.lower (trim_space s)

  abbrev pub handle_key : String → String
  handle_key s = services.lower (trim_prefix 64 (trim_space s))

  unfoldable pub own_or_taken : ℕ → Error → Option ℕ → Op Keys Error Bool
  own_or_taken u taken holder = if is_owner u holder then return false else throw taken

  unfoldable pub after_set : Space → String → ℕ → Error → Bool → Op Keys Error Bool
  after_set s k u taken true = return true
  after_set s k u taken false = read (λ t. t.claims s k) >>= own_or_taken u taken

  -- claimUnique
  unfoldable pub claim_unique : Space → String → ℕ → Error → Op Keys Error Bool
  claim_unique s k u taken = set_if_free s k u >>= after_set s k u taken

  unfoldable pub release : Bool → Space → String → Op Keys Error (Unit {0})
  release true s k = ignore (set_claimed s k none)
  release false s k = return tt

  -- an operation whose error a second one answers before it is returned
  unfoldable pub undone :
      {A : Type 0} → Op Keys Error (Unit {0}) → Result Error A × Keys → Result Error A × Keys
  undone undo (ok a, t) = (ok a, t)
  undone undo (err e, t) = (err e, (undo t).1)

  unfoldable pub or_undo :
      {A : Type 0} → Op Keys Error A → Op Keys Error (Unit {0}) → Op Keys Error A
  or_undo m undo t = undone undo (m t)

  unfoldable pub claim_username : User → Op Keys Error Bool
  claim_username user =
      if is_empty_text user.username
      then return false
      else claim_unique usernames (username_key user.username) user.id username_taken

  unfoldable pub claim_handle : User → Bool → Op Keys Error Bool
  claim_handle user claimed =
      if is_empty_text user.handle
      then return claimed
      else (or_undo (claim_unique handles (handle_key user.handle) user.id handle_taken)
            (release claimed usernames (username_key user.username))
          >>= λ new. return (new || claimed))

  unfoldable pub undo_claims : User → Bool → Op Keys Error (Unit {0})
  undo_claims user claimed =
      release (claimed && not (is_empty_text user.username)) usernames (username_key user.username)
      >> release (not (is_empty_text user.handle)) handles (handle_key user.handle)

  unfoldable pub store_user : User → Op Keys Error (Unit {0})
  store_user user =
      write λ t. record t { users = λ u. if u == user.id then some user else t.users u }

  abbrev pub same_auth : AuthType → AuthType → Bool
  same_auth local local = true
  same_auth google google = true
  same_auth _ _ = false

  unfoldable pub store_oauth : User → Op Keys Error (Unit {0})
  store_oauth user =
      let key = services.lower (trim_space user.email) in
      if same_auth user.auth_type local || is_empty_text user.email
      then return tt
      else write (λ t. record t {
        oauth =
            λ a e. if same_auth a user.auth_type && str_eq e key then some user else t.oauth a e;
      })

  unfoldable pub store_subject : User → Op Keys Error (Unit {0})
  store_subject user =
      if is_empty_text user.google_subject
      then return tt
      else set_claimed subjects user.google_subject (some user.id)

  -- the two parts of indexUser
  unfoldable pub index_name : User → Op Keys Error (Unit {0})
  index_name user =
      let name = services.lower (trim_space user.name) in
      if is_empty_text name
      then return tt
      else write (λ t. record t { names = λ n u. str_eq n name && u == user.id || t.names n u })

  unfoldable pub index_handle : User → Op Keys Error (Unit {0})
  index_handle user =
      let handle = services.lower (trim_space user.handle) in
      if is_empty_text handle
      then return tt
      else write (λ t. record t {
        indexed_handles = λ n u. str_eq n handle && u == user.id || t.indexed_handles n u;
      })

  -- CreateUser
  unfoldable pub create_user : User → Op Keys Error (Unit {0})
  create_user user = do
    first ← claim_username user
    claimed ← claim_handle user first
    or_undo (store_user user) (undo_claims user claimed)
    store_oauth user
    store_subject user
    index_name user
    index_handle user

  unfoldable pub claim_given : Space → String → String → ℕ → Error → Op Keys Error (Unit {0})
  claim_given s raw k u taken =
      if is_empty_text raw then return tt else claim_unique s k u taken >>= λ c. return tt

  -- UpdateUser
  unfoldable pub update_user : User → Op Keys Error (Unit {0})
  update_user user = do
    claim_given usernames user.username (username_key user.username) user.id username_taken
    claim_given handles user.handle (handle_key user.handle) user.id handle_taken
    store_user user
    store_oauth user
    store_subject user
    index_name user
    index_handle user
