-- ===== src/Notification/Store.antt =====
-- The operations of the notification store, pkg/notification/outbox.go.
pub mod Rules
pub mod Claims
pub mod Enqueues
pub mod Settled
pub mod Leases
pub mod Backlog
pub mod Index
pub mod Accepted
use nexus_chat.Base.{
  ℕ, zero, suc, ◌+◌, ◌-◌, ◌*◌, String, Bool, true, false, not, ◌&&◌, ◌||◌, List, [], ◌∷◌, ◌++◌,
  Option, none, some, ◌==◌, ltb, leb, if◌then◌else◌, str_eq, length,
}
use nexus_chat.Effects.{Result, ok, err}
use nexus_chat.Stateful.{Op, return, throw, ◌>>=◌, ◌>>◌, throw_if}
use nexus_chat.Notification.{
  Intent, Status, pending, complete, dead_letter, Row, Entry, Tables, Outcome, done, rejected,
  timed_out, Env, Error, invalid_intent, not_found, failed, bucket,
}
use nexus_chat.Notification.Backoff.{second, retry_delay}

abbrev pub is_pending : Status → Bool
is_pending pending = true
is_pending _ = false

abbrev pub set_row : String → Row → (String → Option Row) → String → Option Row
set_row id r rows i = if str_eq id i then some r else rows i

abbrev pub set_bucket : ℕ → List Entry → (ℕ → List Entry) → ℕ → List Entry
set_bucket b es index c = if b == c then es else index c

abbrev pub is_some : {A : Type 0} → Option A → Bool
is_some none = false
is_some (some a) = true

-- validate
unfoldable pub is_valid : Intent → Bool
is_valid i = not (str_eq i.id "" || i.user_id == 0 || str_eq i.kind "") && is_some i.created_at

-- how a statement ends, with the tables where it was applied and where it was not
abbrev pub fate : {A : Type 0} → Outcome → A → Tables → Tables → Result Error A × Tables
fate done a t u = (ok a, t)
fate rejected a t u = (err failed, u)
fate timed_out a t u = (err failed, t)

abbrev pub counted : Tables → Tables
counted s = record s { statements = suc s.statements }

module _ (env : Env) where
  -- s.now().UTC()
  unfoldable pub now : Op Tables Error ℕ
  now s = (ok (env.clock s.readings), record s { readings = suc s.readings })

  -- Exec: the change of a statement that answers nothing
  unfoldable pub execute : (Tables → Tables) → Op Tables Error (Unit {0})
  execute change s = fate (env.session s.statements) tt (change (counted s)) (counted s)

  -- MapScanCAS: a change under a condition, which answers whether it was applied
  unfoldable pub compare_and_set : (Tables → Bool) → (Tables → Tables) → Op Tables Error Bool
  compare_and_set test change s =
      fate (env.session s.statements) (test s) (if test s then change (counted s) else counted s)
        (counted s)

  -- Scan: an answer read from the tables
  unfoldable pub query : {A : Type 0} → (Tables → A) → Op Tables Error A
  query q s = fate (env.session s.statements) (q s) (counted s) (counted s)

  -- where a row of the index stands: (due_at, notification_id)
  abbrev pub comes_before : Entry → Entry → Bool
  comes_before a b =
      ltb a.due_at b.due_at || a.due_at == b.due_at && env.before a.intent.id b.intent.id

  abbrev pub same_place : Entry → Entry → Bool
  same_place a b = a.due_at == b.due_at && str_eq a.intent.id b.intent.id

  -- an INSERT into a partition in its clustering order; a row of the same key is replaced
  unfoldable pub insert_entry : Entry → List Entry → List Entry
  insert_entry e [] = e ∷ []
  insert_entry e (x ∷ xs) =
      let rest = insert_entry e xs in
      if same_place e x then e ∷ xs else if comes_before e x then e ∷ x ∷ xs else x ∷ rest

  abbrev pub with_entry : Intent → Status → ℕ → Tables → Tables
  with_entry intent status due_at s =
      let b = bucket due_at in
      let e : Entry = record { status = status; due_at = due_at; intent = intent } in
      record s { index = set_bucket b (insert_entry e (s.index b)) s.index }

  -- insertIndex
  unfoldable pub insert_index : Intent → Status → ℕ → Op Tables Error (Unit {0})
  unfolding execute insert_entry
  insert_index intent status due_at = execute (with_entry intent status due_at)

  abbrev pub new_row : Intent → ℕ → Row
  new_row intent now = record {
    intent = intent;
    status = pending;
    attempts = 0;
    next_attempt_at = now;
    lease_owner = "";
    lease_until = 0;
    last_error = "";
    updated_at = now;
  }

  -- Enqueue of an intent whose id is taken: a pending one is indexed again
  unfoldable pub enqueue_again : Intent → Option Row → Op Tables Error (Unit {0})
  unfolding insert_index
  enqueue_again intent none = throw not_found
  enqueue_again intent (some r) =
      if is_pending r.status then insert_index intent pending r.next_attempt_at else return tt

  unfoldable pub index_new : Intent → ℕ → Bool → Op Tables Error (Unit {0})
  unfolding query insert_index enqueue_again
  index_new intent t true = insert_index intent pending t
  index_new intent t false = query (λ s. s.rows intent.id) >>= enqueue_again intent

  abbrev pub with_row : String → Row → Tables → Tables
  with_row id r s = record s { rows = set_row id r s.rows }

  -- Enqueue: INSERT … IF NOT EXISTS, then the index
  unfoldable pub enqueue : Intent → Op Tables Error (Unit {0})
  unfolding now compare_and_set index_new
  enqueue intent = do
    throw_if (not (is_valid intent)) invalid_intent
    t ← now
    applied ←
        compare_and_set (λ s. not (is_some (s.rows intent.id)))
          (with_row intent.id (new_row intent t))
    index_new intent t applied

  abbrev pub passes : (Row → Bool) → Option Row → Bool
  passes test none = false
  passes test (some r) = test r

  abbrev pub change_row : String → (Row → Row) → Option Row → Tables → Tables
  change_row id change none s = s
  change_row id change (some r) s = with_row id (change r) s

  -- UPDATE … WHERE notification_id = ? IF test
  unfoldable pub update_if : String → (Row → Bool) → (Row → Row) → Op Tables Error Bool
  unfolding compare_and_set
  update_if id test change =
      compare_and_set (λ s. passes test (s.rows id)) (λ s. change_row id change (s.rows id) s)

  -- IF status = 'pending' AND lease_owner = owner
  abbrev pub holds_lease : String → Row → Bool
  holds_lease owner r = is_pending r.status && str_eq r.lease_owner owner

  -- IF status = 'pending' AND lease_until < now
  abbrev pub lease_over : ℕ → Row → Bool
  lease_over t r = is_pending r.status && ltb r.lease_until t

  abbrev pub leased : String → ℕ → ℕ → Row → Row
  leased owner t lease r = record r { lease_owner = owner; lease_until = t + lease; updated_at = t }

  -- the body of the loop of ClaimDue, once `get` has answered
  abbrev pub skipped : ℕ → Row → Bool
  skipped t r = not (is_pending r.status) || ltb t r.next_attempt_at

  abbrev pub taken : Row → Bool → List Intent
  taken r true = r.intent ∷ []
  taken r false = []

  unfoldable pub claim_found : String → ℕ → ℕ → Row → Op Tables Error (List Intent)
  unfolding update_if
  claim_found owner lease t r = do
    applied ← update_if r.intent.id (lease_over t) (leased owner t lease)
    return (taken r applied)

  unfoldable pub claim_row : String → ℕ → ℕ → Option Row → Op Tables Error (List Intent)
  unfolding claim_found
  claim_row owner lease t none = return []
  claim_row owner lease t (some r) = if skipped t r then return [] else claim_found owner lease t r

  unfoldable pub claim_entries : String → ℕ → ℕ → List Entry → Op Tables Error (List Intent)
  unfolding query claim_row
  claim_entries owner lease t [] = return []
  claim_entries owner lease t (e ∷ es) = do
    r ← query (λ s. s.rows e.intent.id)
    first ← claim_row owner lease t r
    rest ← claim_entries owner lease t es
    return (first ++ rest)

  abbrev pub take {ℓ} : {A : Type ℓ} → ℕ → List A → List A
  take n [] = []
  take zero (x ∷ xs) = []
  take (suc n) (x ∷ xs) = x ∷ take n xs

  -- WHERE bucket = ? AND status = 'pending' AND due_at <= t
  unfoldable pub due : ℕ → List Entry → List Entry
  due t [] = []
  due t (e ∷ es) =
      let rest = due t es in if is_pending e.status && leb e.due_at t then e ∷ rest else rest

  -- one bucket, with the limit that is left
  unfoldable pub claim_bucket : String → ℕ → ℕ → ℕ → ℕ → Op Tables Error (List Intent)
  unfolding query due claim_entries
  claim_bucket owner lease t room b =
      query (λ s. take room (due t (s.index b))) >>= claim_entries owner lease t

  -- the loop over the days; `left` days are still to be read, `ago` is the next of them
  unfoldable pub claim_days :
      String → ℕ → ℕ → ℕ → ℕ → ℕ → List Intent → Op Tables Error (List Intent)
  unfolding claim_bucket
  claim_days owner limit lease t zero ago result = return result
  claim_days owner limit lease t (suc left) ago result =
      if ltb (length result) limit
      then (claim_bucket owner lease t (limit - length result) (bucket t - ago) >>= λ claimed.
          claim_days owner limit lease t left (suc ago) (result ++ claimed))
      else return result

  abbrev pub limit_of : ℕ → ℕ
  limit_of limit = if limit == 0 then 50 else limit

  abbrev pub lease_of : ℕ → ℕ
  lease_of lease = if lease == 0 then 30 * second else lease

  -- ClaimDue: eight days, from today
  unfoldable pub claim_due : String → ℕ → ℕ → Op Tables Error (List Intent)
  unfolding now claim_days
  claim_due owner limit lease = do
    t ← now
    claim_days owner (limit_of limit) (lease_of lease) t 8 0 []

  abbrev pub completed : ℕ → Row → Row
  completed t r = record r { status = complete; lease_owner = ""; lease_until = 0; updated_at = t }

  -- Complete
  unfoldable pub complete_intent : String → String → Op Tables Error (Unit {0})
  unfolding now update_if
  complete_intent id owner = do
    t ← now
    applied ← update_if id (holds_lease owner) (completed t)
    return tt

  abbrev pub buried : ℕ → String → Row → Row
  buried t cause r = record r {
    status = dead_letter;
    last_error = cause;
    lease_owner = "";
    lease_until = 0;
    updated_at = t;
  }

  abbrev pub postponed : ℕ → ℕ → ℕ → String → Row → Row
  postponed t attempts due_at cause r = record r {
    attempts = attempts;
    next_attempt_at = due_at;
    last_error = cause;
    lease_owner = "";
    lease_until = 0;
    updated_at = t;
  }

  -- Retry, of an intent that has attempts left and of one that has none
  unfoldable pub bury : Intent → String → String → Op Tables Error (Unit {0})
  unfolding now update_if
  bury intent owner cause = do
    t ← now
    applied ← update_if intent.id (holds_lease owner) (buried t cause)
    return tt

  unfoldable pub postpone : Intent → String → ℕ → String → ℕ → Op Tables Error (Unit {0})
  unfolding now insert_index update_if
  postpone intent owner attempts cause delay = do
    t ← now
    insert_index intent pending (t + delay)
    u ← now
    applied ← update_if intent.id (holds_lease owner) (postponed u attempts (t + delay) cause)
    return tt

  unfoldable pub retry : Intent → String → ℕ → String → ℕ → ℕ → ℕ → Op Tables Error (Unit {0})
  unfolding bury postpone
  retry intent owner attempts cause max_attempts base limit =
      if leb max_attempts attempts
      then bury intent owner cause
      else postpone intent owner attempts cause (retry_delay base limit attempts)
