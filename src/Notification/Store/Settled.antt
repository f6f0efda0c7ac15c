-- ===== src/Notification/Store/Settled.antt =====
-- The final states of a notification: what the operations of the store do to a row that is not
-- pending.
use nexus_chat.Base.{
  ℕ, ◌+◌, String, ◌≡◌, refl, sym, ap, ◌∙◌, Bool, true, false, ◌&&◌, List, [], Option, none, some,
  arith, str_eq, str_eq_iff, leb, if◌then◌else◌,
}
use nexus_chat.Notification.Backoff.{retry_delay}
use nexus_chat.Stateful.{Keeps, Ensures-bind, Ensures-if, Keeps-return, Keeps-after}
use nexus_chat.Notification.{Intent, pending, Row, Entry, Tables, Env}
use nexus_chat.Notification.Store.{
  counted, is_pending, set_row, enqueue, new_row, update_if, holds_lease, claim_due, limit_of,
  lease_of, complete_intent, completed, buried, postponed, bury, postpone, retry,
}
use nexus_chat.Notification.Store.Claims.{claim_days-Keeps}
use nexus_chat.Notification.Store.Enqueues.{enqueue-Keeps}
use nexus_chat.Notification.Store.Rules.{
  Property, On, indexed, Keeps-now, Keeps-insert_index, Keeps-update_if,
}

-- One operation of the store, with any arguments.
pub data Step (env : Env) : Tables → Tables → Type 0 where
  enqueues : {s : Tables} (intent : Intent) → Step env s (enqueue env intent s).1
  claims :
      {s : Tables} (owner : String) (limit lease : ℕ)
      → Step env s (claim_due env owner limit lease s).1
  completes : {s : Tables} (id owner : String) → Step env s (complete_intent env id owner s).1
  retries :
      {s : Tables} (intent : Intent) (owner : String) (attempts : ℕ) (cause : String)
      (max_attempts base limit : ℕ)
      → Step env s (retry env intent owner attempts cause max_attempts base limit s).1
  -- Status
  asks : {s : Tables} → Step env s (counted s)

pub data Reach (env : Env) (s : Tables) : Tables → Type 0 where
  stays : Reach env s s
  steps : {t u : Tables} → Reach env s t → Step env t u → Reach env s u

pub Reach-trans : {env : Env} {s t u : Tables} → Reach env s t → Reach env t u → Reach env s u
Reach-trans r stays = r
Reach-trans r (steps q k) = steps (Reach-trans r q) k

-- The operations change a row only while it is pending; what such changes keep, they all keep.
module _ (env : Env) (T : Property)
    (on_index : (rows : String → Option Row) (index : ℕ → List Entry) (intent : Intent) (due_at : ℕ)
      → T rows index
      → T rows (indexed env intent pending due_at index))
    (on_new : (rows : String → Option Row) (index : ℕ → List Entry) (intent : Intent) (t : ℕ)
      → rows intent.id ≡ none
      → T rows index
      → T (set_row intent.id (new_row env intent t) rows) index)
    (on_pending : (rows : String → Option Row) (index : ℕ → List Entry) (i : String) (r r' : Row)
      → rows i ≡ some r
      → is_pending r.status ≡ true
      → T rows index
      → T (set_row i r' rows) index) where
  still_pending : (b c : Bool) → (b && c) ≡ true → b ≡ true
  still_pending b c e = ground arith

  claim_due-Keeps :
      (owner : String) (limit lease : ℕ) → Keeps (On T) (claim_due env owner limit lease)
  unfolding claim_due
  claim_due-Keeps owner limit lease = Ensures-bind _ _ (Keeps-now env T) λ t.
      claim_days-Keeps env T owner (lease_of env lease) t
        (λ rows index i r e b. on_pending rows index i r _ e (still_pending _ _ b))
        (limit_of env limit) 8 0 []

  update_held-Keeps :
      (id owner : String) (change : Row → Row)
      → Keeps (On T) (update_if env id (holds_lease env owner) change)
  update_held-Keeps id owner change =
      Keeps-update_if env T id (holds_lease env owner) change
        λ rows index r e b. on_pending rows index id r (change r) e (still_pending _ _ b)

  complete_intent-Keeps : (id owner : String) → Keeps (On T) (complete_intent env id owner)
  unfolding complete_intent
  complete_intent-Keeps id owner =
      Ensures-bind _ _ (Keeps-now env T)
        λ t. Ensures-bind _ _ (update_held-Keeps id owner (completed env t)) λ b. Keeps-return tt

  bury-Keeps : (intent : Intent) (owner cause : String) → Keeps (On T) (bury env intent owner cause)
  unfolding bury
  bury-Keeps intent owner cause = Ensures-bind _ _ (Keeps-now env T) λ t.
      Ensures-bind _ _ (update_held-Keeps intent.id owner (buried env t cause)) λ b. Keeps-return tt

  postpone-Keeps :
      (intent : Intent) (owner : String) (attempts : ℕ) (cause : String) (delay : ℕ)
      → Keeps (On T) (postpone env intent owner attempts cause delay)
  unfolding postpone
  postpone-Keeps intent owner attempts cause delay = Ensures-bind _ _ (Keeps-now env T) λ t.
      Ensures-bind _ _
        (Keeps-insert_index env T intent pending (t + delay)
          λ rows index. on_index rows index intent (t + delay))
        λ _. Ensures-bind _ _ (Keeps-now env T) λ u.
          Ensures-bind _ _
            (update_held-Keeps intent.id owner (postponed env u attempts (t + delay) cause))
            λ b. Keeps-return tt

  retry-Keeps :
      (intent : Intent) (owner : String) (attempts : ℕ) (cause : String)
      (max_attempts base limit : ℕ)
      → Keeps (On T) (retry env intent owner attempts cause max_attempts base limit)
  unfolding retry
  retry-Keeps intent owner attempts cause max_attempts base limit =
      let delay = retry_delay base limit attempts in
      Ensures-if (leb max_attempts attempts) (bury env intent owner cause)
        (postpone env intent owner attempts cause delay) (λ _. bury-Keeps intent owner cause)
        (λ _. postpone-Keeps intent owner attempts cause delay)

  Step-Keeps : (s s' : Tables) → Step env s s' → On T s → On T s'
  Step-Keeps s s' (enqueues intent) p =
      Keeps-after _ s (enqueue-Keeps env T on_index on_new intent) p
  Step-Keeps s s' (claims owner limit lease) p =
      Keeps-after _ s (claim_due-Keeps owner limit lease) p
  Step-Keeps s s' (completes id owner) p = Keeps-after _ s (complete_intent-Keeps id owner) p
  Step-Keeps s s' (retries intent owner attempts cause max_attempts base limit) p =
      Keeps-after _ s (retry-Keeps intent owner attempts cause max_attempts base limit) p
  Step-Keeps s s' asks p = p

  pub Reach-Keeps : (s s' : Tables) → Reach env s s' → On T s → On T s'
  Reach-Keeps s s' stays p = p
  Reach-Keeps s s' (steps {t = t} r k) p = Step-Keeps t s' k (Reach-Keeps s t r p)

other_row :
    (rows : String → Option Row) (i j : String) (q r : Row)
    → rows j ≡ some r
    → (i ≡ j → ⊥)
    → set_row i q rows j ≡ some r
other_row rows i j q r e n = branch (str_eq i j) refl
  where
    branch : (b : Bool) → str_eq i j ≡ b → (if b then some q else rows j) ≡ some r
    branch true t = absurd (n ((str_eq_iff i j).0 t))
    branch false t = e

settled :
    (q r : Row) → some q ≡ some r → is_pending q.status ≡ true → is_pending r.status ≡ false → ⊥
settled q r e b f = cc

clash : (r : Row) → none ≡ some r → ⊥
clash r e = cc

-- Once a notification is complete or a dead letter, no sequence of operations, by whatever worker
-- and however the statements end, changes its row.
pub Reach-settled :
    (env : Env) (s s' : Tables) (id : String) (r : Row)
    → Reach env s s'
    → s.rows id ≡ some r
    → is_pending r.status ≡ false
    → s'.rows id ≡ some r
Reach-settled env s s' id r reach e f =
    Reach-Keeps env (λ rows index. rows id ≡ some r) (λ rows index intent due_at p. p)
      (λ rows index intent t absent p.
        other_row rows intent.id id (new_row env intent t) r p
          (λ same. clash r (sym absent ∙ ap rows same ∙ p)))
      (λ rows index i q q' here b p.
        other_row rows i id q' r p λ same. settled q r (sym here ∙ ap rows same ∙ p) b f)
      s s' reach e
