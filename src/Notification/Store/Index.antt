-- ===== src/Notification/Store/Index.antt =====
-- That a pending notification can be found through the index, pkg/notification/outbox.go.
use nexus_chat.Base.{
  ℕ, ◌+◌, String, ◌≡◌, refl, sym, ap, ◌∙◌, subst, Bool, true, false, ◌&&◌, ◌||◌, List, [], ◌∷◌,
  Option, none, some, arith, str_eq, str_eq_iff, leb, ◌==◌, ==_iff, if◌then◌else◌,
}
use nexus_chat.Notification.Backoff.{retry_delay}
use nexus_chat.Effects.{Result, ok, err}
use nexus_chat.Stateful.{
  Op, Ensures, Keeps, Ends, Ensures-bind, Ensures-if, Ensures-return, Keeps-return, Keeps-after,
}
use nexus_chat.Notification.{Intent, Row, Entry, Tables, Env, Error, bucket, pending}
use nexus_chat.Notification.Store.{
  execute, is_pending, set_row, insert_entry, same_place, holds_lease, leased, completed, buried,
  postponed, complete_intent, bury, postpone, retry, claim_due, limit_of, lease_of, insert_index,
  new_row,
}
use nexus_chat.Notification.Store.Claims.{claim_days-Keeps}
use nexus_chat.Notification.Store.Enqueues.{enqueue-Keeps}
use nexus_chat.Notification.Store.Settled.{
  Step, enqueues, claims, completes, retries, asks, Reach, stays, steps,
}
use nexus_chat.Notification.Store.Rules.{
  Ends-fate, Property, On, indexed, Keeps-now, Keeps-update_if,
}

-- the entry is of the notification, pending and due at that time
abbrev pub entry_of : String → ℕ → Entry → Bool
entry_of id due_at e = is_pending e.status && e.due_at == due_at && str_eq e.intent.id id

unfoldable pub listed : String → ℕ → List Entry → Bool
listed id due_at [] = false
listed id due_at (e ∷ es) = let rest = listed id due_at es in entry_of id due_at e || rest

module _ (env : Env) where
  pub insert_entry-lists :
      (e : Entry) (es : List Entry) (id : String) (d : ℕ)
      → entry_of id d e ≡ true
      → listed id d (insert_entry env e es) ≡ true
  unfolding insert_entry listed
  insert_entry-lists e [] id d h = ground (arith, h)
  insert_entry-lists e (x ∷ xs) id d h = ground (arith, h, insert_entry-lists e xs id d h)

  same_entry :
      (e x : Entry) (id : String) (d : ℕ)
      → is_pending e.status ≡ true
      → same_place env e x ≡ true
      → entry_of id d x ≡ true
      → entry_of id d e ≡ true
  same_entry e x id d p s h = ground (
    arith,
    p,
    s,
    h,
    str_eq_iff e.intent.id x.intent.id,
    str_eq_iff x.intent.id id,
    str_eq_iff e.intent.id id,
  )

  insert_entry-keeps :
      (e : Entry) (es : List Entry) (id : String) (d : ℕ)
      → is_pending e.status ≡ true
      → listed id d es ≡ true
      → listed id d (insert_entry env e es) ≡ true
  unfolding insert_entry listed
  insert_entry-keeps e [] id d p h = ground (arith, h)
  insert_entry-keeps e (x ∷ xs) id d p h =
      ground (arith, p, h, insert_entry-keeps e xs id d p, same_entry e x id d p)

-- While the row is pending, the index holds it at its next attempt.
abbrev IsFindable : String → (ℕ → List Entry) → Row → Type 0
IsFindable id index r =
    is_pending r.status ≡ true
    → listed id r.next_attempt_at (index (bucket r.next_attempt_at)) ≡ true

-- The notification has a row, and while that is pending the index holds it at its next attempt.
abbrev pub IsListed : String → Property
IsListed id rows index = (r : Row) × ((rows id ≡ some r) × IsFindable id index r)

module _ (env : Env) (id : String) where
  indexed-listed :
      (intent : Intent) (due_at d : ℕ) (index : ℕ → List Entry)
      → listed id d (index (bucket d)) ≡ true
      → listed id d (indexed env intent pending due_at index (bucket d)) ≡ true
  indexed-listed intent due_at d index h = branch (bucket due_at == bucket d) refl
    where
      e : Entry
      e = record { status = pending; due_at = due_at; intent = intent }

      branch :
          (b : Bool)
          → (bucket due_at == bucket d) ≡ b
          → listed id d (if b then insert_entry env e (index (bucket due_at)) else index (bucket d))
            ≡ true
      branch true t = insert_entry-keeps env e (index (bucket due_at)) id d refl (
          subst (λ b. listed id d (index b) ≡ true) (sym ((==_iff (bucket due_at) (bucket d)).0 t))
            h)
      branch false t = h

  indexed-IsListed :
      (rows : String → Option Row) (index : ℕ → List Entry) (intent : Intent) (due_at : ℕ)
      → IsListed id rows index
      → IsListed id rows (indexed env intent pending due_at index)
  indexed-IsListed rows index intent due_at (r, (e, f)) =
      (r, (e, λ p. indexed-listed intent due_at r.next_attempt_at index (f p)))

  -- a row that is written over
  set_row-IsListed :
      (rows : String → Option Row) (index : ℕ → List Entry) (i : String) (r r' : Row)
      → rows i ≡ some r
      → (i ≡ id → IsFindable id index r → IsFindable id index r')
      → IsListed id rows index
      → IsListed id (set_row i r' rows) index
  set_row-IsListed rows index i r r' e k (q, (f, g)) = branch (str_eq i id) refl
    where
      branch :
          (b : Bool) → str_eq i id ≡ b → IsListed id (λ j. if b then some r' else rows id) index
      branch true t =
          let same = (str_eq_iff i id).0 t in
          let qr : some q ≡ some r = sym f ∙ ap rows (sym same) ∙ e in
          (
            r',
            (
              refl,
              k same (
                  subst (λ o. (x : Row) → o ≡ some x → IsFindable id index x) qr
                    (λ x y.
                      subst
                        (λ (o : Option Row). elim o [
                          | none ↦ Unit
                          | some z ↦ IsFindable id index z
                        ])
                        y g)
                    r refl),
            ),
          )
      branch false t = (q, (f, g))

  claim_due-IsListed :
      (owner : String) (limit lease : ℕ)
      → Keeps (On (IsListed id)) (claim_due env owner limit lease)
  unfolding claim_due
  claim_due-IsListed owner limit lease = Ensures-bind _ _ (Keeps-now env (IsListed id)) λ t.
      claim_days-Keeps env (IsListed id) owner (lease_of env lease) t
        (λ rows index i r e b.
          set_row-IsListed rows index i r (leased env owner t (lease_of env lease) r) e
            (λ same f. f))
        (limit_of env limit) 8 0 []

  complete_intent-IsListed :
      (i owner : String) → Keeps (On (IsListed id)) (complete_intent env i owner)
  unfolding complete_intent
  complete_intent-IsListed i owner = Ensures-bind _ _ (Keeps-now env (IsListed id)) λ t.
      Ensures-bind _ _
        (Keeps-update_if env (IsListed id) i (holds_lease env owner) (completed env t)
          λ rows index r e b.
            set_row-IsListed rows index i r (completed env t r) e
              (λ same f p. absurd (ground (arith, p))))
        λ b. Keeps-return tt

  bury-IsListed :
      (intent : Intent) (owner cause : String)
      → Keeps (On (IsListed id)) (bury env intent owner cause)
  unfolding bury
  bury-IsListed intent owner cause = Ensures-bind _ _ (Keeps-now env (IsListed id)) λ t.
      Ensures-bind _ _
        (Keeps-update_if env (IsListed id) intent.id (holds_lease env owner) (buried env t cause)
          λ rows index r e b.
            set_row-IsListed rows index intent.id r (buried env t cause r) e
              (λ same f p. absurd (ground (arith, p))))
        λ b. Keeps-return tt

  -- between the two writes of Retry
  abbrev Ready : String → ℕ → Property
  Ready i due_at rows index =
      IsListed id rows index × ((i ≡ id) → listed id due_at (index (bucket due_at)) ≡ true)

  Ready-index :
      (intent : Intent) (due_at : ℕ)
      → Ensures
          (On (IsListed id))
          (λ u. On (Ready intent.id due_at))
          (On (IsListed id))
          (insert_index env intent pending due_at)
  unfolding insert_index execute
  Ready-index intent due_at = record {
    at = λ s p.
        let q = indexed-IsListed s.rows s.index intent due_at p in
        Ends-fate _ _ (env.session s.statements) _ _ _ (q, λ same. now_listed s same) q p;
  }
    where
      now_listed :
          (s : Tables)
          → intent.id ≡ id
          → listed id due_at (indexed env intent pending due_at s.index (bucket due_at)) ≡ true
      now_listed s same = rw ((==_iff (bucket due_at) (bucket due_at)).1 refl) (
          insert_entry-lists env (record { status = pending; due_at = due_at; intent = intent })
            (s.index (bucket due_at)) id due_at
            (rw ((==_iff due_at due_at).1 refl, (str_eq_iff intent.id id).1 same) refl))

  weaken :
      {A : Type 0} {m : Op Tables Error A} (i : String) (d : ℕ)
      → Keeps (On (Ready i d)) m
      → Ensures (On (Ready i d)) (λ a. On (Ready i d)) (On (IsListed id)) m
  weaken {A = A} {m = m} i d k = record { at = λ s p. rest (m s) (k.at s p) }
    where
      rest :
          (x : Result Error A × Tables)
          → Ends (λ a. On (Ready i d)) (On (Ready i d)) x
          → Ends (λ a. On (Ready i d)) (On (IsListed id)) x
      rest (ok a, t) q = q
      rest (err e, t) q = q.0

  postpone-IsListed :
      (intent : Intent) (owner : String) (attempts : ℕ) (cause : String) (delay : ℕ)
      → Keeps (On (IsListed id)) (postpone env intent owner attempts cause delay)
  unfolding postpone
  postpone-IsListed intent owner attempts cause delay =
      Ensures-bind _ _ (Keeps-now env (IsListed id)) λ t.
        Ensures-bind _ _ (Ready-index intent (t + delay)) λ _.
          Ensures-bind _ _
            (weaken intent.id (t + delay) (Keeps-now env (Ready intent.id (t + delay))))
            λ u.
              Ensures-bind _ _
                (weaken intent.id (t + delay) (
                  Keeps-update_if env (Ready intent.id (t + delay)) intent.id
                    (holds_lease env owner) (postponed env u attempts (t + delay) cause)
                    λ rows index r e b p. (
                      set_row-IsListed rows index intent.id r
                          (postponed env u attempts (t + delay) cause r) e (λ same f x. p.1 same)
                          p.0,
                      p.1,
                    )))
                λ b. Ensures-return tt (λ s p. p.0)

  retry-IsListed :
      (intent : Intent) (owner : String) (attempts : ℕ) (cause : String)
      (max_attempts base limit : ℕ)
      → Keeps (On (IsListed id)) (retry env intent owner attempts cause max_attempts base limit)
  unfolding retry
  retry-IsListed intent owner attempts cause max_attempts base limit =
      let delay = retry_delay base limit attempts in
      Ensures-if (leb max_attempts attempts) (bury env intent owner cause)
        (postpone env intent owner attempts cause delay) (λ _. bury-IsListed intent owner cause)
        (λ _. postpone-IsListed intent owner attempts cause delay)

  new_row-IsListed :
      (rows : String → Option Row) (index : ℕ → List Entry) (intent : Intent) (t : ℕ)
      → rows intent.id ≡ none
      → IsListed id rows index
      → IsListed id (set_row intent.id (new_row env intent t) rows) index
  new_row-IsListed rows index intent t absent (r, (e, f)) = branch (str_eq intent.id id) refl
    where
      branch :
          (b : Bool)
          → str_eq intent.id id ≡ b
          → IsListed id (λ j. if b then some (new_row env intent t) else rows id) index
      branch true u = absurd (is_none (sym absent ∙ ap rows ((str_eq_iff intent.id id).0 u) ∙ e))
        where
          is_none : none ≡ some r → ⊥
          is_none h = cc
      branch false u = (r, (e, f))

  Step-IsListed : (s s' : Tables) → Step env s s' → On (IsListed id) s → On (IsListed id) s'
  Step-IsListed s s' (enqueues intent) p =
      Keeps-after _ s (enqueue-Keeps env (IsListed id) indexed-IsListed new_row-IsListed intent) p
  Step-IsListed s s' (claims owner limit lease) p =
      Keeps-after _ s (claim_due-IsListed owner limit lease) p
  Step-IsListed s s' (completes i owner) p = Keeps-after _ s (complete_intent-IsListed i owner) p
  Step-IsListed s s' (retries intent owner attempts cause max_attempts base limit) p =
      Keeps-after _ s (retry-IsListed intent owner attempts cause max_attempts base limit) p
  Step-IsListed s s' asks p = p

  -- Once a notification has a row that the index holds at its next attempt while it is pending,
  -- this stays so through every sequence of operations of all workers, however the statements end.
  pub Reach-IsListed : (s s' : Tables) → Reach env s s' → On (IsListed id) s → On (IsListed id) s'
  Reach-IsListed s s' stays p = p
  Reach-IsListed s s' (steps {t = t} r k) p = Step-IsListed t s' k (Reach-IsListed s t r p)
