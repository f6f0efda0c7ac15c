-- ===== src/Notification/Store/Rules.antt =====
-- What the statements of the notification store keep of its two tables.
use nexus_chat.Base.{
  ℕ, suc, String, ◌≡◌, refl, ap, ◌∙◌, Bool, true, false, List, Option, none, some, if◌then◌else◌,
}
use nexus_chat.Stateful.{Ensures, Keeps, Ends}
use nexus_chat.Notification.{
  Intent, Status, Row, Entry, Tables, Outcome, done, rejected, timed_out, Env, bucket,
}
use nexus_chat.Notification.Store.{
  fate, counted, now, execute, compare_and_set, query, insert_entry, insert_index, set_bucket,
  set_row, update_if, passes, with_row, change_row,
}

-- a property of the two tables
abbrev pub Property : Type 1
Property = (String → Option Row) → (ℕ → List Entry) → Type 0

abbrev pub On : Property → Tables → Type 0
On T s = T s.rows s.index

-- the index after `insertIndex`
abbrev pub indexed : Env → Intent → Status → ℕ → (ℕ → List Entry) → ℕ → List Entry
indexed env intent status due_at index =
    set_bucket (bucket due_at)
      (insert_entry env (record { status = status; due_at = due_at; intent = intent })
        (index (bucket due_at)))
      index

pub Ends-fate :
    {A : Type 0} (Q : A → Tables → Type 0) (R : Tables → Type 0) (o : Outcome) (a : A)
    (t u : Tables)
    → Q a t
    → R t
    → R u
    → Ends Q R (fate o a t u)
Ends-fate Q R done a t u q r r' = q
Ends-fate Q R rejected a t u q r r' = r'
Ends-fate Q R timed_out a t u q r r' = r

module _ (env : Env) (T : Property) where
  pub Keeps-now : Keeps (On T) (now env)
  unfolding now
  Keeps-now = record { at = λ s p. p }

  pub Keeps-query : {A : Type 0} (q : Tables → A) → Keeps (On T) (query env q)
  unfolding query
  Keeps-query q = record { at = λ s p. Ends-fate _ _ (env.session s.statements) _ _ _ p p p }

  pub Keeps-insert_index :
      (intent : Intent) (status : Status) (due_at : ℕ)
      → ((rows : String → Option Row) (index : ℕ → List Entry)
          → T rows index
          → T rows (indexed env intent status due_at index))
      → Keeps (On T) (insert_index env intent status due_at)
  unfolding insert_index execute
  Keeps-insert_index intent status due_at k = record {
    at = λ s p. let q = k s.rows s.index p in Ends-fate _ _ (env.session s.statements) _ _ _ q q p;
  }

module _ (env : Env) (T : Property) {A : Type 0} (Q : A → Tables → Type 0) where
  pub Ensures-query :
      (q : Tables → A)
      → ((s : Tables) → On T s → Q (q s) (counted s))
      → Ensures (On T) Q (On T) (query env q)
  unfolding query
  Ensures-query q k = record {
    at = λ s p. Ends-fate _ _ (env.session s.statements) _ _ _ (k s p) p p;
  }

-- an update under a condition, with what it may use of the row it changes
module _ (env : Env) (T : Property) (Q : Bool → Tables → Type 0) where
  pub Ensures-update_if :
      (id : String) (test : Row → Bool) (change : Row → Row)
      → ((s : Tables) (r : Row)
          → s.rows id ≡ some r
          → test r ≡ true
          → On T s
          → (n : ℕ)
          → Q true (record s { rows = set_row id (change r) s.rows; statements = n })
            × T (set_row id (change r) s.rows) s.index)
      → ((s : Tables)
          → passes env test (s.rows id) ≡ false
          → On T s
          → (n : ℕ) → Q false (record s { statements = n }))
      → Ensures (On T) Q (On T) (update_if env id test change)
  unfolding update_if compare_and_set
  Ensures-update_if id test change k l = record { at = λ s p. found s p (s.rows id) refl }
    where
      tested :
          (s : Tables) (p : On T s) (r : Row)
          → s.rows id ≡ some r
          → (b : Bool) → test r ≡ b
          → Ends Q (On T) (
              fate
                (env.session s.statements)
                b
                (if b then with_row env id (change r) (counted s) else counted s)
                (counted s))
      tested s p r e true t =
          let (q, v) = k s r e t p (suc s.statements) in
          Ends-fate _ _ (env.session s.statements) _ _ _ q v p
      tested s p r e false t =
          let u = ap (passes env test) e ∙ t in
          Ends-fate _ _ (env.session s.statements) _ _ _ (l s u p (suc s.statements)) p p

      found :
          (s : Tables) (p : On T s) (o : Option Row)
          → s.rows id ≡ o
          → Ends Q (On T) (
              fate
                (env.session s.statements)
                (passes env test o)
                (if passes env test o then change_row env id change o (counted s) else counted s)
                (counted s))
      found s p none e =
          let u = ap (passes env test) e in
          Ends-fate _ _ (env.session s.statements) _ _ _ (l s u p (suc s.statements)) p p
      found s p (some r) e = tested s p r e (test r) refl

module _ (env : Env) (T : Property) where
  pub Keeps-update_if :
      (id : String) (test : Row → Bool) (change : Row → Row)
      → ((rows : String → Option Row) (index : ℕ → List Entry) (r : Row)
          → rows id ≡ some r
          → test r ≡ true
          → T rows index
          → T (set_row id (change r) rows) index)
      → Keeps (On T) (update_if env id test change)
  Keeps-update_if id test change k =
      Ensures-update_if env T (λ b. On T) id test change
        (λ s r e t p n. let v = k s.rows s.index r e t p in (v, v)) (λ s t p n. p)
