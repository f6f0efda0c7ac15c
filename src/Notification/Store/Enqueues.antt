-- ===== src/Notification/Store/Enqueues.antt =====
-- What Enqueue of pkg/notification/outbox.go keeps.
use nexus_chat.Base.{
  ℕ, String, ◌≡◌, refl, Bool, true, false, not, List, Option, none, some, if◌then◌else◌,
}
use nexus_chat.Stateful.{
  return, Keeps, Ends, Ensures-bind, Ensures-if, Keeps-return, Keeps-throw, Keeps-throw_if,
}
use nexus_chat.Notification.{Intent, pending, Row, Entry, Tables, Env}
use nexus_chat.Notification.Store.{
  is_some, compare_and_set, with_row, fate, counted, is_pending, set_row, insert_index,
  enqueue_again, index_new, enqueue, new_row, is_valid,
}
use nexus_chat.Notification.Store.Rules.{
  Ends-fate, Property, On, indexed, Keeps-now, Keeps-query, Keeps-insert_index,
}

-- Enqueue adds rows to the index, and a row only where there is none.
module _ (env : Env) (T : Property)
    (on_index : (rows : String → Option Row) (index : ℕ → List Entry) (intent : Intent) (due_at : ℕ)
      → T rows index
      → T rows (indexed env intent pending due_at index))
    (on_new : (rows : String → Option Row) (index : ℕ → List Entry) (intent : Intent) (t : ℕ)
      → rows intent.id ≡ none
      → T rows index
      → T (set_row intent.id (new_row env intent t) rows) index) where
  insert_new-Keeps :
      (intent : Intent) (t : ℕ)
      → Keeps (On T) (
          compare_and_set env
            (λ s. not (is_some (s.rows intent.id)))
            (with_row env intent.id (new_row env intent t)))
  unfolding compare_and_set
  insert_new-Keeps intent t = record { at = λ s p. absent s p (s.rows intent.id) refl }
    where
      absent :
          (s : Tables) (p : On T s) (o : Option Row)
          → s.rows intent.id ≡ o
          → Ends
              (λ a. On T)
              (On T)
              (fate
                (env.session s.statements)
                (not (is_some o))
                (if not (is_some o)
                  then with_row env intent.id (new_row env intent t) (counted s)
                  else counted s)
                (counted s))
      absent s p none e =
          let q = on_new s.rows s.index intent t e p in
          Ends-fate _ _ (env.session s.statements) _ _ _ q q p
      absent s p (some r) e = Ends-fate _ _ (env.session s.statements) _ _ _ p p p

  enqueue_again-Keeps :
      (intent : Intent) (o : Option Row) → Keeps (On T) (enqueue_again env intent o)
  unfolding enqueue_again
  enqueue_again-Keeps intent none = Keeps-throw _
  enqueue_again-Keeps intent (some r) =
      Ensures-if (is_pending r.status) (insert_index env intent pending r.next_attempt_at)
        (return tt)
        (λ _.
          Keeps-insert_index env T intent pending r.next_attempt_at
            λ rows index. on_index rows index intent r.next_attempt_at)
        (λ _. Keeps-return tt)

  index_new-Keeps : (intent : Intent) (t : ℕ) (b : Bool) → Keeps (On T) (index_new env intent t b)
  unfolding index_new
  index_new-Keeps intent t true =
      Keeps-insert_index env T intent pending t λ rows index. on_index rows index intent t
  index_new-Keeps intent t false =
      Ensures-bind _ _ (Keeps-query env T (λ s. s.rows intent.id)) (enqueue_again-Keeps intent)

  pub enqueue-Keeps : (intent : Intent) → Keeps (On T) (enqueue env intent)
  unfolding enqueue
  enqueue-Keeps intent = Ensures-bind _ _ (Keeps-throw_if (not (is_valid intent)) _) λ _.
      Ensures-bind _ _ (Keeps-now env T)
        λ t. Ensures-bind _ _ (insert_new-Keeps intent t) λ b. index_new-Keeps intent t b
