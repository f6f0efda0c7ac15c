-- ===== src/Notification/Store/Accepted.antt =====
-- What an Enqueue of pkg/notification/outbox.go that succeeds has reached.
use nexus_chat.Base.{
  ℕ, ◌≡◌, refl, subst, Bool, true, false, not, ◌||◌, List, Option, none, some, arith, ==_iff,
  str_eq_iff, if◌then◌else◌,
}
use nexus_chat.Effects.{ok}
use nexus_chat.Stateful.{
  Op, return, ◌>>=◌, Ensures, Ends, Ensures-bind, Ensures-if, Ensures-return, Keeps-throw_if,
}
use nexus_chat.Notification.{Intent, Row, Entry, Tables, Env, Error, bucket, pending, Outcome}
use nexus_chat.Notification.Store.{
  fate, counted, execute, is_pending, is_some, is_valid, with_row, query, compare_and_set, enqueue,
  enqueue_again, index_new, insert_index, new_row,
}
use nexus_chat.Notification.Store.Index.{listed, insert_entry-lists, IsListed, Reach-IsListed}
use nexus_chat.Notification.Store.Settled.{Reach}
use nexus_chat.Notification.Store.Rules.{Property, On, indexed, Keeps-now, Ends-fate}

abbrev Anything : Property
Anything rows index = Unit

module _ (env : Env) (intent : Intent) where
  abbrev Accepts : {A : Type 0} → (Tables → Type 0) → Op Tables Error A → Type 0
  Accepts P m = Ensures P (λ a. On (IsListed intent.id)) (λ s. Unit) m

  now_listed :
      (index : ℕ → List Entry) (t : ℕ)
      → listed intent.id t (indexed env intent pending t index (bucket t)) ≡ true
  now_listed index t = rw ((==_iff (bucket t) (bucket t)).1 refl) (
      insert_entry-lists env (record { status = pending; due_at = t; intent = intent })
        (index (bucket t)) intent.id t
        (rw ((==_iff t t).1 refl, (str_eq_iff intent.id intent.id).1 refl) refl))

  -- the index is written for a row that stands in the table
  insert_index-lists :
      (r : Row)
      → Accepts (λ s. s.rows intent.id ≡ some r) (insert_index env intent pending r.next_attempt_at)
  unfolding insert_index execute
  insert_index-lists r = record {
    at = λ s e.
        Ends-fate _ _ (env.session s.statements) _ _ _
          (r, (e, λ p. now_listed s.index r.next_attempt_at)) tt tt;
  }

  enqueue_again-lists :
      (o : Option Row) → Accepts (λ s. s.rows intent.id ≡ o) (enqueue_again env intent o)
  unfolding enqueue_again
  enqueue_again-lists none = record { at = λ s e. tt }
  enqueue_again-lists (some r) =
      Ensures-if (is_pending r.status) (insert_index env intent pending r.next_attempt_at)
        (return tt) (λ _. insert_index-lists r)
        (λ f. Ensures-return tt (λ s e. (r, (e, λ p. absurd (ground (arith, p, f))))))

  index_new-lists :
      (t : ℕ) (b : Bool)
      → Accepts
          (λ s. b ≡ true → s.rows intent.id ≡ some (new_row env intent t))
          (index_new env intent t b)
  unfolding index_new query
  index_new-lists t true = record {
    at = λ s e. (insert_index-lists (new_row env intent t)).at s (e refl);
  }
  index_new-lists t false = record { at = λ s e. answered s (env.session s.statements) }
    where
      answered :
          (s : Tables) (o : Outcome)
          → Ends
              (λ a. On (IsListed intent.id))
              (λ s. Unit)
              (((λ (u : Tables). fate o (s.rows intent.id) (counted s) (counted s))
                  >>= enqueue_again env intent)
                s)
      answered s Outcome.done = (enqueue_again-lists (s.rows intent.id)).at (counted s) refl
      answered s Outcome.rejected = tt
      answered s Outcome.timed_out = tt

  insert_new-lists :
      (t : ℕ)
      → Ensures
          (On Anything)
          (λ b s. b ≡ true → s.rows intent.id ≡ some (new_row env intent t))
          (λ s. Unit)
          (compare_and_set env
            (λ s. not (is_some (s.rows intent.id)))
            (with_row env intent.id (new_row env intent t)))
  unfolding compare_and_set
  insert_new-lists t = record { at = λ s p. tested s (not (is_some (s.rows intent.id))) }
    where
      tested :
          (s : Tables) (b : Bool)
          → Ends
              (λ b s. b ≡ true → s.rows intent.id ≡ some (new_row env intent t))
              (λ s. Unit)
              (fate
                (env.session s.statements)
                b
                (if b then with_row env intent.id (new_row env intent t) (counted s) else counted s)
                (counted s))
      tested s true =
          Ends-fate _ _ (env.session s.statements) _ _ _
            (λ e. rw ((str_eq_iff intent.id intent.id).1 refl) refl) tt tt
      tested s false =
          Ends-fate _ _ (env.session s.statements) _ _ _ (λ e. absurd (ground (arith, e))) tt tt

  enqueue-lists : Accepts (On Anything) (enqueue env intent)
  unfolding enqueue
  enqueue-lists = Ensures-bind _ _ (Keeps-throw_if (not (is_valid intent)) _) λ _.
      Ensures-bind _ _ (Keeps-now env Anything)
        λ t. Ensures-bind _ _ (insert_new-lists t) λ b. index_new-lists t b

-- If Enqueue succeeds, from whatever state, then after any further operations of all workers,
-- whatever their arguments and however their statements end, the notification has a row, and while
-- that row is pending the index holds it in the bucket and at the time of its next attempt.
pub enqueue-Reach-IsListed :
    (env : Env) (intent : Intent) (s s' s'' : Tables)
    → enqueue env intent s ≡ (ok tt, s')
    → Reach env s' s''
    → (r : Row) × ((s''.rows intent.id ≡ some r)
        × ((not (is_pending r.status)
              || listed intent.id r.next_attempt_at (s''.index (bucket r.next_attempt_at)))
            ≡ true))
enqueue-Reach-IsListed env intent s s' s'' e reach =
    let (r, (f, g)) = Reach-IsListed env intent.id s' s'' reach (
      subst (Ends (λ a. On (IsListed intent.id)) (λ s. Unit)) e
        ((enqueue-lists env intent).at s tt)) in
    (r, (f, ground (arith, g)))
