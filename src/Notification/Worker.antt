-- ===== src/Notification/Worker.antt =====
-- A pass of the worker, pkg/notification/worker.go. How a delivery ends is a parameter: `none` is a
-- success and a text the error, which may depend on the tables.
use nexus_chat.Base.{
  ℕ, ◌+◌, String, ◌≡◌, refl, sym, subst, false, List, [], ◌∷◌, Option, none, some,
}
use nexus_chat.Effects.{Result, ok, err}
use nexus_chat.Notification.{Intent, Row, Tables, Env, Error, Outcome}
use nexus_chat.Notification.Store.{
  counted, query, claim_due, complete_intent, retry, fate, is_pending,
}
use nexus_chat.Notification.Store.Settled.{
  Reach, Reach-settled, Reach-trans, stays, steps, Step, claims, completes, retries, asks,
}

-- Config, with the defaults of DefaultConfig filled in
pub record Config : Type 0 where
  pub worker_id : String
  pub batch_size : ℕ
  pub lease_duration : ℕ
  pub max_attempts : ℕ
  pub base_retry_delay : ℕ
  pub max_retry_delay : ℕ

module _ (env : Env) (deliver : Tables → Intent → Option String) (config : Config) where
  -- attempts: an error counts as none
  abbrev attempts_of : Result Error (Option Row) → ℕ
  attempts_of (ok (some r)) = r.attempts
  attempts_of _ = 0

  unfoldable pub attempts : String → Tables → ℕ × Tables
  unfolding query
  attempts id s = let (r, t) = query env (λ s. s.rows id) s in (attempts_of r, t)

  -- one intent of a pass; errors of the store are only logged
  unfoldable pub settle : Intent → Option String → Tables → Tables
  unfolding attempts
  settle intent none s = (complete_intent env intent.id config.worker_id s).1
  settle intent (some cause) s =
      let (n, t) = attempts intent.id s in
      (retry env intent config.worker_id (n + 1) cause config.max_attempts config.base_retry_delay
        config.max_retry_delay t).1

  unfoldable pub process_each : List Intent → Tables → Tables
  unfolding settle
  process_each [] s = s
  process_each (x ∷ xs) s = process_each xs (settle x (deliver s x) s)

  abbrev pub process_claimed : Result Error (List Intent) × Tables → Tables
  process_claimed (ok xs, s) = process_each xs s
  process_claimed (err e, s) = s

  -- process
  unfoldable pub process : Tables → Tables
  unfolding process_each
  process s =
      process_claimed (claim_due env config.worker_id config.batch_size config.lease_duration s)

  query-counted : {A : Type 0} (q : Tables → A) (s : Tables) → (query env q s).1 ≡ counted s
  unfolding query
  query-counted q s = ended (env.session s.statements)
    where
      ended : (o : Outcome) → (fate o (q s) (counted s) (counted s)).1 ≡ counted s
      ended Outcome.done = refl
      ended Outcome.rejected = refl
      ended Outcome.timed_out = refl

  settle-Reach :
      (intent : Intent) (o : Option String) (s : Tables) → Reach env s (settle intent o s)
  unfolding settle attempts
  settle-Reach intent none s = steps stays (completes intent.id config.worker_id)
  settle-Reach intent (some cause) s =
      steps (steps stays (subst (Step env s) (sym (query-counted (λ s. s.rows intent.id) s)) asks))
        (retries intent config.worker_id _ cause config.max_attempts config.base_retry_delay
          config.max_retry_delay)

  process_each-Reach : (xs : List Intent) (s : Tables) → Reach env s (process_each xs s)
  unfolding process_each
  process_each-Reach [] s = stays
  process_each-Reach (x ∷ xs) s =
      Reach-trans (settle-Reach x (deliver s x) s)
        (process_each-Reach xs (settle x (deliver s x) s))

  pub process-Reach : (s : Tables) → Reach env s (process s)
  unfolding process
  process-Reach s =
      claimed (claim_due env config.worker_id config.batch_size config.lease_duration s)
        (steps stays (claims config.worker_id config.batch_size config.lease_duration))
    where
      claimed :
          (x : Result Error (List Intent) × Tables)
          → Reach env s x.1
          → Reach env s (process_claimed x)
      claimed (ok xs, t) r = Reach-trans r (process_each-Reach xs t)
      claimed (err e, t) r = r

-- A pass of a worker leaves the row of a notification that is complete or a dead letter as it is,
-- however its deliveries and its statements end.
pub process-settled :
    (env : Env) (deliver : Tables → Intent → Option String) (config : Config) (s : Tables)
    (id : String) (r : Row)
    → s.rows id ≡ some r
    → is_pending r.status ≡ false
    → (process env deliver config s).rows id ≡ some r
process-settled env deliver config s id r e f =
    Reach-settled env s (process env deliver config s) id r (process-Reach env deliver config s) e f
