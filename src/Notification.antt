-- ===== src/Notification.antt =====
-- pkg/notification: the durable outbox of notifications and the worker that delivers them.
--
-- Times and durations are nanoseconds, and a bucket, the text of a day, is the number of the day.
-- The tables are those of the migration 009: `rows` is notification_outbox_by_id and `index` the
-- partitions of notification_outbox_by_bucket, each in its clustering order. `Outcome` says how a
-- statement ends: a statement that fails may still have been applied.
pub mod Backoff
pub mod Store
pub mod Worker
use nexus_chat.Base.{ℕ, ◌/◌, ◌*◌, String, Bool, List, Option}

pub record Intent : Type 0 where
  pub id : String
  pub user_id : ℕ
  pub kind : String
  pub actor_id : ℕ
  pub payload : String
  -- `none` is the zero time
  pub created_at : Option ℕ

pub data Status : Type 0 where
  pending complete dead_letter : Status

pub record Row : Type 0 where
  pub intent : Intent
  pub status : Status
  pub attempts : ℕ
  pub next_attempt_at : ℕ
  pub lease_owner : String
  pub lease_until : ℕ
  pub last_error : String
  pub updated_at : ℕ

pub record Entry : Type 0 where
  pub status : Status
  pub due_at : ℕ
  pub intent : Intent

pub record Tables : Type 0 where
  pub rows : String → Option Row
  pub index : ℕ → List Entry
  pub statements : ℕ
  pub readings : ℕ

pub data Outcome : Type 0 where
  done rejected timed_out : Outcome

pub record Env : Type 0 where
  -- the fate of the n-th statement
  pub session : ℕ → Outcome
  pub clock : ℕ → ℕ
  -- the order of the texts of a clustering column
  pub before : String → String → Bool

pub data Error : Type 0 where
  invalid_intent not_found failed : Error

abbrev pub bucket : ℕ → ℕ
bucket t = t / (24 * 3600 * 1000000000)
