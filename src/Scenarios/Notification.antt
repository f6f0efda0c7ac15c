-- ===== src/Scenarios/Notification.antt =====
-- A notification that is enqueued, claimed, completed and left behind.
use nexus_chat.Base.{
  ℕ, ◌+◌, ◌*◌, ◌^◌, min, ◌≡◌, refl, true, false, not, ◌||◌, List, [], ◌∷◌, some, none, arith, All,
}
use nexus_chat.Stateful.{Ends}
use nexus_chat.Notification.{Intent, pending, complete, Row, Entry, Tables, done, Env, bucket}
use nexus_chat.Notification.Backoff.{retry_delay, retry_delay-min}
use nexus_chat.Notification.Store.{
  is_pending, take, due, enqueue, claim_due, claim_days, claim_bucket, claim_entries, claim_row,
  claim_found, query, now, execute, compare_and_set, update_if, insert_index, insert_entry,
  index_new, complete_intent, is_valid, new_row,
}
use nexus_chat.Notification.Store.Settled.{stays, steps, claims, completes, Reach-settled}
use nexus_chat.Notification.Store.Leases.{IsLeased, claim_due-IsLeased}
use nexus_chat.Notification.Store.Backlog.{claim_due-backlog}
use nexus_chat.Notification.Store.Index.{listed}
use nexus_chat.Notification.Store.Accepted.{enqueue-Reach-IsListed}
use nexus_chat.Notification.Worker.{Config}

abbrev up : Env
up = record { session = λ n. done; clock = λ n. 100 + n; before = λ a b. false }

abbrev hello : Intent
hello = record {
  id = "n1";
  user_id = 1;
  kind = "mention";
  actor_id = 2;
  payload = "";
  created_at = some 90;
}

abbrev empty : Tables
empty = record { rows = λ i. none; index = λ b. []; statements = 0; readings = 0 }

abbrev queued : Tables
queued = (enqueue up hello empty).1

abbrev claimed : Tables
claimed = (claim_due up "worker" 10 30 queued).1

enqueue-Reach-IsListed_example :
    (r : Row) × ((claimed.rows "n1" ≡ some r)
      × ((not (is_pending r.status)
            || listed "n1" r.next_attempt_at (claimed.index (bucket r.next_attempt_at)))
          ≡ true))
unfolding enqueue now compare_and_set index_new insert_index execute insert_entry is_valid
enqueue-Reach-IsListed_example =
    enqueue-Reach-IsListed up hello empty queued claimed refl (steps stays (claims "worker" 10 30))

claim_due-IsLeased_example :
    All (λ (x : Intent). IsLeased "worker" (101 + 30) claimed.rows x.id) (hello ∷ [])
unfolding enqueue now compare_and_set index_new insert_index execute insert_entry is_valid claim_due
    claim_days claim_bucket claim_entries claim_row claim_found query update_if due
claim_due-IsLeased_example = claim_due-IsLeased up queued claimed "worker" 10 30 (hello ∷ []) refl

-- a notification that was completed, with its row of the index
abbrev old_row : Row
old_row = record (new_row up hello 100) { status = complete }

abbrev finished : Tables
finished = record {
  rows = λ i. some old_row;
  index = λ b. record { status = pending; due_at = 100; intent = hello } ∷ [];
  statements = 0;
  readings = 0;
}

Reach-settled_example : (complete_intent up "n1" "" finished).1.rows "n1" ≡ some old_row
Reach-settled_example =
    Reach-settled up finished (complete_intent up "n1" "" finished).1 "n1" old_row
      (steps stays (completes "n1" "")) refl refl

stale :
    (b : ℕ)
    → All
        (λ (e : Entry). is_pending old_row.status ≡ false)
        (take up 10 (due up 100 (finished.index b)))
unfolding due
stale b = (refl, tt)

claim_due-backlog_example :
    Ends
      (λ (xs : List Intent) (s' : Tables).
        (xs ≡ []) × ((s'.rows ≡ finished.rows) × (s'.index ≡ finished.index)))
      (λ (s' : Tables). (s'.rows ≡ finished.rows) × (s'.index ≡ finished.index))
      (claim_due up "worker" 10 30 finished)
claim_due-backlog_example = claim_due-backlog up finished "worker" 10 30 stale

retry_delay-min_example : retry_delay 1000 900000 4 ≡ min 900000 (1000 * 2 ^ 3)
retry_delay-min_example = retry_delay-min 1000 900000 3 (omega arith) (omega arith)

abbrev config : Config
config = record {
  worker_id = "worker";
  batch_size = 50;
  lease_duration = 30;
  max_attempts = 8;
  base_retry_delay = 1;
  max_retry_delay = 900;
}
