-- ===== src/Realtime/Outbox.antt =====
-- pkg/realtime/outbox.go and the events of pkg/realtime/event.go.
--
-- The payload of an event is of the service's own type `P`. `encode` and `decode` are the JSON
-- functions; `unpublished` is what the SELECT of RelayOutbox answers after the calls so far.
-- Times are nanoseconds. Marshalling an event does not fail.
pub mod Delivery
pub mod Writes
use nexus_chat.Base.{
  ℕ, ◌-◌, ◌%◌, ◌*◌, String, Bool, true, false, List, [], ◌∷◌, Option, none, some, if◌then◌else◌,
}
use nexus_chat.Effects.{
  Result, ok, err, World, Env, History, Action, ◌>>=◌, ◌>>◌, pure, ignore, call, now, new_uuid,
}

pub record Event (P : Type 0) : Type 0 where
  pub event_id : String
  pub event_type : String
  pub schema_version : ℕ
  pub occurred_at : ℕ
  pub producer : String
  pub aggregate_id : String
  pub correlation_id : String
  pub causation_id : String
  pub payload : P

pub record OutboxRow : Type 0 where
  pub created_at : ℕ
  pub event_id : String
  pub topic : String
  pub payload : String

pub data OutboxCall (P : Type 0) : Type 0 where
  insert_event : String → ℕ → OutboxRow → OutboxCall P
  publish : String → String → Event P → OutboxCall P
  mark_published : String → ℕ → ℕ → String → OutboxCall P

-- now.Truncate(24 * time.Hour)
abbrev pub day : ℕ
day = 24 * 3600 * 1000000000

abbrev pub truncate_day : ℕ → ℕ
truncate_day t = t - t % day

-- the row that PublishDurably writes for an event, at a time
abbrev pub row_of : {P : Type 0} → (Event P → String) → ℕ → String → Event P → OutboxRow
row_of encode t topic event = record {
  created_at = t;
  event_id = event.event_id;
  topic = topic;
  payload = encode event;
}

module _ {C P E : Type 0} (env : Env C) (outbox : OutboxCall P → C) (unavailable : E) where
  -- NewEvent
  unfoldable pub new_event : String → String → String → P → Action C E (Event P)
  unfolding now new_uuid
  new_event event_type producer aggregate_id payload = do
    id ← new_uuid env
    at ← now env
    pure (record {
      event_id = id;
      event_type = event_type;
      schema_version = 1;
      occurred_at = at;
      producer = producer;
      aggregate_id = aggregate_id;
      correlation_id = "";
      causation_id = "";
      payload = payload;
    })

  unfoldable pub send_call : OutboxCall P → Action C E (Unit {0})
  unfolding call
  send_call c = call env unavailable (outbox c)

  -- PublishDurably: the row is written before the event goes out, and marked after.
  unfoldable pub publish_durably :
      (Event P → String) → String → String → Event P → Action C E (Unit {0})
  unfolding now send_call
  publish_durably encode service topic event = do
    t ← now env
    send_call (insert_event service (truncate_day t) (row_of encode t topic event))
    send_call (publish topic event.aggregate_id event)
    send_call (mark_published service (truncate_day t) t event.event_id)

  -- one row of a pass of RelayOutbox; a failure of any kind goes on with the next row
  unfoldable pub relay_decoded : Option (Event P) → String → ℕ → OutboxRow → Action C E (Unit {0})
  unfolding send_call
  relay_decoded none service bucket row = pure tt
  relay_decoded (some event) service bucket row = ignore (do
    send_call (publish row.topic event.aggregate_id event)
    send_call (mark_published service bucket row.created_at row.event_id))

  unfoldable pub relay_row :
      (String → Option (Event P)) → String → ℕ → OutboxRow → Action C E (Unit {0})
  unfolding relay_decoded
  relay_row decode service bucket row = relay_decoded (decode row.payload) service bucket row

  unfoldable pub relay_rows :
      (String → Option (Event P)) → String → ℕ → List OutboxRow → Action C E (Unit {0})
  unfolding relay_row
  relay_rows decode service bucket [] = pure tt
  relay_rows decode service bucket (row ∷ rows) =
      relay_row decode service bucket row >> relay_rows decode service bucket rows

  -- one tick of RelayOutbox: it reads the rows of the present day that are not published
  unfoldable pub relay_pass :
      (String → Option (Event P))
      → (History C → String → ℕ → List OutboxRow)
      → String
      → Action C E (Unit {0})
  unfolding now relay_rows
  relay_pass decode unpublished service = do
    t ← now env
    λ w. relay_rows decode service (truncate_day t) (unpublished w.calls service (truncate_day t)) w
