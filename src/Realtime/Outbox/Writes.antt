-- ===== src/Realtime/Outbox/Writes.antt =====
-- The calls that pkg/realtime/outbox.go makes, for the services that use it.
use nexus_chat.Base.{ℕ, String, ◌≡◌, arith}
use nexus_chat.Effects.{Env, World, ok}
use nexus_chat.Effects.Facts.{Makes, makes_rules}
use nexus_chat.Realtime.Outbox.{
  Event, OutboxCall, insert_event, publish, mark_published, new_event, publish_durably, row_of,
}

module _ {C P E : Type 0} (env : Env C) (outbox : OutboxCall P → C) (unavailable : E)
    {Q : C → Type 0} where
  pub Makes-new_event :
      (event_type producer aggregate_id : String) (payload : P)
      → Makes Q (new_event env outbox unavailable event_type producer aggregate_id payload)
  unfolding new_event
  Makes-new_event event_type producer aggregate_id payload = search makes_rules

  pub Makes-publish_durably :
      (encode : Event P → String) (service topic : String) (event : Event P)
      → ((s : String) (b t : ℕ) → Q (outbox (insert_event s b (row_of encode t topic event))))
      → Q (outbox (publish topic event.aggregate_id event))
      → ((s : String) (b t : ℕ) → Q (outbox (mark_published s b t event.event_id)))
      → Makes Q (publish_durably env outbox unavailable encode service topic event)
  unfolding publish_durably
  Makes-publish_durably encode service topic event i p m = search makes_rules depth 8

module _ {C P E : Type 0} (env : Env C) (outbox : OutboxCall P → C) (unavailable : E) where
  -- an event has the payload that it was made with
  pub payload-new_event :
      (event_type producer aggregate_id : String) (payload : P) (w : World C) (event : Event P)
      → (new_event env outbox unavailable event_type producer aggregate_id payload w).0 ≡ ok event
      → event.payload ≡ payload
  unfolding new_event
  payload-new_event event_type producer aggregate_id payload w event e = ground arith
