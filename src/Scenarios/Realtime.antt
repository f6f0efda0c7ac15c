-- ===== src/Scenarios/Realtime.antt =====
-- A hub with two sessions, and an event whose first publishing fails.
use nexus_chat.Base.{
  ℕ, ◌+◌, leb, if◌then◌else◌, String, ◌≡◌, ◌≢◌, refl, Bool, true, false, not, ◌&&◌, ◌||◌, ◌==◌, ltb,
  ◌≤◌, List, [], ◌∷◌, Option, some, arith, any, length, member, lookup, put, discard, erase,
}
use nexus_chat.Effects.{World, Env, History}
use nexus_chat.Effects.Facts.{Done, Adds, Extends}
use nexus_chat.Realtime.Hub.{
  Client, Hub, new_hub, add, remove, connect, disconnect, send, broadcast_to_channel, clients_of,
  has_room,
}
use nexus_chat.Realtime.Hub.Members.{IsValid, holds, holds-add-remove}
use nexus_chat.Realtime.Hub.Delivery.{after_offer, send-delivers, broadcast_to_channel-delivers}
use nexus_chat.Realtime.Hub.Sessions.{Reach, here, next, connects, Reach-IsValid, Reach-no_panic}
use nexus_chat.Realtime.Outbox.{
  Event, OutboxCall, insert_event, publish, mark_published, truncate_day, day, row_of,
  publish_durably, relay_pass,
}
use nexus_chat.Realtime.Outbox.Delivery.{pending, relay-publish_durably}

abbrev alice : Client
alice = record { user_id = 1; channel_id = 7; device = "phone"; capacity = 1 }

abbrev bob : Client
bob = record { user_id = 2; channel_id = 7; device = "web"; capacity = 2 }

abbrev memory : ℕ → Client
memory p = alice

abbrev one : Hub
one = connect 10 alice (new_hub memory)

abbrev two : Hub
two = connect 11 bob one

two-Reach : Reach (new_hub memory) two
unfolding connect add clients_of new_hub member lookup put discard
two-Reach = next (next here (connects (new_hub memory) 10 alice refl)) (connects one 11 bob refl)

two-IsValid : IsValid two
two-IsValid = Reach-IsValid memory two two-Reach

two-holds : holds two 10 ≡ true
unfolding connect add clients_of new_hub member lookup put discard erase
two-holds = refl

Reach-IsValid_example : IsValid two
Reach-IsValid_example = Reach-IsValid memory two two-Reach

holds-add-remove_example :
    (holds (add 12 two) 10 ≡ (12 == 10 || holds two 10))
    × (holds (remove 12 two) 10 ≡ (not (12 == 10) && holds two 10))
holds-add-remove_example = holds-add-remove 12 10 two

send-delivers_example :
    (f : ℕ → List String) × (send 1 "hi" two
      ≡ some (record two { queue = f }, any (has_room two) (clients_of two 1)))
    × ((q : ℕ) → f q ≡ after_offer (λ p. member p (clients_of two 1)) "hi" two q)
send-delivers_example = send-delivers 1 "hi" two two-IsValid

broadcast_to_channel-delivers_example :
    (f : ℕ → List String) × (broadcast_to_channel 7 "hi" two ≡ some (record two { queue = f }))
    × ((q : ℕ)
        → f q ≡ after_offer (λ p. holds two p && ((two.client p).channel_id == 7)) "hi" two q)
broadcast_to_channel-delivers_example = broadcast_to_channel-delivers 7 "hi" two two-IsValid

Reach-no_panic_example :
    ((r : Hub × Bool) × (send 2 "hi" two ≡ some r))
    × ((h' : Hub) × (broadcast_to_channel 7 "hi" two ≡ some h'))
    × ((h' : Hub) × (disconnect 10 two ≡ some h') × (holds h' 10 ≡ false))
Reach-no_panic_example = Reach-no_panic memory two 2 7 10 "hi" two-Reach two-holds

-- Kafka is down for the first call to it and up afterwards.
abbrev flaky : Env (OutboxCall String)
flaky = record {
  accepts = λ h c. elim c [
    | insert_event s b r ↦ true
    | publish topic key e ↦ ltb 1 (length h)
    | mark_published s b t i ↦ true
  ];
  clock = λ n. n;
  uuid = λ n. "id";
}

abbrev start : World (OutboxCall String)
start = record { calls = []; readings = 5; ids = 0 }

abbrev event : Event String
event = record {
  event_id = "e1";
  event_type = "workspace.item.created";
  schema_version = 1;
  occurred_at = 5;
  producer = "workspace-service";
  aggregate_id = "i1";
  correlation_id = "";
  causation_id = "";
  payload = "buy milk";
}

abbrev encode : Event String → String
encode e = e.payload

abbrev decode : String → Option (Event String)
decode s = some event

longer :
    {P : OutboxCall String → Type 0} {h h' : History (OutboxCall String)}
    → Adds P h h'
    → length h ≤ length h'
longer Adds.same = omega arith
longer (Adds.more p e) = omega (arith, longer e)

abbrev raised : World (OutboxCall String)
raised = (publish_durably flaky (λ c. c) tt encode "workspace" "events" event start).1

up_again :
    (h : History (OutboxCall String))
    → Extends raised.calls h
    → flaky.accepts h (publish "events" "i1" event) ≡ true
unfolding publish_durably
up_again h e = ground (arith, longer e)

relay-publish_durably_example :
    Done
      (publish "events" "i1" event)
      (relay_pass flaky (λ c. c) tt decode pending "workspace" raised).1.calls
unfolding publish_durably
relay-publish_durably_example =
    relay-publish_durably flaky tt encode decode pending "workspace" "events" event start refl
      (λ h s b row m. m) refl refl up_again

-- Kafka is down, and midnight passes before the next reading of the clock.
abbrev midnight : Env (OutboxCall String)
midnight = record flaky {
  accepts = λ h c. elim c [
    | insert_event s b r ↦ true
    | publish topic key e ↦ false
    | mark_published s b t i ↦ true
  ];
  clock = λ n. if leb n 5 then n else day + n;
}

abbrev stranded : World (OutboxCall String)
stranded = (publish_durably midnight (λ c. c) tt encode "workspace" "events" event start).1

next_day : truncate_day (midnight.clock stranded.readings) ≢ 0
unfolding publish_durably
next_day e = absurd (omega (arith, e))

-- the row that stays
stranded-pending : pending stranded.calls "workspace" 0 ≡ row_of encode 5 "events" event ∷ []
unfolding pending publish_durably
stranded-pending = refl
