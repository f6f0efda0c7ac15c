-- ===== src/Scenarios/Storage.antt =====
-- A database whose statements all succeed and that one instance of the chat service uses.
use nexus_chat.Base.{
  ◌≡◌, refl, ◌≢◌, ℕ, ◌≤◌, String, [], ◌∷◌, none, some, trim_space, trim_left, trim_right,
  is_empty_text, discard,
}
use nexus_chat.Chat.{Message, Room, unset}
use nexus_chat.Effects.{ok}
use nexus_chat.Cassandra.{Database, Session, done, statement}
use nexus_chat.Storage.{
  Tables, Error, Ticket, unavailable, blank_message, set_at, set_pair, set_text, find,
}
use nexus_chat.Storage.Messages.{
  mark_message_read, seed_marker, after_seed, raise_marker, get_last_read_message_id,
}
use nexus_chat.Storage.Messages.Markers.{here, next, marks, get_last_read-mark}
use nexus_chat.Storage.Channels.{
  take_ticket, consume_web_socket_ticket, create_direct_channel, get_direct_channel, assign_role,
  add_once,
}
use nexus_chat.Storage.Channels.Tickets as Tickets
use nexus_chat.Storage.Channels.Direct as Direct
use nexus_chat.Storage.Rooms.{
  create_room, store_room, add_room_member, list_room, store_count, count_channel_members,
  count_users, get_room_by_invite_code, remove_room_member, drop_each, drop_if, drop_time,
  channel_at, times, recount,
}
use nexus_chat.Storage.Rooms.Invites.{get_room_by_invite_code-create}
use nexus_chat.Storage.Marks.{
  pin_message, unpin_message, unpin_first, pin_at, pin_times, drop_pin, search_messages,
  list_media_messages, is_found, is_media,
}
use nexus_chat.Storage.Marks.Searches.{
  filter, first, search_messages-filter, is_found-Decides, is_media-Decides,
}

abbrev session : Session Tables Error
session = record { unavailable = unavailable; works = λ n. done; others = λ n t. t }

abbrev sent : ℕ → String → Message
sent i body = record (blank_message 1 i) { user_id = 7; payload = body }

abbrev used : Tables
used = record {
  counters = λ c. none;
  messages = λ c. sent 5 "b" ∷ sent 3 "a" ∷ [];
  markers = λ c u. none;
  reactions = λ c i. [];
  pins = λ c. [];
  members = λ c. [];
  kinds = λ c. none;
  roles = λ c u. none;
  rooms = λ c. none;
  invites = λ s. none;
  rooms_by_user = λ u. [];
  direct_by_id = λ c. none;
  direct_by_pair = λ a b. none;
  tickets = λ h. some (record { user_id = 7; channel_id = 1; access_token = "t" });
}

abbrev opened : Database Tables
opened = record { tables = used; statements = 0 }

abbrev marked : Database Tables
marked = (mark_message_read session 1 7 5 opened).1

-- the older message is marked after the newer one
abbrev marked_back : Database Tables
marked_back = (mark_message_read session 1 7 3 marked).1

get_last_read-mark_example :
    (n : ℕ) × (((get_last_read_message_id session 1 7 marked_back).0 ≡ ok n) × (5 ≤ n))
unfolding mark_message_read seed_marker after_seed raise_marker statement find set_pair
get_last_read-mark_example =
    get_last_read-mark session 1 7 5 (λ i n t h. h) opened marked marked_back refl
      (next here (marks 1 7 3)) refl

abbrev ticket : Ticket
ticket = record { user_id = 7; channel_id = 1; access_token = "t" }

abbrev taken : Database Tables
taken = (consume_web_socket_ticket session (λ s. s) "x" opened).1

consume-again_example :
    (consume_web_socket_ticket session (λ s. s) "x" taken ≢ (ok ticket, taken))
    × (take_ticket session (λ s. s) "x" ticket taken ≢ (ok ticket, taken))
unfolding consume_web_socket_ticket take_ticket statement set_text trim_space trim_left trim_right
    is_empty_text
consume-again_example =
    Tickets.consume-again session (λ s. s) "x" opened taken taken taken ticket ticket ticket
      (λ n t h. h) refl Tickets.here

abbrev made : Database Tables
made = (create_direct_channel session 9 4 2 opened).1

get_direct_channel-create_example :
    ((get_direct_channel session (λ c. some "token") 4 2 made).0
      ≡ ok (record { id = 9; access_token = "token" }))
    × ((get_direct_channel session (λ c. some "token") 2 4 made).0
        ≡ ok (record { id = 9; access_token = "token" }))
unfolding create_direct_channel statement set_pair set_at
get_direct_channel-create_example =
    Direct.get_direct_channel-create session (λ c. some "token") 9 4 2 "token" opened made made
      (λ n t h. h) refl Direct.here refl refl

abbrev lounge : Room
lounge = record {
  channel_id = 8;
  name = "Lounge";
  avatar = "";
  owner_id = 7;
  invite_code = "ABCD";
  member_count = 0;
  role = unset;
  created_at = 0;
  updated_at = 0;
}

abbrev stored : Room
stored = record lounge { member_count = 1; created_at = 10; updated_at = 11 }

abbrev with_room : Database Tables
with_room = (create_room session (λ i. none) 10 11 lounge opened).1

get_room_by_invite_code-create_example :
    (x : Room) × (((get_room_by_invite_code session "ABCD" with_room).0 ≡ ok x)
      × ((x.channel_id ≡ 8) × ((x.name ≡ "Lounge") × (x.owner_id ≡ 7))))
unfolding create_room store_room add_room_member list_room store_count count_channel_members
    count_users assign_role statement set_at set_pair set_text is_empty_text add_once
get_room_by_invite_code-create_example =
    get_room_by_invite_code-create session "ABCD" lounge (λ n t h. h) (λ n t h. h) (λ i. none) 10 11
      opened with_room stored refl refl refl refl

search_messages-filter_example :
    ((search_messages session (λ s. s) 1 "a" 1 opened).0
      ≡ ok (first 1 (filter (is_found (λ s. s) "a") (used.messages 1))))
    × ((list_media_messages session (λ s. s) (λ s. none) 1 "all" 1 opened).0
        ≡ ok (first 1 (filter (is_media (λ s. s) (λ s. none) "all") (used.messages 1))))
search_messages-filter_example =
    search_messages-filter session (λ s. s) 1 1 (λ s. none) "a" "all" (is_found (λ s. s) "a")
      (is_media (λ s. s) (λ s. none) "all") opened (is_found-Decides (λ s. s) "a")
      (is_media-Decides (λ s. s) (λ s. none) "all") refl

-- Two rooms that one user joined in one millisecond: leaving the one with the greater number takes the
-- other off the user's list too, and leaving the other keeps both.
abbrev joined : Database Tables
joined = record {
  tables = record used {
    rooms_by_user = λ u.
        record lounge { channel_id = 9; updated_at = 5 }
        ∷ record lounge { channel_id = 8; updated_at = 5 }
        ∷ [];
  };
  statements = 0;
}

left_greater : (remove_room_member session 6 9 7 joined).1.tables.rooms_by_user 7 ≡ []
unfolding remove_room_member drop_each drop_if drop_time channel_at times recount
    count_channel_members statement set_at discard set_pair
left_greater = refl

left_other :
    (remove_room_member session 6 8 7 joined).1.tables.rooms_by_user 7
    ≡ joined.tables.rooms_by_user 7
unfolding remove_room_member drop_each drop_if drop_time channel_at times recount
    count_channel_members statement set_at discard set_pair
left_other = refl

-- A message that is pinned twice and unpinned once is pinned still.
abbrev pinned : Database Tables
pinned = (pin_message session 2 1 5 7 (pin_message session 1 1 5 7 opened).1).1

still_pinned :
    (unpin_message session 1 5 pinned).1.tables.pins 1
    ≡ record { pinned_at = 1; message_id = 5; pinned_by = 7 } ∷ []
unfolding unpin_message unpin_first pin_message pin_at pin_times drop_pin statement set_at
still_pinned = refl
