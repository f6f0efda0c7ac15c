-- ===== src/Scenarios/Chat.antt =====
-- A message of another user, a refused text, and a direct channel that cannot be filled.
use nexus_chat.Base.{◌≡◌, refl, inl, Bool, true, false, [], ◌∷◌, none}
use nexus_chat.Effects.{World, Env, History}
use nexus_chat.Effects.Facts.{Makes}
use nexus_chat.Chat.{
  value, missing, Message, EventKind, Channel, Room, Role, Call, delete_channel, add_user,
  unavailable, refused, Queries,
}
use nexus_chat.Chat.Messages.{broadcast_text}
use nexus_chat.Chat.Messages.Changes.{IsNextId, broadcast_text-refused}
use nexus_chat.Chat.Channels.{reserve, after_reservation, fill, commit}
use nexus_chat.Chat.Channels.Rollback.{reserve-rollback}

abbrev hello : Message
hello = record {
  message_id = 5;
  event = EventKind.text;
  channel_id = 7;
  user_id = 1;
  payload = "hello";
  time = 3;
  edited_at = 0;
  deleted_for_all = false;
  deleted_by = 0;
  reactions = [];
  is_pinned = false;
  parent_id = 0;
  reply_preview = none;
}

abbrev direct : Channel
direct = record { id = 8; access_token = "t" }

abbrev room : Room
room = record {
  channel_id = 9;
  name = "room";
  avatar = "";
  owner_id = 1;
  invite_code = "C";
  member_count = 1;
  role = Role.owner;
  created_at = 0;
  updated_at = 0;
}

abbrev queries : Queries
queries = record {
  members = λ h c. value (1 ∷ 2 ∷ []);
  is_member = λ h c u. value true;
  online = λ h c. value (1 ∷ []);
  kind = λ h c. value "direct";
  friends = λ h a b. value true;
  blocked = λ h a b. value false;
  user_exists = λ h u. value true;
  message = λ h c m. value hello;
  moderation = λ h m. refused;
  fresh_id = λ h. 8;
  new_channel = λ h id. direct;
  already_reserved = λ h a b. false;
  direct_channel = λ h a b. missing;
  room = λ h c. value room;
  room_of_code = λ h c. value room;
  room_after = λ h r. r;
  ticket = λ h. "t";
}

-- no user can be added to a channel
abbrev no_members : Env Call
no_members = record {
  accepts = λ h c. elim c [ add_user c u ↦ false | _ ↦ true ];
  clock = λ n. n;
  uuid = λ n. "";
}

abbrev start : World Call
start = record { calls = []; readings = 0; ids = 0 }

broadcast_text-refused_example :
    Makes IsNextId (broadcast_text no_members queries (λ l. "") (λ n. "") (λ s. s) 7 1 "spam" 0)
broadcast_text-refused_example =
    broadcast_text-refused no_members queries (λ l. "") (λ n. "") (λ s. s) 7 1 "spam" 0 refused
      (λ h m. refl) (inl refl)

reserve-rollback_example :
    (b : Bool) × ((h : History Call) × ((reserve no_members queries 1 2 direct start).1.calls
        ≡ (delete_channel 8, b) ∷ h))
unfolding reserve after_reservation fill commit
reserve-rollback_example =
    reserve-rollback no_members queries 1 2 direct start unavailable refl refl
