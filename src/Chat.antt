-- ===== src/Chat.antt =====
-- pkg/chat/service.go: messages, direct channels and rooms.
--
-- What the service changes through its repositories, and the calls of other services, are the
-- constructors of `Call`; `Queries` holds what they answer after the calls so far. `Found` is an
-- answer: a value, gocql.ErrNotFound, or another error. An error that the code wraps keeps its
-- kind here, without the text around it. A channel stands without the room that OpenRoom puts
-- into it.
pub mod Messages
pub mod Channels
pub mod Rooms
pub mod Sockets
use nexus_chat.Base.{ℕ, String, Bool, List, Option}
use nexus_chat.Effects.{History}

pub data Found (A : Type 0) : Type 0 where
  value : A → Found A
  missing failed : Found A

pub record ReplyPreview : Type 0 where
  pub message_id : ℕ
  pub user_id : ℕ
  pub payload : String

pub record ReactionSummary : Type 0 where
  pub emoji : String
  pub count : ℕ
  pub users : List String

pub data EventKind : Type 0 where
  text action file edit delete reaction pin : EventKind

pub record Message : Type 0 where
  pub message_id : ℕ
  pub event : EventKind
  pub channel_id : ℕ
  pub user_id : ℕ
  pub payload : String
  pub time : ℕ
  pub edited_at : ℕ
  pub deleted_for_all : Bool
  pub deleted_by : ℕ
  pub reactions : List ReactionSummary
  pub is_pinned : Bool
  pub parent_id : ℕ
  pub reply_preview : Option ReplyPreview

pub record Channel : Type 0 where
  pub id : ℕ
  pub access_token : String

pub data Role : Type 0 where
  unset owner admin member : Role

pub record Room : Type 0 where
  pub channel_id : ℕ
  pub name : String
  pub avatar : String
  pub owner_id : ℕ
  pub invite_code : String
  pub member_count : ℕ
  pub role : Role
  pub created_at : ℕ
  pub updated_at : ℕ

pub data Call : Type 0 where
  insert_message : Message → Call
  publish_message : Message → Call
  mark_read : ℕ → ℕ → ℕ → Call
  -- channel, message, new text, time
  edit_message : ℕ → ℕ → String → ℕ → Call
  delete_message : ℕ → ℕ → ℕ → Call
  add_reaction : ℕ → ℕ → ℕ → String → Call
  remove_reaction : ℕ → ℕ → ℕ → String → Call
  pin_message : ℕ → ℕ → ℕ → Call
  unpin_message : ℕ → ℕ → Call
  next_id : Call
  create_channel : ℕ → Call
  delete_channel : ℕ → Call
  set_kind : ℕ → String → Call
  -- the reservation of the pair of users
  reserve_direct : ℕ → ℕ → ℕ → Call
  add_user : ℕ → ℕ → Call
  -- the notification that invites a user to a channel
  invite : ℕ → ℕ → ℕ → Call
  create_room : Room → Call
  add_member : Room → ℕ → Role → Call
  remove_member : ℕ → ℕ → Call
  set_avatar : ℕ → String → Call
  issue_ticket : ℕ → ℕ → String → Call

pub data Error : Type 0 where
  unavailable not_found unauthorized requires_friend not_owner already_deleted blocked_message :
      Error
  direct_exists no_channel_or_user bad_request too_many_members : Error

-- the answer of the safety service on a message
pub data Moderation : Type 0 where
  no_service allowed warned refused unreachable : Moderation

pub record Queries : Type 0 where
  pub members : History Call → ℕ → Found (List ℕ)
  pub is_member : History Call → ℕ → ℕ → Found Bool
  pub online : History Call → ℕ → Found (List ℕ)
  pub kind : History Call → ℕ → Found String
  pub friends : History Call → ℕ → ℕ → Found Bool
  pub blocked : History Call → ℕ → ℕ → Found Bool
  pub user_exists : History Call → ℕ → Found Bool
  pub message : History Call → ℕ → ℕ → Found Message
  pub moderation : History Call → Message → Moderation
  -- the identifier that NextID answers
  pub fresh_id : History Call → ℕ
  pub new_channel : History Call → ℕ → Channel
  -- the reservation failed because the pair has a channel
  pub already_reserved : History Call → ℕ → ℕ → Bool
  pub direct_channel : History Call → ℕ → ℕ → Found Channel
  pub room : History Call → ℕ → Found Room
  pub room_of_code : History Call → String → Found Room
  -- the room as the repository leaves it after it stored the room or a member
  pub room_after : History Call → Room → Room
  pub ticket : History Call → String
