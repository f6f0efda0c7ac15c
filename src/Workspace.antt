-- ===== src/Workspace.antt =====
-- pkg/workspace/service.go: items, checklists and collections of a channel.
--
-- The statements against Cassandra and Redis, the events and the broadcasts are the constructors of
-- `Call`; `Queries` holds what the SELECT statements answer after the calls so far. The body of a
-- request is `none` where it does not parse.
pub mod Items
pub mod Lists
use nexus_chat.Base.{
  ℕ, String, Bool, List, Option, ◌&&◌, ◌||◌, not, ◌==◌, str_eq, if◌then◌else◌, some, none,
}
use nexus_chat.Effects.{History}
use nexus_chat.Realtime.Outbox.{OutboxCall}

pub record Item : Type 0 where
  pub id : String
  pub channel_id : ℕ
  pub owner_id : ℕ
  pub kind : String
  pub title : String
  pub content : String
  pub status : String
  pub priority : String
  pub assignees : List ℕ
  pub tags : List String
  pub message_id : ℕ
  pub due_at : Option ℕ
  pub created_at : ℕ
  pub updated_at : ℕ
  pub archived_at : Option ℕ

-- realtime.Identity of pkg/realtime/auth.go
pub record Identity : Type 0 where
  pub user_id : ℕ
  pub channel_id : ℕ

pub data Call : Type 0 where
  insert_by_channel : Item → Call
  insert_by_id : Item → Call
  delete_by_id : String → Call
  delete_by_channel : ℕ → ℕ → String → Call
  cache_item : Item → Call
  uncache_item : String → Call
  outbox : OutboxCall Item → Call
  broadcast : ℕ → String → Item → Call
  insert_checklist : String → String → String → Bool → ℕ → Call
  update_checklist : String → String → String → Bool → ℕ → Call
  delete_checklist : String → String → Call
  insert_collection : ℕ → String → String → ℕ → ℕ → Call
  update_collection : ℕ → String → String → ℕ → Call
  delete_collection : ℕ → String → Call

pub data Error : Type 0 where
  bad_kind unavailable access_denied : Error

-- one row, gocql.ErrNotFound, or another error
pub data Answer (A : Type 0) : Type 0 where
  row : A → Answer A
  not_found failed : Answer A

pub record Queries : Type 0 where
  pub item_by_id : History Call → String → Answer Item
  pub member : History Call → ℕ → ℕ → Answer ℕ
  pub checklist : History Call → String → String → Answer (String × Bool)

pub data Body : Type 0 where
  nothing : Body
  message : String → Body
  item_body : Item → Body
  checklist_body : String → String → String → Bool → Body
  collection_body : String → String → Body

pub record Response : Type 0 where
  pub code : ℕ
  pub body : Body

abbrev pub respond : ℕ → Body → Response
respond code body = record { code = code; body = body }

abbrev pub or_default : String → String → String
or_default s d = if str_eq s "" then d else s
