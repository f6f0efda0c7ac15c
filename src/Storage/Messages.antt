-- ===== src/Storage/Messages.antt =====
-- pkg/chat/repo.go: MessageRepoImpl, its messages, their number and the read markers.
pub mod Markers
use nexus_chat.Base.{
  ℕ, suc, ◌+◌, String, Bool, true, false, not, ◌&&◌, Option, none, some, List, [], ◌∷◌, map, ltb,
  leb, ◌==◌, if◌then◌else◌,
}
use nexus_chat.Chat.{Message, ReplyPreview, text, file}
use nexus_chat.Effects.{Result, ok, err}
use nexus_chat.Stateful.{Op, return, throw, throw_if, ◌>>=◌, ◌>>◌, lift}
use nexus_chat.Cassandra.{Database, Session, statement, write, read, write_if, attempt}
use nexus_chat.Storage.{
  Tables, Error, not_found, message_not_found, exceeds_limit, bad_page, Chats, set_at, set_pair,
  require, upsert, find,
}

-- gocql's pages: the rows of the page that starts at a state, and the state of the next; and the
-- decoding of the state from the text that clients send
pub record Driver : Type 0 where
  pub page : ℕ → String → List Message → List Message × String
  pub decode_state : String → Option String
  pub encode_state : String → String

pub record Settings : Type 0 where
  pub max_messages : ℕ
  pub pagination : ℕ

abbrev pub or_zero : Option ℕ → ℕ
or_zero none = 0
or_zero (some n) = n

abbrev pub count_message : ℕ → Tables → Tables
count_message c t = record t {
  counters = set_at c (some (suc (or_zero (t.counters c)))) t.counters;
}

-- the columns that InsertMessage writes
abbrev pub inserted : Message → Message → Message
inserted m old = record old {
  event = m.event;
  user_id = m.user_id;
  payload = m.payload;
  time = m.time;
  parent_id = m.parent_id;
}

abbrev pub put_message : Message → Tables → Tables
put_message m t = record t {
  messages =
      set_at m.channel_id (upsert m.channel_id m.message_id (inserted m) (t.messages m.channel_id))
        t.messages;
}

-- the marker of a user in a channel
abbrev pub set_marker : ℕ → ℕ → ℕ → Tables → Tables
set_marker c u i t = record t { markers = set_pair c u (some i) t.markers }

abbrev pub is_missing : Option ℕ → Bool
is_missing none = true
is_missing (some n) = false

abbrev pub is_below : ℕ → Option ℕ → Bool
is_below i none = false
is_below i (some n) = ltb n i

-- GetMessage does not select parent_id
abbrev pub without_parent : Message → Message
without_parent m = record m { parent_id = 0 }

abbrev pub preview : Message → Option Message → Message
preview m none = m
preview m (some parent) = record m {
  reply_preview = some (record {
    message_id = parent.message_id;
    user_id = parent.user_id;
    payload = parent.payload;
  });
}

abbrev pub decoded : Option String → Chats String
decoded none = throw bad_page
decoded (some state) = return state

abbrev pub update_message : ℕ → ℕ → (Message → Message) → Tables → Tables
update_message c i f t = record t { messages = set_at c (upsert c i f (t.messages c)) t.messages }

module _ (session : Session Tables Error) where
  unfoldable pub insert_counted : Settings → Message → ℕ → Chats (Unit {0})
  insert_counted limits m n =
      throw_if (leb limits.max_messages n) exceeds_limit
      >> (write session (put_message m) >> write session (count_message m.channel_id))

  unfoldable pub insert_message : Settings → Message → Chats (Unit {0})
  insert_message limits m =
      read session (λ t. or_zero (t.counters m.channel_id)) >>= insert_counted limits m

  unfoldable pub seed_marker : ℕ → ℕ → ℕ → Chats Bool
  seed_marker c u i = write_if session (λ t. is_missing (t.markers c u)) (set_marker c u i)

  unfoldable pub raise_marker : ℕ → ℕ → ℕ → Chats Bool
  raise_marker c u i = write_if session (λ t. is_below i (t.markers c u)) (set_marker c u i)

  unfoldable pub after_seed : ℕ → ℕ → ℕ → Bool → Chats (Unit {0})
  after_seed c u i true = return tt
  after_seed c u i false = raise_marker c u i >>= λ applied. return tt

  unfoldable pub mark_message_read : ℕ → ℕ → ℕ → Chats (Unit {0})
  mark_message_read c u i = read session (λ t. find i (t.messages c)) >>= λ m.
      require not_found m >>= λ existing. seed_marker c u i >>= after_seed c u i

  unfoldable pub get_last_read_message_id : ℕ → ℕ → Chats ℕ
  get_last_read_message_id c u = read session (λ t. or_zero (t.markers c u))

  unfoldable pub get_message : ℕ → ℕ → Chats Message
  get_message c i = read session (λ t. find i (t.messages c)) >>= λ m.
      require message_not_found m >>= λ found. return (without_parent found)

  unfoldable pub with_preview : ℕ → Message → Chats Message
  with_preview c m =
      if m.parent_id == 0
      then return m
      else attempt (get_message c m.parent_id) >>= λ parent. return (preview m parent)

  unfoldable pub with_previews : ℕ → List Message → Chats (List Message)
  with_previews c [] = return []
  with_previews c (m ∷ ms) =
      with_preview c m >>= λ shown. with_previews c ms >>= λ rest. return (shown ∷ rest)

  unfoldable pub list_messages : Driver → Settings → ℕ → String → Chats (List Message × String)
  list_messages driver limits c page = decoded (driver.decode_state page) >>= λ state.
      read session (λ t. driver.page limits.pagination state (t.messages c)) >>= λ rows.
      with_previews c rows.0 >>= λ shown. return (shown, driver.encode_state rows.1)

  unfoldable pub edit_message : ℕ → ℕ → String → ℕ → Chats (Unit {0})
  edit_message c i payload at =
      write session (update_message c i (λ m. record m { payload = payload; edited_at = at }))

  unfoldable pub delete_message_for_all : ℕ → ℕ → ℕ → Chats (Unit {0})
  delete_message_for_all c i by =
      write session (
        update_message c i
          (λ m. record m { deleted_for_all = true; deleted_by = by; payload = "" }))
