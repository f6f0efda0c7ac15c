-- ===== src/Storage/Rooms.antt =====
-- pkg/chat/repo.go: ChannelRepoImpl, its rooms, their members and their invite codes.
--
-- Rows of chat_rooms_by_user stand newest first, and those of one time by their channel, the greatest
-- first. `draw` is
-- what rand.Int gives below a bound, with the number of the draw.
pub mod Codes
pub mod Invites
use Prim.Native.Char.{Char}
use Prim.Native.String.{String}
use nexus_chat.Base.{
  ℕ, zero, suc, Bool, true, false, not, ◌&&◌, ◌||◌, Option, none, some, List, [], ◌∷◌, ltb, ◌==◌,
  if◌then◌else◌, discard, is_empty_text, member,
}
use nexus_chat.Chat.{Room, Role, owner, unset}
use nexus_chat.Effects.{Result, ok, err}
use nexus_chat.Stateful.{Op, return, throw, throw_if, ◌>>=◌, ◌>>◌}
use nexus_chat.Cassandra.{Database, Session, statement, write, read, ignore, attempt}
use nexus_chat.Storage.{
  Tables, Error, not_found, random_failed, Chats, RoomRow, set_at, set_text, require,
}
use nexus_chat.Storage.Channels.{put_member, put_role, assign_role}

abbrev pub alphabet : String
alphabet = "ABCDEFGHJKLMNPQRSTUVWXYZ23456789"

-- alphabet[n], where Go panics past the end
unfoldable pub char_at : ℕ → String → Option Char
char_at n String.[] = none
char_at zero (String.◌∷◌ c s) = some c
char_at (suc n) (String.◌∷◌ c s) = char_at n s

abbrev pub joined : Option Char → Option String → Option String
joined (some c) (some s) = some (String.◌∷◌ c s)
joined _ _ = none

abbrev pub add_char : Option ℕ → Option String → Option String
add_char none rest = none
add_char (some n) rest = joined (char_at n alphabet) rest

-- the loop of newInviteCode, with the characters that are left
unfoldable pub code_chars : (ℕ → Option ℕ) → (left i : ℕ) → Option String
code_chars draw zero i = some ""
code_chars draw (suc left) i = add_char (draw i) (code_chars draw left (suc i))

-- newInviteCode
unfoldable pub new_invite_code : (ℕ → Option ℕ) → Option String
new_invite_code draw = code_chars draw 8 0

-- the rows of channels that are not the placeholder of CreateChannel
unfoldable pub count_users : List ℕ → ℕ
count_users [] = 0
count_users (u ∷ us) = let rest = count_users us in if u == 0 then rest else suc rest

abbrev pub put_room : RoomRow → Tables → Tables
put_room r t = record t { rooms = set_at r.room.channel_id (some r) t.rooms }

abbrev pub put_invite : String → ℕ → Tables → Tables
put_invite code c t = record t { invites = set_text code (some c) t.invites }

-- UPDATE of some columns, which makes the row if it is not there
abbrev pub blank_room : ℕ → RoomRow
blank_room c = record {
  room = record {
    channel_id = c;
    name = "";
    avatar = "";
    owner_id = 0;
    invite_code = "";
    member_count = 0;
    role = unset;
    created_at = 0;
    updated_at = 0;
  };
  archived = false;
}

abbrev pub or_blank_room : ℕ → Option RoomRow → RoomRow
or_blank_room c none = blank_room c
or_blank_room c (some r) = r

abbrev pub update_room : ℕ → (Room → Room) → Tables → Tables
update_room c f t =
    let r = or_blank_room c (t.rooms c) in
    record t { rooms = set_at c (some (record r { room = f r.room })) t.rooms }

abbrev pub is_before : Room → Room → Bool
is_before a b =
    ltb b.updated_at a.updated_at || a.updated_at == b.updated_at && ltb b.channel_id a.channel_id

abbrev pub same_row : Room → Room → Bool
same_row a b = a.updated_at == b.updated_at && a.channel_id == b.channel_id

unfoldable pub insert_row : Room → List Room → List Room
insert_row r [] = r ∷ []
insert_row r (x ∷ xs) =
    let rest = insert_row r xs in
    if same_row r x then r ∷ xs else (if is_before r x then r ∷ x ∷ xs else x ∷ rest)

-- DELETE of all rows of a time
unfoldable pub drop_time : ℕ → List Room → List Room
drop_time at [] = []
drop_time at (r ∷ rs) = let rest = drop_time at rs in if r.updated_at == at then rest else r ∷ rest

-- the channel of the first row of a time
unfoldable pub channel_at : ℕ → List Room → Option ℕ
channel_at at [] = none
channel_at at (r ∷ rs) =
    let rest = channel_at at rs in if r.updated_at == at then some r.channel_id else rest

unfoldable pub times : List Room → List ℕ
times [] = []
times (r ∷ rs) = r.updated_at ∷ times rs

-- LIMIT
unfoldable pub first_rows : ℕ → List Room → List Room
first_rows zero rs = []
first_rows (suc n) [] = []
first_rows (suc n) (r ∷ rs) = r ∷ first_rows n rs

-- the columns of chat_rooms_by_user
abbrev pub user_row : (now : ℕ) → Role → Room → Room
user_row now role room = record room { avatar = ""; role = role; created_at = 0; updated_at = now }

abbrev pub put_user_room : ℕ → Room → Tables → Tables
put_user_room u r t = record t {
  rooms_by_user = set_at u (insert_row r (t.rooms_by_user u)) t.rooms_by_user;
}

abbrev pub open_row : Option RoomRow → Chats Room
open_row none = throw not_found
open_row (some r) = if r.archived then throw not_found else return r.room

-- the room that CreateRoom stores
abbrev pub prepared : (now : ℕ) → String → Room → Room
prepared now code room = record room {
  created_at = now;
  updated_at = now;
  member_count = if room.member_count == 0 then 1 else room.member_count;
  invite_code = code;
}

abbrev pub code_for : (ℕ → Option ℕ) → String → Option String
code_for draw code = if is_empty_text code then new_invite_code draw else some code

abbrev pub drop_rows : ℕ → ℕ → Tables → Tables
drop_rows u at t = record t {
  rooms_by_user = set_at u (drop_time at (t.rooms_by_user u)) t.rooms_by_user;
}

-- the row of the list with what the room's own row says, if that was read
abbrev pub latest : Room → Option Room → Room
latest row none = row
latest row (some r) = record r { role = row.role }

module _ (session : Session Tables Error) where
  unfoldable pub count_channel_members : ℕ → Chats ℕ
  count_channel_members c = read session (λ t. count_users (t.members c))

  unfoldable pub get_room : ℕ → Chats Room
  get_room c = read session (λ t. t.rooms c) >>= open_row

  unfoldable pub get_room_by_invite_code : String → Chats Room
  get_room_by_invite_code code =
      read session (λ t. t.invites code) >>= λ row. require not_found row >>= get_room

  unfoldable pub update_room_avatar : ℕ → String → (now : ℕ) → Chats (Unit {0})
  update_room_avatar c avatar now =
      write session (update_room c (λ r. record r { avatar = avatar; updated_at = now }))

  -- the number of members, stored with the room if it was read
  unfoldable pub store_count : (now : ℕ) → Room → Option ℕ → Chats Room
  store_count now room none = return room
  store_count now room (some n) =
      ignore (
        write session
          (update_room room.channel_id (λ r. record r { member_count = n; updated_at = now })))
      >> return (record room { member_count = n; updated_at = now })

  unfoldable pub list_room : (now : ℕ) → ℕ → Role → Room → Chats Room
  list_room now u role counted =
      write session (put_user_room u (user_row now role counted)) >> return counted

  -- AddRoomMember, with the room as it leaves it
  unfoldable pub add_room_member : (now : ℕ) → Room → ℕ → Role → Chats Room
  add_room_member now room u role = write session (put_member room.channel_id u) >>= λ added.
      assign_role session room.channel_id u role >>= λ assigned.
      attempt (count_channel_members room.channel_id) >>= λ n.
      store_count now room n >>= list_room now u role

  unfoldable pub store_room : (now : ℕ) → Room → Chats Room
  store_room now room =
      write session (put_room (record { room = record room { role = unset }; archived = false }))
      >>= λ stored. write session (put_invite room.invite_code room.channel_id) >>= λ invited.
          add_room_member now room room.owner_id owner

  unfoldable pub create_room : (ℕ → Option ℕ) → (now later : ℕ) → Room → Chats Room
  create_room draw now later room =
      require random_failed (code_for draw room.invite_code) >>= λ code.
      store_room later (prepared now code room)

  -- what RemoveRoomMember does when it has read the channel of a time, or failed to
  unfoldable pub drop_if : ℕ → ℕ → ℕ → Option (Option ℕ) → Chats (Unit {0})
  drop_if c u at (some (some k)) =
      if k == c then ignore (write session (drop_rows u at)) else return tt
  drop_if c u at _ = return tt

  unfoldable pub drop_each : ℕ → ℕ → List ℕ → Chats (Unit {0})
  drop_each c u [] = return tt
  drop_each c u (at ∷ ats) =
      attempt (read session (λ t. channel_at at (t.rooms_by_user u)))
      >>= drop_if c u at
      >> drop_each c u ats

  unfoldable pub recount : ℕ → (now : ℕ) → Option ℕ → Chats (Unit {0})
  recount c now none = return tt
  recount c now (some n) =
      ignore (write session (update_room c (λ r. record r { member_count = n; updated_at = now })))

  unfoldable pub remove_room_member : (now : ℕ) → ℕ → ℕ → Chats (Unit {0})
  remove_room_member now c u =
      read session (λ t. times (t.rooms_by_user u))
      >>= drop_each c u
      >> write session (λ t. record t { members = set_at c (discard u (t.members c)) t.members })
      >> write session (put_role c u none)
      >> attempt (count_channel_members c)
      >>= recount c now

  unfoldable pub list_rows : List ℕ → List Room → Chats (List Room)
  list_rows seen [] = return []
  list_rows seen (r ∷ rs) =
      if member r.channel_id seen
      then list_rows seen rs
      else (attempt (get_room r.channel_id) >>= λ room.
          list_rows (r.channel_id ∷ seen) rs >>= λ rest. return (latest r room ∷ rest))

  unfoldable pub list_rooms_by_user : ℕ → Chats (List Room)
  list_rooms_by_user u = read session (λ t. first_rows 100 (t.rooms_by_user u)) >>= list_rows []
