-- ===== src/Chat/Rooms.antt =====
-- Rooms: CreateRoom, UpdateRoomAvatar, JoinRoom and LeaveRoom of ChannelServiceImpl in
-- pkg/chat/service.go. `trim`, `upper` and `runes` are strings.TrimSpace, strings.ToUpper and the
-- number of runes. A Go map of members is a list of the added members, the newest first, without
-- the owner; they are added to the room in the order of that list, where Go leaves it open.
use nexus_chat.Base.{
  ℕ, ◌+◌, String, Bool, true, false, not, ◌||◌, List, [], ◌∷◌, ◌==◌, ltb, leb, length, str_eq,
  member, if◌then◌else◌,
}
use nexus_chat.Effects.{ok, Env, Action, ◌>>=◌, ◌>>◌, pure, ask, refuse_if, call, now}
use nexus_chat.Chat.{
  Room, Role, Call, next_id, set_kind, create_room, add_member, remove_member, set_avatar, Error,
  unavailable, bad_request, blocked_message, too_many_members, Queries,
}
use nexus_chat.Chat.Messages.{answered}

abbrev pub insert_once : ℕ → List ℕ → List ℕ
insert_once m ms = if member m ms then ms else m ∷ ms

module _ (env : Env Call) (queries : Queries) (trim : String → String) (upper : String → String)
    (runes : String → ℕ) where
  unfoldable pub check_member : ℕ → ℕ → Action Call Error (Unit {0})
  check_member owner m = do
    known ← ask (λ h. answered (queries.user_exists h m))
    blocked ← ask (λ h. answered (queries.blocked h owner m))
    refuse_if blocked blocked_message

  -- the loop over the requested members; `taken` is uniqueMembers without the owner
  unfoldable pub gather : ℕ → List ℕ → List ℕ → Action Call Error (List ℕ)
  unfolding check_member
  gather owner [] taken = pure taken
  gather owner (m ∷ ms) taken =
      let rest = gather owner ms in
      if m == 0 || m == owner
      then rest taken
      else (refuse_if (leb 50 (length taken + 1)) too_many_members
          >> check_member owner m
          >> rest (insert_once m taken))

  unfoldable pub store_member : Room → ℕ → Action Call Error Room
  unfolding call
  store_member room m = do
    call env unavailable (add_member room m Role.member)
    ask (λ h. ok (queries.room_after h room))

  unfoldable pub add_members : Room → List ℕ → Action Call Error Room
  unfolding store_member
  add_members room [] = pure room
  add_members room (m ∷ ms) = store_member room m >>= λ room. add_members room ms

  abbrev pub new_room : ℕ → String → ℕ → ℕ → Room
  new_room channel name owner count = record {
    channel_id = channel;
    name = name;
    avatar = "";
    owner_id = owner;
    invite_code = "";
    member_count = count;
    role = Role.unset;
    created_at = 0;
    updated_at = 0;
  }

  unfoldable pub store_room : Room → List ℕ → Action Call Error Room
  unfolding call add_members
  store_room room members = do
    call env unavailable (create_room room)
    room ← ask (λ h. ok (queries.room_after h room))
    call env unavailable (set_kind room.channel_id "group")
    room ← add_members room members
    pure (record room { role = Role.owner })

  -- CreateRoom
  unfoldable pub create : ℕ → String → List ℕ → Action Call Error Room
  unfolding call gather store_room
  create owner name members = do
    refuse_if (str_eq (trim name) "") bad_request
    refuse_if (ltb 80 (runes (trim name))) bad_request
    known ← ask (λ h. answered (queries.user_exists h owner))
    call env unavailable next_id
    id ← ask (λ h. ok (queries.fresh_id h))
    members ← gather owner members []
    store_room (new_room id (trim name) owner (length members + 1)) members

  -- UpdateRoomAvatar
  unfoldable pub update_avatar : ℕ → ℕ → String → Action Call Error Room
  unfolding call now
  update_avatar user channel avatar = do
    room ← ask (λ h. answered (queries.room h channel))
    refuse_if (not (room.owner_id == user)) bad_request
    refuse_if (ltb 2000000 (runes avatar)) bad_request
    call env unavailable (set_avatar channel avatar)
    t ← now env
    pure (record room { avatar = avatar; updated_at = t; role = Role.owner })

  -- the loop of JoinRoom over the members of the room
  unfoldable pub check_blocks : ℕ → List ℕ → Action Call Error (Unit {0})
  check_blocks user [] = pure tt
  check_blocks user (m ∷ ms) =
      let rest = check_blocks user ms in
      if m == 0 || m == user
      then rest
      else (ask (λ h. answered (queries.blocked h user m)) >>= λ blocked.
          refuse_if blocked blocked_message >> rest)

  unfoldable pub add_unless : Bool → Room → ℕ → Action Call Error Room
  unfolding store_member
  add_unless true room user = pure room
  add_unless false room user = store_member room user

  abbrev pub role_in : Room → ℕ → Role
  role_in room user = if user == room.owner_id then Role.owner else Role.member

  -- JoinRoom
  unfoldable pub join : ℕ → String → Action Call Error Room
  unfolding check_blocks add_unless
  join user code = do
    let code = upper (trim code)
    refuse_if (str_eq code "") bad_request
    known ← ask (λ h. answered (queries.user_exists h user))
    room ← ask (λ h. answered (queries.room_of_code h code))
    members ← ask (λ h. answered (queries.members h room.channel_id))
    check_blocks user members
    exists ← ask (λ h. answered (queries.is_member h room.channel_id user))
    room ← add_unless exists room user
    pure (record room { role = role_in room user })

  -- LeaveRoom
  unfoldable pub leave : ℕ → ℕ → Action Call Error (Unit {0})
  unfolding call
  leave user channel = do
    room ← ask (λ h. answered (queries.room h channel))
    refuse_if (room.owner_id == user) bad_request
    call env unavailable (remove_member channel user)
