-- ===== src/Storage/Rooms/Invites.antt =====
-- The room behind an invite code of pkg/chat/repo.go.
use nexus_chat.Base.{
  ◌≡◌, refl, ℕ, suc, String, Bool, true, false, Option, none, some, ◌==◌, str_eq_iff, Bool-cases,
  inl, inr, subst, ap, sym, ==_iff,
}
use nexus_chat.Chat.{Room, Role, owner, unset}
use nexus_chat.Effects.{ok}
use nexus_chat.Stateful.{Ensures, Keeps, Ensures-bind, Keeps-return, Ensures-ok, Ensures-error}
use nexus_chat.Cassandra.{
  Unknown, unknown, Database, Session, On, Stable, done, write, ignore, found_by, after,
  Ensures-statement, Keeps-statement, Keeps-ignore, Keeps-attempt, read-done,
}
use nexus_chat.Storage.{Tables, Error, RoomRow, set_at, set_text}
use nexus_chat.Storage.Channels.{put_member, put_role, assign_role}
use nexus_chat.Storage.Rooms.{
  put_room, put_invite, put_user_room, user_row, update_room, or_blank_room, store_count, list_room,
  count_channel_members, add_room_member, prepared, code_for, store_room, create_room, open_row,
  get_room, get_room_by_invite_code,
}

-- The row of the room has its number, name and owner, and is not archived.
abbrev IsRowOf : Room → Option RoomRow → Type 0
IsRowOf r none = ◌≡◌ {A = Bool} true false
IsRowOf r (some x) =
    (x.archived ≡ false)
    × ((x.room.channel_id ≡ r.channel_id)
        × ((x.room.name ≡ r.name) × (x.room.owner_id ≡ r.owner_id)))

unfoldable pub HasRow : Room → Tables → Type 0
HasRow r t = IsRowOf r (t.rooms r.channel_id)

unfoldable pub HasInvite : String → ℕ → Tables → Type 0
HasInvite code c t = t.invites code ≡ some c

abbrev IsOpen : String → Room → Tables → Type 0
IsOpen code r t = HasRow r t × HasInvite code r.channel_id t

put_room-HasRow :
    (r : Room) (x : RoomRow) (t : Tables)
    → x.room.channel_id ≡ r.channel_id
    → IsRowOf r (some x)
    → HasRow r (put_room x t)
unfolding HasRow set_at
put_room-HasRow r x t e h = rw ((==_iff r.channel_id x.room.channel_id).1 (sym e)) h

put_invite-HasInvite : (code : String) (c : ℕ) (t : Tables) → HasInvite code c (put_invite code c t)
unfolding HasInvite set_text
put_invite-HasInvite code c t = rw ((str_eq_iff code code).1 refl) refl

update_room-HasRow :
    (r : Room) (c n now : ℕ) (t : Tables)
    → HasRow r t
    → HasRow r (update_room c (λ x. record x { member_count = n; updated_at = now }) t)
unfolding HasRow set_at
update_room-HasRow r c n now t h = elim (Bool-cases (r.channel_id == c)) [
  | inl e ↦
      let here : t.rooms r.channel_id ≡ t.rooms c = ap t.rooms ((==_iff r.channel_id c).0 e) in
      rw e (counted (t.rooms c) (subst (IsRowOf r) here h))
  | inr e ↦ rw e h
]
  where
    counted :
        (o : Option RoomRow)
        → IsRowOf r o
        → IsRowOf r (
            some (record (or_blank_room c o) {
              room = record (or_blank_room c o).room { member_count = n; updated_at = now };
            }))
    counted none x = cc
    counted (some y) x = x

update_room-IsOpen :
    (code : String) (r : Room) (c n now : ℕ) (t : Tables)
    → IsOpen code r t
    → IsOpen code r (update_room c (λ x. record x { member_count = n; updated_at = now }) t)
unfolding HasInvite
update_room-IsOpen code r c n now t h = (update_room-HasRow r c n now t h.0, h.1)

put_invite-HasRow :
    (r : Room) (code : String) (c : ℕ) (t : Tables) → HasRow r t → HasRow r (put_invite code c t)
unfolding HasRow
put_invite-HasRow r code c t h = h

module _ (session : Session Tables Error) where
  module _ (code : String) (r : Room) (stable : Stable session (IsOpen code r)) where
    store_count-IsOpen :
        (now : ℕ) (room : Room) (n : Option ℕ)
        → Keeps (On (IsOpen code r)) (store_count session now room n)
    unfolding store_count
    store_count-IsOpen now room none = Keeps-return room
    store_count-IsOpen now room (some n) =
        Ensures-bind
          (ignore (
            write session
              (update_room room.channel_id (λ x. record x { member_count = n; updated_at = now }))))
          _
          (Keeps-ignore (IsOpen code r) _ (
            Keeps-statement (IsOpen code r) session (λ t. tt)
              (update_room room.channel_id (λ x. record x { member_count = n; updated_at = now }))
              stable (update_room-IsOpen code r room.channel_id n now)))
          λ a. Keeps-return (record room { member_count = n; updated_at = now })

    list_room-IsOpen :
        (now u : ℕ) (role : Role) (room : Room)
        → Keeps (On (IsOpen code r)) (list_room session now u role room)
    unfolding list_room HasRow HasInvite
    list_room-IsOpen now u role room =
        Ensures-bind _ _
          (Keeps-statement (IsOpen code r) session _ (put_user_room u (user_row now role room))
            stable λ t h. h)
          λ a. Keeps-return room

    add_room_member-IsOpen :
        (now : ℕ) (room : Room) (u : ℕ) (role : Role)
        → Keeps (On (IsOpen code r)) (add_room_member session now room u role)
    unfolding add_room_member assign_role count_channel_members HasRow HasInvite
    add_room_member-IsOpen now room u role =
        Ensures-bind _ _
          (Keeps-statement (IsOpen code r) session _ (put_member room.channel_id u) stable λ t h. h)
          λ a.
            Ensures-bind _ _
              (Keeps-statement (IsOpen code r) session _ (put_role room.channel_id u (some role))
                stable λ t h. h)
              λ b.
                Ensures-bind _ _
                  (Keeps-attempt (IsOpen code r) (count_channel_members session room.channel_id)
                    (Keeps-statement (IsOpen code r) session _ _ stable λ t h. h))
                  λ n.
                    Ensures-bind _ _ (store_count-IsOpen now room n) (list_room-IsOpen now u role)

  module _ (code : String) (r : Room) (rows : Stable session (HasRow r))
      (codes : Stable session (HasInvite code r.channel_id)) where
    both : Stable session (IsOpen code r)
    both n t h = (rows n t h.0, codes n t h.1)

    store_room-IsOpen :
        (later : ℕ) (room : Room)
        → room.channel_id ≡ r.channel_id
        → room.name ≡ r.name
        → room.owner_id ≡ r.owner_id
        → room.invite_code ≡ code
        → Ensures
            (On Unknown)
            (λ x. On (IsOpen code r))
            (On Unknown)
            (store_room session later room)
    unfolding store_room Unknown
    store_room-IsOpen later room same named owned coded =
        Ensures-bind _ _
          (Ensures-statement Unknown (λ a. HasRow r) Unknown session _
            (put_room (record { room = record room { role = unset }; archived = false }))
            (λ n t h. tt) (λ t h. tt)
            λ t h. (put_room-HasRow r _ t same (refl, (same, (named, owned))), tt))
          λ a.
            Ensures-bind _ _
              (Ensures-statement (HasRow r) (λ x. IsOpen code r) Unknown session _
                (put_invite room.invite_code room.channel_id) rows (λ t h. tt)
                λ t h. ((put_invite-HasRow r _ _ t h, invited t), tt))
              λ b. Ensures-error (add_room_member-IsOpen code r both later room room.owner_id owner)
      where
        invited :
            (t : Tables)
            → HasInvite code r.channel_id (put_invite room.invite_code room.channel_id t)
        invited t = rw (coded, same) (put_invite-HasInvite code r.channel_id t)

    create_room-IsOpen :
        (draw : ℕ → Option ℕ) (now later : ℕ)
        → code_for draw r.invite_code ≡ some code
        → Ensures
            (On Unknown)
            (λ x. On (IsOpen code r))
            (On Unknown)
            (create_room session draw now later r)
    unfolding create_room Unknown
    create_room-IsOpen draw now later coded = record {
      at = λ d h.
          rw coded ((store_room-IsOpen later (prepared now code r) refl refl refl refl).at d tt);
    }

    opened_row :
        (s : Database Tables) (o : Option RoomRow)
        → IsRowOf r o
        → (x : Room) × (((open_row o s).0 ≡ ok x)
            × ((x.channel_id ≡ r.channel_id) × ((x.name ≡ r.name) × (x.owner_id ≡ r.owner_id))))
    opened_row s none k = absurd cc
    opened_row s (some x) k = (x.room, (rw k.0 refl, k.1))

    opened :
        (d : Database Tables)
        → HasRow r d.tables
        → session.works d.statements ≡ done
        → (x : Room) × (((get_room session r.channel_id d).0 ≡ ok x)
            × ((x.channel_id ≡ r.channel_id) × ((x.name ≡ r.name) × (x.owner_id ≡ r.owner_id))))
    unfolding get_room HasRow
    opened d h w = rw (read-done session (λ t. t.rooms r.channel_id) d w) (
        opened_row (after (found_by session d) d) ((found_by session d).rooms r.channel_id)
          (rows d.statements d.tables h))

    -- An invite code leads to its room: where no other instance changes the room's row or its code, once
    -- CreateRoom has succeeded, and if the next two statements succeed, GetRoomByInviteCode of the code
    -- answers a room of the same number, name and owner.
    pub get_room_by_invite_code-create :
        (draw : ℕ → Option ℕ) (now later : ℕ) (d e : Database Tables) (made : Room)
        → code_for draw r.invite_code ≡ some code
        → create_room session draw now later r d ≡ (ok made, e)
        → session.works e.statements ≡ done
        → session.works (suc e.statements) ≡ done
        → (x : Room) × (((get_room_by_invite_code session code e).0 ≡ ok x)
            × ((x.channel_id ≡ r.channel_id) × ((x.name ≡ r.name) × (x.owner_id ≡ r.owner_id))))
    unfolding get_room_by_invite_code HasInvite
    get_room_by_invite_code-create draw now later d e made coded created w w' =
        let made_open =
          Ensures-ok _ d e made (create_room-IsOpen draw now later coded) (unknown d.tables)
            created in
        let kept = both e.statements e.tables made_open in
        rw (read-done session (λ t. t.invites code) e w)
          (rw kept.1 (opened (after (found_by session e) e) kept.0 w'))
