-- ===== src/Storage/Channels.antt =====
-- pkg/chat/repo.go: ChannelRepoImpl, its channels, direct channels, roles and tickets.
--
-- `tokens` answers common.NewJWT, `hash` is the SHA-256 of a text in base64, and `random` what
-- rand.Read gives for a ticket, in base64. A ticket expires through `others` of the session.
pub mod Direct
pub mod Tickets
use nexus_chat.Base.{
  ℕ, String, Bool, true, false, not, ◌&&◌, Option, none, some, List, [], ◌∷◌, ltb, ◌==◌,
  if◌then◌else◌, str_eq, trim_space, is_empty_text, member,
}
use nexus_chat.Chat.{Channel, Role, member as member_role}
use nexus_chat.Effects.{Result, ok, err}
use nexus_chat.Stateful.{Op, return, throw, throw_if, ◌>>=◌, ◌>>◌}
use nexus_chat.Cassandra.{Database, Session, statement, write, read, write_if, ignore}
use nexus_chat.Storage.{
  Tables, Error, not_found, direct_exists, token_failed, random_failed, Chats, Ticket, set_at,
  set_pair, set_text, require,
}

abbrev pub canonical_pair : ℕ → ℕ → ℕ × ℕ
canonical_pair a b = if ltb a b then (a, b) else (b, a)

-- a row of channels, whose rows stand by user
unfoldable pub add_once : ℕ → List ℕ → List ℕ
add_once u [] = u ∷ []
add_once u (x ∷ xs) =
    let rest = add_once u xs in
    if x == u then x ∷ xs else (if ltb u x then u ∷ x ∷ xs else x ∷ rest)

abbrev pub put_member : ℕ → ℕ → Tables → Tables
put_member c u t = record t { members = set_at c (add_once u (t.members c)) t.members }

abbrev pub put_kind : ℕ → Option String → Tables → Tables
put_kind c k t = record t { kinds = set_at c k t.kinds }

abbrev pub put_role : ℕ → ℕ → Option Role → Tables → Tables
put_role c u r t = record t { roles = set_pair c u r t.roles }

abbrev pub put_direct_by_id : ℕ → Option (ℕ × ℕ) → Tables → Tables
put_direct_by_id c p t = record t { direct_by_id = set_at c p t.direct_by_id }

abbrev pub put_direct_by_pair : ℕ × ℕ → Option ℕ → Tables → Tables
put_direct_by_pair p c t = record t { direct_by_pair = set_pair p.0 p.1 c t.direct_by_pair }

abbrev pub put_ticket : String → Option Ticket → Tables → Tables
put_ticket h k t = record t { tickets = set_text h k t.tickets }

abbrev pub is_absent : {A : Type 0} → Option A → Bool
is_absent none = true
is_absent (some a) = false

abbrev pub holds_ticket : Ticket → Option Ticket → Bool
holds_ticket k none = false
holds_ticket k (some h) =
    h.user_id == k.user_id && h.channel_id == k.channel_id && str_eq h.access_token k.access_token

abbrev pub other_of : ℕ → ℕ × ℕ → Option ℕ
other_of u p = if u == p.0 then some p.1 else (if u == p.1 then some p.0 else none)

module _ (session : Session Tables Error) where
  unfoldable pub add_user_to_channel : ℕ → ℕ → Chats (Unit {0})
  add_user_to_channel c u = write session (put_member c u)

  unfoldable pub get_channel_user_ids : ℕ → Chats (List ℕ)
  get_channel_user_ids c = read session (λ t. t.members c)

  unfoldable pub set_channel_kind : ℕ → String → Chats (Unit {0})
  set_channel_kind c k = write session (put_kind c (some k))

  abbrev pub or_none :
      {A : Type 0}
      → Result Error (Option A) × Database Tables
      → Result Error (Option A) × Database Tables
  or_none (ok a, d) = (ok a, d)
  or_none (err e, d) = (ok none, d)

  -- a row that is left out if the statement fails
  unfoldable pub try_read : {A : Type 0} → (Tables → Option A) → Chats (Option A)
  try_read g d = or_none (read session g d)

  -- a room without a row of its own kind is a group, and gets the row
  unfoldable pub backfill_kind : ℕ → Option String → Chats String
  backfill_kind c (some k) = return k
  backfill_kind c none = try_read (λ t. t.rooms c) >>= λ room.
      require not_found room >>= λ found. set_channel_kind c "group" >> return "group"

  unfoldable pub get_channel_kind : ℕ → Chats String
  get_channel_kind c = read session (λ t. t.kinds c) >>= backfill_kind c

  unfoldable pub get_direct_peer : ℕ → ℕ → Chats ℕ
  get_direct_peer c u = read session (λ t. t.direct_by_id c) >>= λ pair.
      require not_found pair >>= λ p. require not_found (other_of u p)

  unfoldable pub delete_pair : Option (ℕ × ℕ) → Chats (Unit {0})
  delete_pair none = return tt
  delete_pair (some p) = ignore (write session (put_direct_by_pair p none))

  unfoldable pub delete_channel : ℕ → Chats (Unit {0})
  delete_channel c =
      write session (λ t. record t { members = set_at c [] t.members })
      >> (try_read (λ t. t.direct_by_id c) >>= delete_pair)
      >> ignore (write session (put_direct_by_id c none))
      >> ignore (write session (put_kind c none))

  unfoldable pub assign_role : ℕ → ℕ → Role → Chats (Unit {0})
  assign_role c u r = write session (put_role c u (some r))

  abbrev pub role_or_member : Option Role → Role
  role_or_member none = member_role
  role_or_member (some r) = r

  unfoldable pub get_role : ℕ → ℕ → Chats Role
  get_role c u = read session (λ t. role_or_member (t.roles c u))

  unfoldable pub create_direct_channel : ℕ → ℕ → ℕ → Chats (Unit {0})
  create_direct_channel c a b =
      write_if session
        (λ t. is_absent (t.direct_by_pair (canonical_pair a b).0 (canonical_pair a b).1))
        (put_direct_by_pair (canonical_pair a b) (some c))
      >>= λ applied.
          throw_if (not applied) direct_exists
          >> write session (put_direct_by_id c (some (canonical_pair a b)))

  module _ (tokens : ℕ → Option String) where
    unfoldable pub new_jwt : ℕ → Chats String
    new_jwt c = require token_failed (tokens c)

    -- INSERT INTO channels with the user 0
    unfoldable pub create_channel : ℕ → Chats Channel
    create_channel c =
        write session (put_member c 0)
        >> (new_jwt c >>= λ token. return (record { id = c; access_token = token }))

    -- the token of a channel, whose row of its own is written again
    unfoldable pub open_direct : ℕ × ℕ → ℕ → Chats Channel
    open_direct p c = new_jwt c >>= λ token.
        ignore (write session (put_direct_by_id c (some p)))
        >> return (record { id = c; access_token = token })

    unfoldable pub get_direct_channel : ℕ → ℕ → Chats Channel
    get_direct_channel a b =
        read session (λ t. t.direct_by_pair (canonical_pair a b).0 (canonical_pair a b).1)
        >>= λ row. require not_found row >>= open_direct (canonical_pair a b)

  module _ (hash : String → String) where
    unfoldable pub issue_web_socket_ticket : Option String → ℕ → ℕ → String → Chats String
    issue_web_socket_ticket random u c token = require random_failed random >>= λ ticket.
        write session (
          put_ticket (hash ticket)
            (some (record { user_id = u; channel_id = c; access_token = token })))
        >> return ticket

    unfoldable pub take_ticket : String → Ticket → Chats Ticket
    take_ticket h k =
        write_if session (λ t. holds_ticket k (t.tickets h)) (put_ticket h none) >>= λ applied.
        throw_if (not applied) not_found >> return k

    unfoldable pub consume_web_socket_ticket : String → Chats Ticket
    consume_web_socket_ticket ticket =
        throw_if (is_empty_text (trim_space ticket)) not_found
        >> (read session (λ t. t.tickets (hash ticket)) >>= λ row.
            require not_found row >>= take_ticket (hash ticket))
