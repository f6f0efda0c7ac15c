-- ===== src/Realtime/Hub.antt =====
-- pkg/realtime/hub.go, and the life of a WebSocket session in pkg/workspace/service.go.
--
-- A `*Client` is a number, the address. Its fields that never change are `client`; the buffered
-- channel `Send` is `queue` (what waits in it, oldest first) and `closed`. A send succeeds at once
-- while fewer than `capacity` bodies wait. `none` is a panic: a send on a closed channel, or a
-- second `close`. The lock `mu` makes each method one step. A body stands for the marshalled JSON.
pub mod Members
pub mod Delivery
pub mod Sessions
pub mod Closing
use nexus_chat.Base.{
  ℕ, String, Bool, true, false, not, ◌&&◌, ◌||◌, List, [], ◌∷◌, ◌++◌, Option, none, some, ◌==◌, ltb,
  if◌then◌else◌, length, is_empty, Keyed, lookup, erase, put, member, discard,
}

pub record Client : Type 0 where
  pub user_id : ℕ
  pub channel_id : ℕ
  pub device : String
  pub capacity : ℕ

pub record Hub : Type 0 where
  pub clients : Keyed (List ℕ)
  pub client : ℕ → Client
  pub queue : ℕ → List String
  pub closed : ℕ → Bool

abbrev pub set_at {ℓ} : {A : Type ℓ} → ℕ → A → (ℕ → A) → ℕ → A
set_at p a f q = if p == q then a else f q

-- NewHub, over a given memory
unfoldable pub new_hub : (ℕ → Client) → Hub
new_hub memory = record { clients = []; client = memory; queue = λ p. []; closed = λ p. false }

-- the set h.clients[u]; a missing entry is the nil map, which is empty
abbrev pub or_nil : Option (List ℕ) → List ℕ
or_nil none = []
or_nil (some ps) = ps

unfoldable pub clients_of : Hub → ℕ → List ℕ
clients_of h u = or_nil (lookup u h.clients)

-- Add: the entry of the user is made if it is missing, then the address is put into it.
unfoldable pub add : ℕ → Hub → Hub
unfolding clients_of
add p h =
    let u = (h.client p).user_id in
    record h { clients = put u (p ∷ discard p (clients_of h u)) h.clients }

-- Remove: an entry that becomes empty is deleted.
unfoldable pub remove_entry : ℕ → ℕ → Option (List ℕ) → Hub → Hub
remove_entry p u none h = h
remove_entry p u (some ps) h =
    let rest = discard p ps in
    if is_empty rest
    then record h { clients = erase u h.clients }
    else record h { clients = put u rest h.clients }

unfoldable pub remove : ℕ → Hub → Hub
unfolding remove_entry
remove p h = let u = (h.client p).user_id in remove_entry p u (lookup u h.clients) h

-- Online: len(h.clients[userID]) > 0
unfoldable pub online : ℕ → Hub → Bool
unfolding clients_of
online u h = not (is_empty (clients_of h u))

abbrev pub has_room : Hub → ℕ → Bool
has_room h p = ltb (length (h.queue p)) (h.client p).capacity

-- select { case client.Send <- body: … default: }
unfoldable pub offer : String → ℕ → Hub → Option (Hub × Bool)
offer body p h =
    if h.closed p
    then none
    else if has_room h p
    then some (record h { queue = set_at p (h.queue p ++ body ∷ []) h.queue }, true)
    else some (h, false)

-- The loop over one user's clients; `skip` is the `continue` of BroadcastToChannel, and `sent`
-- the variable `delivered` of Send.
unfoldable pub offer_each : (Client → Bool) → String → List ℕ → Hub → Bool → Option (Hub × Bool)
offer_each skip body [] h sent = some (h, sent)
offer_each skip body (p ∷ ps) h sent = elim (skip (h.client p)) [
  | true ↦ offer_each skip body ps h sent
  | false ↦ elim (offer body p h) [
    | none ↦ none
    | some (h', ok) ↦ offer_each skip body ps h' (sent || ok)
  ]
]

unfoldable pub offer_entries : (Client → Bool) → String → Keyed (List ℕ) → Hub → Option Hub
offer_entries skip body [] h = some h
offer_entries skip body ((u, ps) ∷ m) h = elim (offer_each skip body ps h false) [
  | none ↦ none
  | some (h', sent) ↦ offer_entries skip body m h'
]

-- Send returns whether some client took the body.
unfoldable pub send : ℕ → String → Hub → Option (Hub × Bool)
unfolding clients_of offer_each offer
send u body h = offer_each (λ c. false) body (clients_of h u) h false

unfoldable pub broadcast_to_channel : ℕ → String → Hub → Option Hub
unfolding offer_entries offer_each offer
broadcast_to_channel channel body h =
    offer_entries (λ c. not (c.channel_id == channel)) body h.clients h

unfoldable pub broadcast : String → Hub → Option Hub
unfolding offer_entries offer_each offer
broadcast body h = offer_entries (λ c. false) body h.clients h

-- close(client.Send)
unfoldable pub close_send : ℕ → Hub → Option Hub
close_send p h = if h.closed p then none else some (record h { closed = set_at p true h.closed })

unfoldable pub close_each : List ℕ → Hub → Option Hub
close_each [] h = some h
close_each (p ∷ ps) h = elim (close_send p h) [ none ↦ none | some h' ↦ close_each ps h' ]

unfoldable pub close_entries : Keyed (List ℕ) → Hub → Option Hub
close_entries [] h = some h
close_entries ((u, ps) ∷ m) h = elim (close_each ps h) [
  | none ↦ none
  | some h' ↦ close_entries m h'
]

-- Close: every channel is closed and the map made anew.
unfoldable pub close_hub : Hub → Option Hub
unfolding close_entries close_each close_send
close_hub h = elim (close_entries h.clients h) [
  | none ↦ none
  | some h' ↦ some (record h' { clients = [] })
]

-- The session of a WebSocket: `&realtime.Client{…}` with a new channel, then `hub.Add`.
unfoldable pub connect : ℕ → Client → Hub → Hub
unfolding add
connect p c h = add p (record h {
  client = set_at p c h.client;
  queue = set_at p [] h.queue;
  closed = set_at p false h.closed;
})

-- the end of the session, once reading fails: `hub.Remove`, then `close(client.Send)`
unfoldable pub disconnect : ℕ → Hub → Option Hub
unfolding remove close_send
disconnect p h = close_send p (remove p h)

-- the writing goroutine takes the oldest body
abbrev pub drop_oldest : List String → List String
drop_oldest [] = []
drop_oldest (body ∷ bodies) = bodies

unfoldable pub drain : ℕ → Hub → Hub
drain p h = record h { queue = set_at p (drop_oldest (h.queue p)) h.queue }
