-- ===== src/Realtime/Hub/Sessions.antt =====
-- The life of WebSocket sessions over one hub (pkg/realtime/hub.go, and `websocket` of
-- pkg/workspace/service.go): which histories panic.
use nexus_chat.Base.{
  ℕ, String, ◌≡◌, refl, ap, ◌∙◌, inl, inr, Bool, true, false, List, [], ◌∷◌, Option, some, arith,
  ◌==◌, All, Keyed, member, Bool-cases, ==_iff, subst, sym,
}
use nexus_chat.Realtime.Hub.{
  Hub, Client, set_at, new_hub, remove, clients_of, send, broadcast_to_channel, connect, disconnect,
  drain, close_send,
}
use nexus_chat.Realtime.Hub.Members.{
  EntryIsValid, open_of_held, memory-remove, Unlisted, absent_of_not_held, IsValid, holds,
  holds-add-remove, add-IsValid, remove-IsValid,
}
use nexus_chat.Realtime.Hub.Delivery.{send-delivers, broadcast_to_channel-delivers}

-- One step of the service over its hub. A session connects at an address that the hub does not
-- hold (it was just allocated), and ends once.
pub data Step : Hub → Hub → Type 0 where
  connects : (h : Hub) (p : ℕ) (c : Client) → holds h p ≡ false → Step h (connect p c h)
  disconnects : {h h' : Hub} (p : ℕ) → holds h p ≡ true → disconnect p h ≡ some h' → Step h h'
  sends :
      {h h' : Hub} (u : ℕ) (body : String) (sent : Bool)
      → send u body h ≡ some (h', sent)
      → Step h h'
  broadcasts :
      {h h' : Hub} (channel : ℕ) (body : String)
      → broadcast_to_channel channel body h ≡ some h'
      → Step h h'
  drains : (h : Hub) (p : ℕ) → Step h (drain p h)

pub data Reach (s : Hub) : Hub → Type 0 where
  here : Reach s s
  next : {t u : Hub} → Reach s t → Step t u → Reach s u

module _ (h : Hub) (p : ℕ) (client : ℕ → Client) (closed : ℕ → Bool) (queue : ℕ → List String)
    (same : (r : ℕ) → (p == r) ≡ false → (client r ≡ h.client r) × (closed r ≡ h.closed r)) where
  -- What is stored at an address that no entry lists does not matter.
  abbrev changed : Hub
  changed = record h { client = client; closed = closed; queue = queue }

  absent-clients :
      (u : ℕ) (ps : List ℕ)
      → member p ps ≡ false
      → All (λ r. ((h.client r).user_id ≡ u) × (h.closed r ≡ false)) ps
      → All (λ r. ((client r).user_id ≡ u) × (closed r ≡ false)) ps
  unfolding member
  absent-clients u [] m a = tt
  absent-clients u (r ∷ ps) m a = elim (Bool-cases (p == r)) [
    | inl e ↦ ground (arith, ==_iff p r, ==_iff r p)
    | inr n ↦ (
      (ap (λ (c : Client). c.user_id) (same r n).0 ∙ a.0.0, (same r n).1 ∙ a.0.1),
      absent-clients u ps (ground arith) a.1,
    )
  ]

  absent-entries :
      (m : Keyed (List ℕ)) → Unlisted p m → All (EntryIsValid h) m → All (EntryIsValid changed) m
  absent-entries [] l v = tt
  absent-entries ((u, ps) ∷ m) l v =
      ((v.0.0, v.0.1, absent-clients u ps l.0 v.0.2), absent-entries m l.1 v.1)

  absent-IsValid : Unlisted p h.clients → IsValid h → IsValid changed
  absent-IsValid l v = record { entries = absent-entries h.clients l v.entries; keys = v.keys }

connect-IsValid :
    (h : Hub) (p : ℕ) (c : Client) → holds h p ≡ false → IsValid h → IsValid (connect p c h)
unfolding connect
connect-IsValid h p c m v = add-IsValid p _ (ground (arith, ==_iff p p)) (
    absent-IsValid h p (set_at p c h.client) (set_at p false h.closed) (set_at p [] h.queue)
      (λ r n. (rw n, rw n)) (absent_of_not_held h p v m) v)

close_send_eq :
    (p : ℕ) (g h' : Hub)
    → close_send p g ≡ some h'
    → record g { closed = set_at p true g.closed } ≡ h'
unfolding close_send
close_send_eq p g h' e = ground arith

pub close_send_open :
    (p : ℕ) (g : Hub)
    → g.closed p ≡ false
    → close_send p g ≡ some (record g { closed = set_at p true g.closed })
unfolding close_send
close_send_open p g e = rw e

-- Once the session has left the hub its channel can be closed, and the hub stays valid.
disconnect-IsValid : (h h' : Hub) (p : ℕ) → IsValid h → disconnect p h ≡ some h' → IsValid h'
unfolding disconnect
disconnect-IsValid h h' p v e =
    let w = remove-IsValid p h v in
    let out : holds (remove p h) p ≡ false = ground (arith, holds-add-remove p p h, ==_iff p p) in
    subst IsValid (close_send_eq p (remove p h) h' e) (
      absent-IsValid (remove p h) p (remove p h).client (set_at p true (remove p h).closed)
        (remove p h).queue (λ r n. (refl, rw n)) (absent_of_not_held (remove p h) p w out) w)

sent_hub :
    {a b : Hub} {s t : Bool} → ◌≡◌ {A = Option (Hub × Bool)} (some (a, s)) (some (b, t)) → a ≡ b
sent_hub e = cc

broadcast_hub : {a b : Hub} → some a ≡ some b → a ≡ b
broadcast_hub e = cc

-- every step keeps the hub valid
pub Step-IsValid : {h h' : Hub} → Step h h' → IsValid h → IsValid h'
Step-IsValid (connects h p c n) v = connect-IsValid h p c n v
Step-IsValid (disconnects {h} {h'} p n e) v = disconnect-IsValid h h' p v e
Step-IsValid (sends {h} {h'} u body sent e) v =
    let (f, e', g) = send-delivers u body h v in
    subst IsValid (sent_hub (sym e' ∙ e)) (record { entries = v.entries; keys = v.keys })
Step-IsValid (broadcasts {h} {h'} channel body e) v =
    let (f, e', g) = broadcast_to_channel-delivers channel body h v in
    subst IsValid (broadcast_hub (sym e' ∙ e)) (record { entries = v.entries; keys = v.keys })
Step-IsValid (drains h p) v = unfold drain in record { entries = v.entries; keys = v.keys }

new_hub-IsValid : (memory : ℕ → Client) → IsValid (new_hub memory)
unfolding new_hub
new_hub-IsValid memory = record { entries = tt; keys = tt }

-- Every history of connecting, disconnecting, sending, broadcasting and draining from a new hub
-- leaves it valid: no empty entry, no address twice, every client under its own user and open.
pub Reach-IsValid : (memory : ℕ → Client) (h : Hub) → Reach (new_hub memory) h → IsValid h
Reach-IsValid memory h here = new_hub-IsValid memory
Reach-IsValid memory h (next r st) = Step-IsValid st (Reach-IsValid memory _ r)

disconnect_held :
    (h : Hub) (p : ℕ)
    → IsValid h
    → holds h p ≡ true
    → (h' : Hub) × (disconnect p h ≡ some h') × (holds h' p ≡ false)
unfolding disconnect clients_of
disconnect_held h p v held =
    let open_before = open_of_held h p v held in
    let open_after = ap (λ (f : ℕ → Bool). f p) (memory-remove p h).1 ∙ open_before in
    (
      record (remove p h) { closed = set_at p true (remove p h).closed },
      close_send_open p (remove p h) open_after,
      (holds-add-remove p p h).1 ∙ ground (arith, ==_iff p p),
    )

-- In every such history nothing panics: a message can be sent to any user and broadcast to any
-- channel, and each session that the hub holds can end.
pub Reach-no_panic :
    (memory : ℕ → Client) (h : Hub) (u channel p : ℕ) (body : String)
    → Reach (new_hub memory) h
    → holds h p ≡ true
    → ((r : Hub × Bool) × (send u body h ≡ some r))
      × ((h' : Hub) × (broadcast_to_channel channel body h ≡ some h'))
      × ((h' : Hub) × (disconnect p h ≡ some h') × (holds h' p ≡ false))
Reach-no_panic memory h u channel p body r held =
    let v = Reach-IsValid memory h r in
    let s = send-delivers u body h v in
    let b = broadcast_to_channel-delivers channel body h v in
    ((_, s.1), (_, b.1), disconnect_held h p v held)
