-- ===== src/Realtime/Hub/Delivery.antt =====
-- What Send, BroadcastToChannel and Broadcast of pkg/realtime/hub.go put into which channel.
use nexus_chat.Base.{
  ℕ, lookup_head, lookup_tail, none, inl, inr, String, ◌≡◌, refl, Bool, true, false, not, ◌&&◌,
  ◌||◌, List, [], ◌∷◌, ◌++◌, some, arith, ◌==◌, if◌then◌else◌, any, All, Keyed, lookup, member,
  Fresh, Distinct, Fresh-not_member, Bool-cases, ==_iff, KeysFresh, KeysFresh-lookup, subst,
}
use nexus_chat.Realtime.Hub.{
  Hub, Client, set_at, has_room, or_nil, clients_of, offer, offer_each, offer_entries, send,
  broadcast_to_channel,
}
use nexus_chat.Realtime.Hub.Members.{
  EntryIsValid, owner_of_member, each_open, KeysDistinct, IsValid, clients_of-valid, holds,
}

-- `body` behind what waits at `q`, if `q` is wanted and has room.
abbrev pub after_offer : (ℕ → Bool) → String → Hub → ℕ → List String
after_offer wanted body h q =
    if wanted q && has_room h q then (h.queue q ++ body ∷ []) else h.queue q

module _ (skip : Client → Bool) (body : String) where
  -- whether some client on the list takes the body
  abbrev pub takes : Hub → List ℕ → Bool
  takes h ps = any (λ p. not (skip (h.client p)) && has_room h p) ps

  abbrev listed : Hub → List ℕ → ℕ → Bool
  listed h ps q = member q ps && not (skip (h.client q))

  takes-set_at :
      (h : Hub) (p : ℕ) (b : List String) (ps : List ℕ)
      → Fresh p ps
      → takes (record h { queue = set_at p b h.queue }) ps ≡ takes h ps
  takes-set_at h p b [] f = refl
  takes-set_at h p b (q ∷ qs) f = ground (arith, takes-set_at h p b qs f.1, ==_iff p q, ==_iff q p)

  offer_each-delivers :
      (ps : List ℕ) (h : Hub) (sent : Bool)
      → Distinct ps
      → All (λ p. h.closed p ≡ false) ps
      → (f : ℕ → List String) × (offer_each skip body ps h sent
          ≡ some (record h { queue = f }, sent || takes h ps))
        × ((q : ℕ) → f q ≡ after_offer (listed h ps) body h q)
  unfolding offer_each offer member
  offer_each-delivers [] h sent d o = (h.queue, ground arith, λ q. refl)
  offer_each-delivers (p ∷ ps) h sent d o = elim (Bool-cases (skip (h.client p))) [
    | inl s ↦
        let (f, e, g) = offer_each-delivers ps h sent d.1 o.1 in
        (f, ground (arith, e), λ q. ground (arith, g q, ==_iff p q))
    | inr s ↦ elim (Bool-cases (has_room h p)) [
      | inl r ↦
          let b = h.queue p ++ body ∷ [] in
          let h1 = record h { queue = set_at p b h.queue } in
          let (f, e, g) = offer_each-delivers ps h1 (sent || true) d.1 o.1 in
          (
            f,
            ground (arith, e, o.0, takes-set_at h p b ps d.0),
            λ q. ground (arith, g q, ==_iff p q, Fresh-not_member p ps d.0),
          )
      | inr r ↦
          let (f, e, g) = offer_each-delivers ps h (sent || false) d.1 o.1 in
          (f, ground (arith, e, o.0), λ q. ground (arith, g q, ==_iff p q))
    ]
  ]

  -- the addresses that the map holds, each looked for under its own user
  abbrev filed : Hub → Keyed (List ℕ) → ℕ → Bool
  filed h m q = member q (or_nil (lookup (h.client q).user_id m)) && not (skip (h.client q))

  -- One entry of the map does not touch the addresses filed elsewhere.
  entry-filed :
      (h : Hub) (u : ℕ) (ps : List ℕ) (m : Keyed (List ℕ)) (q : ℕ) (f g : ℕ → List String)
      → KeysFresh u m
      → (member q ps ≡ true → (h.client q).user_id ≡ u)
      → f q ≡ after_offer (listed h ps) body h q
      → g q ≡ after_offer (filed h m) body (record h { queue = f }) q
      → g q ≡ after_offer (filed h ((u, ps) ∷ m)) body h q
  unfolding member
  entry-filed h u ps m q f g k owns ef eg = elim (Bool-cases (u == (h.client q).user_id)) [
    | inl e ↦
        let gone =
          subst (λ x. lookup x m ≡ none) ((==_iff u (h.client q).user_id).0 e)
            (KeysFresh-lookup u m k) in
        ground (arith, gone, ef, eg, lookup_head (h.client q).user_id u ps m e)
    | inr n ↦ elim (Bool-cases (member q ps)) [
      | inl l ↦ ground (arith, owns l, ==_iff u (h.client q).user_id)
      | inr l ↦ ground (arith, ef, eg, lookup_tail (h.client q).user_id u ps m n)
    ]
  ]

  offer_entries-delivers :
      (m : Keyed (List ℕ)) (h : Hub)
      → All (EntryIsValid h) m
      → KeysDistinct m
      → (f : ℕ → List String) × (offer_entries skip body m h ≡ some (record h { queue = f }))
        × ((q : ℕ) → f q ≡ after_offer (filed h m) body h q)
  unfolding offer_entries lookup member
  offer_entries-delivers [] h v k = (h.queue, refl, λ q. refl)
  offer_entries-delivers ((u, ps) ∷ m) h v k =
      let (f, e, ef) = offer_each-delivers ps h false v.0.1 (each_open h u ps v.0.2) in
      let (g, e', eg) = offer_entries-delivers m (record h { queue = f }) v.1 k.1 in
      (
        g,
        rw (e, offer_entries) e',
        λ q. entry-filed h u ps m q f g k.0 (owner_of_member h u q ps v.0.2) (ef q) (eg q),
      )

-- In a valid hub Send does not panic. It returns true exactly when some client of the user has
-- room in its channel, and it appends the body to the channels of the user's clients that have
-- room and to no other channel; nothing else changes.
pub send-delivers :
    (u : ℕ) (body : String) (h : Hub)
    → IsValid h
    → (f : ℕ → List String) × (send u body h
        ≡ some (record h { queue = f }, any (has_room h) (clients_of h u)))
      × ((q : ℕ) → f q ≡ after_offer (λ p. member p (clients_of h u)) body h q)
unfolding send
send-delivers u body h v =
    let c = clients_of-valid h u v in
    let skip : Client → Bool = λ c. false in
    let (f, e, g) =
      offer_each-delivers skip body (clients_of h u) h false c.0
        (each_open h u (clients_of h u) c.1) in
    (f, e, λ q. ground (arith, g q))

-- In a valid hub BroadcastToChannel does not panic: it appends the body once to the channel of
-- each client that the hub holds, that is in the channel and that has room. Nothing else changes.
pub broadcast_to_channel-delivers :
    (channel : ℕ) (body : String) (h : Hub)
    → IsValid h
    → (f : ℕ → List String) × (broadcast_to_channel channel body h ≡ some (record h { queue = f }))
      × ((q : ℕ)
          → f q ≡ after_offer (λ p. holds h p && ((h.client p).channel_id == channel)) body h q)
unfolding broadcast_to_channel clients_of
broadcast_to_channel-delivers channel body h v =
    let (f, e, g) =
      offer_entries-delivers (λ c. not (c.channel_id == channel)) body h.clients h v.entries
        v.keys in
    (f, e, λ q. ground (arith, g q))
