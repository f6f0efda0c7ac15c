-- ===== src/Realtime/Hub/Closing.antt =====
-- `Close` of pkg/realtime/hub.go, and what it does to the sessions of `websocket` in
-- pkg/workspace/service.go that are still open.
use nexus_chat.Base.{
  ℕ, ◌≡◌, refl, inl, inr, Bool, true, false, List, [], ◌∷◌, none, some, arith, ◌==◌, All, Keyed,
  KeysFresh, KeysFresh-lookup, lookup_head, lookup_tail, ◌||◌, lookup, member, Fresh, Distinct,
  Bool-cases, ==_iff, subst,
}
use nexus_chat.Realtime.Hub.{
  Hub, or_nil, set_at, clients_of, disconnect, close_send, close_each, close_entries, close_hub,
}
use nexus_chat.Realtime.Hub.Members.{
  EntryIsValid, owner_of_member, each_open, KeysDistinct, IsValid, holds,
}
use nexus_chat.Realtime.Hub.Sessions.{close_send_open}

still_open :
    (p : ℕ) (ps : List ℕ) (h : Hub)
    → Fresh p ps
    → All (λ p. h.closed p ≡ false) ps
    → All (λ q. set_at p true h.closed q ≡ false) ps
still_open p [] h f o = tt
still_open p (q ∷ qs) h f o = (ground (arith, ==_iff p q, ==_iff q p), still_open p qs h f.1 o.1)

close_each-closes :
    (ps : List ℕ) (h : Hub)
    → Distinct ps
    → All (λ p. h.closed p ≡ false) ps
    → (c : ℕ → Bool) × (close_each ps h ≡ some (record h { closed = c }))
      × ((q : ℕ) → c q ≡ (member q ps || h.closed q))
unfolding close_each member
close_each-closes [] h d o = (h.closed, refl, λ q. refl)
close_each-closes (p ∷ ps) h d o =
    let h1 = record h { closed = set_at p true h.closed } in
    let (c, e, g) = close_each-closes ps h1 d.1 (still_open p ps h d.0 o.1) in
    (c, rw (close_send_open p h o.0, close_each) e, λ q. ground (arith, g q, ==_iff p q))

-- Closing the clients of one user leaves those of the others open.
others_open :
    (h : Hub) (u : ℕ) (ps : List ℕ) (c : ℕ → Bool) (m : Keyed (List ℕ))
    → All (λ p. ((h.client p).user_id ≡ u) × (h.closed p ≡ false)) ps
    → ((q : ℕ) → c q ≡ (member q ps || h.closed q))
    → KeysFresh u m
    → All (EntryIsValid h) m
    → All (EntryIsValid (record h { closed = c })) m
others_open h u ps c [] a e k v = tt
others_open h u ps c ((j, qs) ∷ m) a e k v =
    ((v.0.0, v.0.1, go qs v.0.2), others_open h u ps c m a e k.1 v.1)
  where
    go :
        (rs : List ℕ)
        → All (λ r. ((h.client r).user_id ≡ j) × (h.closed r ≡ false)) rs
        → All (λ r. ((h.client r).user_id ≡ j) × (c r ≡ false)) rs
    go [] b = tt
    go (r ∷ rs) b = elim (Bool-cases (member r ps)) [
      | inl l ↦ ground (arith, owner_of_member h u r ps a l, b.0.0, k.0, ==_iff j u)
      | inr l ↦ ((b.0.0, ground (arith, e r, b.0.1)), go rs b.1)
    ]

closed_entry :
    (h : Hub) (u : ℕ) (ps : List ℕ) (m : Keyed (List ℕ)) (q : ℕ) (c d : ℕ → Bool)
    → KeysFresh u m
    → (member q ps ≡ true → (h.client q).user_id ≡ u)
    → c q ≡ (member q ps || h.closed q)
    → d q ≡ (member q (or_nil (lookup (h.client q).user_id m)) || c q)
    → d q ≡ (member q (or_nil (lookup (h.client q).user_id ((u, ps) ∷ m))) || h.closed q)
unfolding member
closed_entry h u ps m q c d k owns ec ed =
    let j = (h.client q).user_id in
    elim (Bool-cases (u == j)) [
      | inl e ↦
          let gone = subst (λ x. lookup x m ≡ none) ((==_iff u j).0 e) (KeysFresh-lookup u m k) in
          ground (arith, gone, ec, ed, lookup_head j u ps m e)
      | inr n ↦ elim (Bool-cases (member q ps)) [
        | inl l ↦ ground (arith, owns l, ==_iff u j)
        | inr l ↦ ground (arith, ec, ed, lookup_tail j u ps m n)
      ]
    ]

close_entries-closes :
    (m : Keyed (List ℕ)) (h : Hub)
    → All (EntryIsValid h) m
    → KeysDistinct m
    → (c : ℕ → Bool) × (close_entries m h ≡ some (record h { closed = c }))
      × ((q : ℕ) → c q ≡ (member q (or_nil (lookup (h.client q).user_id m)) || h.closed q))
unfolding close_entries lookup member
close_entries-closes [] h v k = (h.closed, refl, λ q. refl)
close_entries-closes ((u, ps) ∷ m) h v k =
    let (c, e, g) = close_each-closes ps h v.0.1 (each_open h u ps v.0.2) in
    let (c', e', g') =
      close_entries-closes m (record h { closed = c }) (others_open h u ps c m v.0.2 g k.0 v.1)
        k.1 in
    (
      c',
      rw (e, close_entries) e',
      λ q. closed_entry h u ps m q c c' k.0 (owner_of_member h u q ps v.0.2) (g q) (g' q),
    )

closed_of_held : (b old held : Bool) → held ≡ true → b ≡ (held || old) → b ≡ true
closed_of_held b old held m e = ground arith

-- Closing a valid hub does not panic and empties it. But a session that it held then panics when
-- it ends: `websocket` closes the channel that `Close` has closed already.
pub disconnect-close_hub :
    (h : Hub) (p : ℕ)
    → IsValid h
    → holds h p ≡ true
    → (h' : Hub) × (close_hub h ≡ some h') × (h'.clients ≡ []) × (disconnect p h' ≡ none)
unfolding close_hub disconnect clients_of lookup
disconnect-close_hub h p v held =
    let (c, e, g) = close_entries-closes h.clients h v.entries v.keys in
    (
      record h { clients = []; closed = c },
      rw (e, close_hub) refl,
      refl,
      rw (closed_of_held (c p) (h.closed p) _ held (g p), close_send) refl,
    )
