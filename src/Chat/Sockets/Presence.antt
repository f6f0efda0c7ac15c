-- ===== src/Chat/Sockets/Presence.antt =====
-- Who is online while sessions come and go one after another.
use nexus_chat.Base.{
  ◌≡◌, refl, ℕ, suc, zero, ◌-◌, ◌<◌, String, true, false, none, some, ◌==◌, leb, arith, ap, ◌⊎◌,
  inl, inr,
}
use nexus_chat.Cassandra.{Outcome}
use nexus_chat.Storage.{set_pair, set_pair-cases, set_pair-both, set_pair-own, entry-ap}
use nexus_chat.Chat.Sockets.{
  Sockets, acquire_session, release_session, initialize_chat_session, handle_chat_on_close,
}
use nexus_chat.Chat.Sockets.Changes.{Live, opened, IsPresent, leave-IsPresent, announce-IsPresent}

module _ (works : ℕ → Outcome) (subscriber : String) where
  pub data Reach : Sockets → Live → Type 0 where
    start :
        Reach
          (record { counts = λ c u. 0; online = λ c u. false; registered = λ c u. none; calls = 0 })
          (λ c u. 0)
    connects :
        {s : Sockets} {live : Live} (c u : ℕ)
        → Reach s live
        → Reach
            (initialize_chat_session works subscriber c u s).1
            (opened c u live (initialize_chat_session works subscriber c u s))
    closes :
        {s : Sockets} {live : Live} (c u : ℕ)
        → 0 < live c u
        → Reach s live
        → Reach (handle_chat_on_close works subscriber c u s).1 (set_pair c u (live c u - 1) live)

  connects-IsPresent :
      (s : Sockets) (live : Live) (c u c' u' : ℕ)
      → IsPresent subscriber s live c u
      → IsPresent subscriber s live c' u'
      → IsPresent subscriber
          (initialize_chat_session works subscriber c' u' s).1
          (opened c' u' live (initialize_chat_session works subscriber c' u' s))
          c
          u
  unfolding initialize_chat_session acquire_session
  connects-IsPresent s live c u c' u' h k =
      announce-IsPresent works subscriber s live c u c' u' h k (s.counts c' u' == 0) refl

  closes-IsPresent :
      (s : Sockets) (live : Live) (c u c' u' : ℕ)
      → IsPresent subscriber s live c u
      → IsPresent subscriber s live c' u'
      → IsPresent subscriber
          (handle_chat_on_close works subscriber c' u' s).1
          (set_pair c' u' (live c' u' - 1) live)
          c
          u
  unfolding handle_chat_on_close release_session
  closes-IsPresent s live c u c' u' h k =
      leave-IsPresent works subscriber _ _ c u c' u' (leb (s.counts c' u') 1) none_left released
    where
      none_left : leb (s.counts c' u') 1 ≡ true → set_pair c' u' (live c' u' - 1) live c' u' ≡ 0
      none_left e = ground (arith, k.counted, set_pair-own c' u' (live c' u' - 1) live)

      fewer : 0 < set_pair c' u' (live c' u' - 1) live c u → 0 < live c u
      fewer =
          set_pair-cases (λ (n : ℕ). 0 < n → 0 < live c u) c' u' (live c' u' - 1) live c u (λ p. p)
            λ p q z. omega (arith, entry-ap live p q, z)

      released :
          IsPresent subscriber
            (record s { counts = set_pair c' u' (s.counts c' u' - 1) s.counts })
            (set_pair c' u' (live c' u' - 1) live)
            c
            u
      released = record {
        counted =
            set_pair-both (λ x y. x ≡ y) c' u' (s.counts c' u' - 1) (live c' u' - 1) s.counts live c
              u (ap (λ (n : ℕ). n - 1) k.counted) h.counted;
        online = λ p. h.online (fewer p);
        registered = λ p. h.registered (fewer p);
      }

  reaches-IsPresent :
      {s : Sockets} {live : Live} (c u : ℕ) → Reach s live → IsPresent subscriber s live c u
  reaches-IsPresent c u start = record {
    counted = refl;
    online = λ p. absurd (omega arith);
    registered = λ p. absurd (omega arith);
  }
  reaches-IsPresent c u (connects {s} {live} c' u' r) =
      connects-IsPresent s live c u c' u' (reaches-IsPresent c u r) (reaches-IsPresent c' u' r)
  reaches-IsPresent c u (closes {s} {live} c' u' l r) =
      closes-IsPresent s live c u c' u' (reaches-IsPresent c u r) (reaches-IsPresent c' u' r)

  -- Where connections and closings of one server follow one another, and whichever calls of the other
  -- services fail: the server counts for each user and channel the sessions that were initialized and
  -- are not closed, and a user who has one in a channel is online in it and registered at the forwarder
  -- with this server.
  pub Reach-online :
      {s : Sockets} {live : Live} (c u : ℕ)
      → Reach s live
      → (s.counts c u ≡ live c u)
        × ((live c u ≡ 0) ⊎ ((s.online c u ≡ true) × (s.registered c u ≡ some subscriber)))
  Reach-online {s} {live} c u r = (known.counted, present (live c u) refl)
    where
      known : IsPresent subscriber s live c u
      known = reaches-IsPresent c u r

      present :
          (n : ℕ)
          → live c u ≡ n
          → (live c u ≡ 0) ⊎ ((s.online c u ≡ true) × (s.registered c u ≡ some subscriber))
      present zero e = inl e
      present (suc n) e = inr (known.online (omega arith), known.registered (omega arith))
