-- ===== src/Chat/Sockets/Changes.antt =====
-- What a session that comes or goes does to all users and channels.
use nexus_chat.Base.{
  ◌≡◌, refl, ℕ, suc, ◌-◌, ◌<◌, String, Bool, true, false, Option, some, ◌==◌, ◌&&◌, arith, ap, ◌∙◌,
  Bool-cases, inl, inr, ==_iff,
}
use nexus_chat.Effects.{Result, ok, err}
use nexus_chat.Stateful.{continue}
use nexus_chat.Cassandra.{Outcome, done, failed, failed_applied}
use nexus_chat.Storage.{set_pair, set_pair-cases, set_pair-both, set_pair-entry, entry-ap}
use nexus_chat.Chat.Sockets.{
  Sockets, Failure, release_session, called, set_online, register_session, or_release,
  release_failed, announce, leave,
}

-- the sessions that were initialized and are not closed, by channel and user
abbrev pub Live : Type 0
Live = ℕ → ℕ → ℕ

abbrev pub opened : ℕ → ℕ → Live → Result Failure (Unit {0}) × Sockets → Live
opened c u live (ok x, s) = set_pair c u (suc (live c u)) live
opened c u live (err e, s) = live

module _ (subscriber : String) where
  pub record IsPresent (s : Sockets) (live : Live) (c u : ℕ) : Type 0 where
    pub counted : s.counts c u ≡ live c u
    pub online : 0 < live c u → s.online c u ≡ true
    pub registered : 0 < live c u → s.registered c u ≡ some subscriber

module _ (works : ℕ → Outcome) (subscriber : String) where
  pub leave-IsPresent :
      (s : Sockets) (live : Live) (c u c' u' : ℕ) (b : Bool)
      → (b ≡ true → live c' u' ≡ 0)
      → IsPresent subscriber s live c u
      → IsPresent subscriber (leave works subscriber c' u' b s).1 live c u
  unfolding leave set_online set_pair
  leave-IsPresent s live c u c' u' false e h = h
  leave-IsPresent s live c u c' u' true e h = gone (works s.calls)
    where
      still : 0 < live c u → set_pair c' u' false s.online c u ≡ true
      still p =
          set_pair-cases (λ x. x ≡ true) c' u' false s.online c u (h.online p)
            λ q r. absurd (omega (arith, e refl, entry-ap live q r))

      gone :
          (o : Outcome)
          → IsPresent subscriber
              (called o
                (record s { calls = suc s.calls })
                (record s { calls = suc s.calls; online = set_pair c' u' false s.online })).1
              live
              c
              u
      gone done = record { counted = h.counted; online = λ p. still p; registered = h.registered }
      gone failed = record { counted = h.counted; online = h.online; registered = h.registered }
      gone failed_applied = record {
        counted = h.counted;
        online = λ p. still p;
        registered = h.registered;
      }

  -- the session is counted, and its user is present already or is made so
  joined-IsPresent :
      (s t : Sockets) (live : Live) (c u c' u' : ℕ)
      → IsPresent subscriber s live c u
      → IsPresent subscriber s live c' u'
      → t.counts ≡ set_pair c' u' (suc (s.counts c' u')) s.counts
      → (0 < set_pair c' u' (suc (live c' u')) live c u → t.online c u ≡ true)
      → (0 < set_pair c' u' (suc (live c' u')) live c u → t.registered c u ≡ some subscriber)
      → IsPresent subscriber t (set_pair c' u' (suc (live c' u')) live) c u
  joined-IsPresent s t live c u c' u' h k e on reg = record {
    counted = rw e (
        set_pair-both (λ x y. x ≡ y) c' u' (suc (s.counts c' u')) (suc (live c' u')) s.counts live c
          u (ap (λ (n : ℕ). suc n) k.counted) h.counted);
    online = on;
    registered = reg;
  }

  back :
      (f : ℕ → ℕ → ℕ) (c u c' u' : ℕ)
      → set_pair c' u'
          (set_pair c' u' (suc (f c' u')) f c' u' - 1)
          (set_pair c' u' (suc (f c' u')) f)
          c
          u
        ≡ f c u
  unfolding set_pair
  back f c u c' u' = elim (Bool-cases (c == c' && u == u')) [
    | inl e ↦
        let p : c ≡ c' = (==_iff c c').0 (ground arith) in
        let q : u ≡ u' = (==_iff u u').0 (ground arith) in
        let own : (c' == c' && u' == u') ≡ true = ground arith in
        rw (e, own) (omega (arith, entry-ap f p q))
    | inr e ↦ rw e refl
  ]

  -- the session is given back: its user had none before it
  dropped-IsPresent :
      (s t : Sockets) (live : Live) (c u c' u' : ℕ)
      → IsPresent subscriber s live c u
      → t.counts
        ≡ set_pair c' u'
            (set_pair c' u' (suc (s.counts c' u')) s.counts c' u' - 1)
            (set_pair c' u' (suc (s.counts c' u')) s.counts)
      → (0 < live c u → t.online c u ≡ true)
      → (0 < live c u → t.registered c u ≡ some subscriber)
      → IsPresent subscriber t live c u
  dropped-IsPresent s t live c u c' u' h e on reg = record {
    counted = rw (e, back s.counts c u c' u') h.counted;
    online = on;
    registered = reg;
  }

  module _ (s : Sockets) (live : Live) (c u c' u' : ℕ) (h : IsPresent subscriber s live c u)
      (k : IsPresent subscriber s live c' u') where
    put_online : 0 < live c u → set_pair c' u' true s.online c u ≡ true
    put_online p = set_pair-entry (λ x. x ≡ true) c' u' true s.online c u (h.online p) λ x. refl

    put_registered :
        0 < live c u → set_pair c' u' (some subscriber) s.registered c u ≡ some subscriber
    put_registered p =
        set_pair-entry (λ x. x ≡ some subscriber) c' u' (some subscriber) s.registered c u
          (h.registered p) λ x. refl

    abbrev acquired : Sockets
    acquired = record s { counts = set_pair c' u' (suc (s.counts c' u')) s.counts }

    abbrev Announced : Result Failure (Unit {0}) × Sockets → Type 0
    Announced x = IsPresent subscriber x.1 (opened c' u' live x) c u

    registers-IsPresent :
        (t : Sockets)
        → t.counts ≡ acquired.counts
        → t.online ≡ set_pair c' u' true s.online
        → t.registered ≡ s.registered
        → Announced (or_release works subscriber c' u' (register_session works subscriber c' u') t)
    unfolding or_release register_session release_session
    registers-IsPresent t e f g = after (works t.calls)
      where
        after :
            (o : Outcome)
            → Announced (
                release_failed works subscriber c' u' (
                  called o
                    (record t { calls = suc t.calls })
                    (record t {
                      calls = suc t.calls;
                      registered = set_pair c' u' (some subscriber) t.registered;
                    })))
        after done =
            joined-IsPresent s _ live c u c' u' h k e
              (rw f (
                set_pair-both (λ (l : ℕ) (o : Bool). 0 < l → o ≡ true) c' u' (suc (live c' u')) true
                  live s.online c u (λ p. refl) h.online))
              (rw g (
                set_pair-both (λ (l : ℕ) (o : Option String). 0 < l → o ≡ some subscriber) c' u'
                  (suc (live c' u')) (some subscriber) live s.registered c u (λ p. refl)
                  h.registered))
        after failed =
            dropped-IsPresent s _ live c u c' u' h (rw e refl) (rw f put_online) (rw g h.registered)
        after failed_applied =
            dropped-IsPresent s _ live c u c' u' h (rw e refl) (rw f put_online)
              (rw g put_registered)

    pub announce-IsPresent :
        (b : Bool)
        → b ≡ (s.counts c' u' == 0)
        → Announced (announce works subscriber c' u' b acquired)
    unfolding announce or_release release_session set_online
    announce-IsPresent false e =
        joined-IsPresent s acquired live c u c' u' h k refl
          (set_pair-cases (λ (l : ℕ). 0 < l → s.online c u ≡ true) c' u' (suc (live c' u')) live c u
            h.online λ p q z. entry-ap s.online p q ∙ k.online some_live)
          (set_pair-cases (λ (l : ℕ). 0 < l → s.registered c u ≡ some subscriber) c' u'
            (suc (live c' u')) live c u h.registered
            λ p q z. entry-ap s.registered p q ∙ k.registered some_live)
      where
        some_live : 0 < live c' u'
        some_live = ground (arith, k.counted)
    announce-IsPresent true e = after (works s.calls)
      where
        after :
            (o : Outcome)
            → Announced (
                continue
                  (λ a. or_release works subscriber c' u' (register_session works subscriber c' u'))
                  (release_failed works subscriber c' u' (
                    called o
                      (record acquired { calls = suc s.calls })
                      (record acquired {
                        calls = suc s.calls;
                        online = set_pair c' u' true s.online;
                      }))))
        after done = registers-IsPresent _ refl refl refl
        after failed = dropped-IsPresent s _ live c u c' u' h refl h.online h.registered
        after failed_applied = dropped-IsPresent s _ live c u c' u' h refl put_online h.registered
