-- ===== src/Matching/Pairing.antt =====
-- Whom Match of pkg/match/service.go pairs, and whom it leaves out.
use nexus_chat.Base.{
  ℕ, suc, String, ◌≡◌, refl, subst, Bool, true, false, List, [], ◌∷◌, Option, none, some, arith,
  ◌==◌, if◌then◌else◌,
}
use mathlib.Core.Bool.{false≢true}
use nexus_chat.Effects.{Result, ok, err}
use nexus_chat.Stateful.{Ends, continue}
use nexus_chat.Matching.{
  Waiter, MatchResult, Filtering, unconfigured, unreachable, no_decision, rejected, accepted,
  Ranking, unranked, ranked_empty, ranked_some, Error, redis_failed, Services, Lobby, is_waiting,
  not_matched, pop_min_or_add, pop_or_add, pop_or_push, channel_answer, open_channel, after_ranking,
  after_filter, pair, match_user,
}

module _ (services : Services) (u : ℕ) where
  -- What a result tells, where the queue was `queue` and is `queue'`: the pair is of the caller and
  -- another user, who stood first in the queue and has left it, and the filter let them through.
  abbrev pub IsFair : List Waiter → MatchResult → List Waiter → Type 0
  IsFair queue r queue' =
      (r.user_id ≡ u)
      × ((w : Waiter) × ((queue ≡ w ∷ queue')
            × ((r.peer_id ≡ w.user)
                × (((w.user == u) ≡ false) × (services.filtering u w.user ≡ accepted)))))

  abbrev Fair : List Waiter → MatchResult → Lobby → Type 0
  Fair queue r s = r.matched ≡ true → IsFair queue r s.queue

  -- the peer that came out of the queue
  abbrev Popped : List Waiter → ℕ → Lobby → Type 0
  Popped queue peer s =
      (w : Waiter) × ((queue ≡ w ∷ s.queue) × ((peer ≡ w.user) × ((w.user == u) ≡ false)))

  open_channel-Fair :
      (queue : List Waiter) (peer : ℕ) (s : Lobby)
      → Popped queue peer s
      → services.filtering u peer ≡ accepted
      → Ends (Fair queue) (λ t. Unit) (open_channel services u peer s)
  unfolding open_channel
  open_channel-Fair queue peer s (w, (p, (q, n))) f = answered (services.new_channel s.requests)
    where
      answered :
          (o : Option (ℕ × String))
          → Ends
              (Fair queue)
              (λ t. Unit)
              (channel_answer services u peer o, record s { requests = suc s.requests })
      answered none = tt
      answered (some c) =
          λ m. (refl, (w, (p, (q, (n, subst (λ x. services.filtering u x ≡ accepted) q f)))))

  after_ranking-Fair :
      (queue : List Waiter) (peer : ℕ) (ranking : Ranking) (s : Lobby)
      → Popped queue peer s
      → services.filtering u peer ≡ accepted
      → Ends (Fair queue) (λ t. Unit) (after_ranking services u peer ranking s)
  unfolding after_ranking
  after_ranking-Fair queue peer unranked s p f = open_channel-Fair queue peer s p f
  after_ranking-Fair queue peer ranked_some s p f = open_channel-Fair queue peer s p f
  after_ranking-Fair queue peer ranked_empty s p f = λ m. absurd (false≢true m)

  after_filter-Fair :
      (queue : List Waiter) (peer : ℕ) (answer : Filtering) (s : Lobby)
      → Popped queue peer s
      → services.filtering u peer ≡ answer
      → Ends (Fair queue) (λ t. Unit) (after_filter services u peer answer s)
  unfolding after_filter
  after_filter-Fair queue peer unconfigured s p f = tt
  after_filter-Fair queue peer unreachable s p f = tt
  after_filter-Fair queue peer no_decision s p f = tt
  after_filter-Fair queue peer rejected s p f = λ m. absurd (false≢true m)
  after_filter-Fair queue peer accepted s p f =
      after_ranking-Fair queue peer (services.ranking u peer) s p f

  pair-Fair :
      (queue : List Waiter) (o : Option ℕ) (s : Lobby)
      → ((peer : ℕ) → o ≡ some peer → Popped queue peer s)
      → Ends (Fair queue) (λ t. Unit) (pair services u o s)
  unfolding pair
  pair-Fair queue none s p = λ m. absurd (false≢true m)
  pair-Fair queue (some peer) s p =
      after_filter-Fair queue peer (services.filtering u peer) s (p peer refl) refl

  pop_or_add-Popped :
      (score : ℕ) (queue : List Waiter) (peer : ℕ)
      → is_waiting u queue ≡ false
      → (pop_or_add services score u queue).0 ≡ some peer
      → (w : Waiter) × ((queue ≡ w ∷ (pop_or_add services score u queue).1)
          × ((peer ≡ w.user) × ((w.user == u) ≡ false)))
  unfolding pop_or_add is_waiting
  pop_or_add-Popped score [] peer n e = cc
  pop_or_add-Popped score (w ∷ ws) peer n e = (w, (refl, (cc, ground (arith, n))))

  pop_min_or_add-Popped :
      (score : ℕ) (queue : List Waiter) (peer : ℕ)
      → (pop_min_or_add services score u queue).0 ≡ some peer
      → (w : Waiter) × ((queue ≡ w ∷ (pop_min_or_add services score u queue).1)
          × ((peer ≡ w.user) × ((w.user == u) ≡ false)))
  unfolding pop_min_or_add
  pop_min_or_add-Popped score queue peer e = branch (is_waiting u queue) refl e
    where
      branch :
          (b : Bool)
          → is_waiting u queue ≡ b
          → (if b then (none, queue) else pop_or_add services score u queue).0 ≡ some peer
          → (w : Waiter) × ((queue
                ≡ w ∷ (if b then (none, queue) else pop_or_add services score u queue).1)
              × ((peer ≡ w.user) × ((w.user == u) ≡ false)))
      branch true b h = cc
      branch false b h = pop_or_add-Popped score queue peer b h

  match_user-Fair : (s : Lobby) → Ends (Fair s.queue) (λ t. Unit) (match_user services u s)
  unfolding match_user pop_or_push
  match_user-Fair s = answered (services.redis s.commands)
    where
      popped : Option ℕ × List Waiter
      popped = pop_min_or_add services (services.clock s.commands) u s.queue

      t : Lobby
      t = record s { commands = suc s.commands }

      outcome : Bool → Result Error (Option ℕ) × Lobby
      outcome b = if b then (ok popped.0, record t { queue = popped.1 }) else (err redis_failed, t)

      answered :
          (b : Bool) → Ends (Fair s.queue) (λ t. Unit) (continue (pair services u) (outcome b))
      answered true =
          pair-Fair s.queue popped.0 (record t { queue = popped.1 })
            λ peer e. pop_min_or_add-Popped (services.clock s.commands) s.queue peer e
      answered false = tt

-- A result that Match reports as matched is of the caller and another user: that user stood first
-- in the waiting list and has left it, the rest of the list is as before, and the safety service let
-- the pair through.
pub match_user-IsFair :
    (services : Services) (u : ℕ) (s s' : Lobby) (r : MatchResult)
    → match_user services u s ≡ (ok r, s')
    → r.matched ≡ true
    → IsFair services u s.queue r s'.queue
match_user-IsFair services u s s' r e =
    subst (Ends (Fair services u s.queue) (λ t. Unit)) e (match_user-Fair services u s)

-- From a waiting list where the caller does not wait and the first user waits once: if the command of
-- Redis succeeds and the safety service does not let the pair through, Match reports no match, and
-- then neither the caller nor that first user waits.
pub match_user-lost :
    (services : Services) (u : ℕ) (s : Lobby) (w : Waiter) (ws : List Waiter)
    → s.queue ≡ w ∷ ws
    → services.redis s.commands ≡ true
    → is_waiting u s.queue ≡ false
    → is_waiting w.user ws ≡ false
    → services.filtering u w.user ≡ rejected
    → ((match_user services u s).0 ≡ ok not_matched)
      × ((is_waiting u (match_user services u s).1.queue ≡ false)
          × (is_waiting w.user (match_user services u s).1.queue ≡ false))
unfolding match_user pop_or_push pop_min_or_add pop_or_add pair after_filter is_waiting
match_user-lost services u s w ws q up alone once refused =
    rw (up, alone, q, refused) (refl, (elsewhere, once))
  where
    elsewhere : is_waiting u ws ≡ false
    elsewhere = ground (arith, subst (λ x. is_waiting u x ≡ false) q alone)
